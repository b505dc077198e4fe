-- ===== src/Login/Refusals.antt =====
-- What `InitFlow` and `SubmitFlow` refuse, and a login by password that goes through.
use enterprise_kratos.Base.{Uuid, String, false, List, none, some, [], ◌⊎◌, ◌≡◌, arith, find}
use enterprise_kratos.Flow.{Flow, is_pending}
use enterprise_kratos.External.{External}
use enterprise_kratos.Errors.{db_failure, flow_is}
use enterprise_kratos.Store.{Env, World, err, panic, effects}
use enterprise_kratos.Store.Flows
use enterprise_kratos.Store.Policies
use enterprise_kratos.Authenticator.Registry.{Registry}
use enterprise_kratos.Engine.{require, require_pending}
use enterprise_kratos.Login

module _ ⦃env : Env⦄ (ext : External) (reg : Registry) (tenant : Uuid) (w : World) where
  -- Where the policy of the tenant allows no first factor and the query of it does not fail,
  -- starting a login panics, and nothing is written.
  pub init_flow-panic :
      env.fault w.calls ≡ none
      → (Policies.or_default (Policies.policy_of tenant w.db.policies)).login.allowed_first_factors
        ≡ []
      → ((Login.init_flow ext reg tenant w).0 ≡ panic)
        × ((Login.init_flow ext reg tenant w).1.db ≡ w.db)
  unfolding Login.init_flow Login.start_all Login.first_of_methods Policies.get effects
  init_flow-panic calm none_allowed = ground arith

  -- A submission to a flow that is no longer pending, in any environment: the answer is an error
  -- that names the state of the flow, or a failure of the database, and nothing is written.
  pub submit_flow-finished :
      (id : Uuid) (method : String) (values : List (String × String)) (f : Flow)
      → find (Flows.is_flow tenant id) w.db.flows ≡ some f
      → is_pending f.state ≡ false
      → (((Login.submit_flow ext reg tenant id method values w).0 ≡ err (flow_is f.state))
          ⊎ ((Login.submit_flow ext reg tenant id method values w).0 ≡ err db_failure))
        × ((Login.submit_flow ext reg tenant id method values w).1.db ≡ w.db)
  unfolding Login.submit_flow Flows.get Flows.check_expiry require_pending require effects
  submit_flow-finished id method values f h k = ground arith
