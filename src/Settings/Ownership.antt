-- ===== src/Settings/Ownership.antt =====
-- Whose settings a submission can change.
use enterprise_kratos.Base.{Uuid, String, false, List, some, ◌≡◌, arith, find}
use enterprise_kratos.Flow.{Flow}
use enterprise_kratos.Store.{Env, World, is_ok, effects}
use enterprise_kratos.Store.Flows
use enterprise_kratos.Engine.{require, require_pending}
use enterprise_kratos.Authenticator.Registry.{Registry}
use enterprise_kratos.Settings

module _ ⦃env : Env⦄ where
  -- A submission to a flow of the tenant by anyone but the identity of the flow, in any
  -- environment: it does not answer, and no identity, credential or session changes.
  pub submit_flow-not_owner :
      (reg : Registry) (tenant id identity : Uuid) (method : String)
      (values : List (String × String)) (f : Flow) (w : World)
      → find (Flows.is_flow tenant id) w.db.flows ≡ some f
      → Settings.is_owner identity f.identity_id ≡ false
      → (is_ok (Settings.submit_flow reg tenant id identity method values w).0 ≡ false)
        × ((Settings.submit_flow reg tenant id identity method values w).1.db.identities
            ≡ w.db.identities)
        × ((Settings.submit_flow reg tenant id identity method values w).1.db.credentials
            ≡ w.db.credentials)
        × ((Settings.submit_flow reg tenant id identity method values w).1.db.sessions
            ≡ w.db.sessions)
  unfolding Settings.submit_flow Flows.get Flows.check_expiry Flows.update_state require
      require_pending effects
  submit_flow-not_owner reg tenant id identity method values f w stands other =
      (ground arith, ground arith, ground arith, ground arith)
