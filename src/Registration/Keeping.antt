-- ===== src/Registration/Keeping.antt =====
-- The registration engine writes only what the stores and the authenticators write.
use enterprise_kratos.Base.{uuid_nil, String, Uuid, List, ◌⊎◌, inl, inr}
use enterprise_kratos.Flow.{Flow}
use enterprise_kratos.Policy.{FlowPolicy}
use enterprise_kratos.Identity.{Credential}
use enterprise_kratos.Errors.{Error}
use enterprise_kratos.External.{External}
use enterprise_kratos.Store.{Tables, Env, ◌>>=◌}
use enterprise_kratos.Store.Frame.{IsOrder, Keeps, Keeps-fail, keeping}
use enterprise_kratos.Store.Writes.{HasWrites}
use enterprise_kratos.Store.Keeping.{stores}
use enterprise_kratos.Authenticator.{EnrollResult}
use enterprise_kratos.Authenticator.Registry.{Registry, get}
use enterprise_kratos.Authenticator.Keeping.{EachKeeps}
use enterprise_kratos.Engine.Keeping.{guards, Keeps-returned_get}
use enterprise_kratos.Engine.{returned}
use enterprise_kratos.Traits.{extract_identifier}
use enterprise_kratos.Login.Keeping.{start_all-keeps}
use enterprise_kratos.Verification.Keeping as VerificationKeeping
use enterprise_kratos.Registration

module _ {S : Tables → Tables → Type 0} (o : IsOrder S) where
  must_be_free-keeps : (r : Error ⊎ Credential) → Keeps S (Registration.must_be_free r)
  unfolding Registration.must_be_free
  must_be_free-keeps (inr c) = Keeps-fail o _
  must_be_free-keeps (inl e) = search keeping

module _ ⦃env : Env⦄ {S : Tables → Tables → Type 0} {tenant : Uuid} (o : IsOrder S)
    (h : HasWrites S tenant) (ext : External) (reg : Registry) where
  pub init_flow-keeps : EachKeeps S reg → Keeps S (Registration.init_flow ext reg tenant)
  unfolding Registration.init_flow
  init_flow-keeps each = search (keeping, guards, stores, start_all-keeps) depth 30

  finish-keeps :
      (f : Flow) (pol : FlowPolicy) (identity : Uuid)
      → Keeps S (Registration.finish ext reg tenant f pol identity)
  unfolding Registration.finish
  finish-keeps f pol identity = search (keeping, VerificationKeeping.init_flow-keeps) depth 12

  create_account-keeps :
      (f : Flow) (pol : FlowPolicy) (values : List (String × String)) (identifier : String)
      (r : EnrollResult)
      → Keeps S (Registration.create_account ext reg tenant f pol values identifier r)
  unfolding Registration.create_account
  create_account-keeps f pol values identifier r = search (keeping, stores, finish-keeps) depth 20

  module _ (each : EachKeeps S reg) where
    pub submit_flow-keeps :
        (id : Uuid) (method : String) (values : List (String × String))
        → Keeps S (Registration.submit_flow ext reg tenant id method values)
    unfolding Registration.submit_flow
    submit_flow-keeps id method values =
        search (keeping, guards, stores, must_be_free-keeps, account) depth 30
      where
        account :
            (f : Flow) (pol : FlowPolicy)
            → Keeps S (
                returned (get method reg) >>= λ a. (do
                  enrolled ←
                      a.enroll
                        (record { tenant_id = tenant; identity_id = uuid_nil; values = values })
                  Registration.create_account ext reg tenant f pol values
                      (extract_identifier ext values)
                      enrolled))
        account f pol =
            Keeps-returned_get o method reg each λ a k.
              let enroll = k.enroll in search (keeping, create_account-keeps, enroll) depth 10
