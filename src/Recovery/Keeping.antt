-- ===== src/Recovery/Keeping.antt =====
-- The recovery engine writes only what the stores write.
use enterprise_kratos.Base.{String, Uuid, ◌⊎◌, inl, inr}
use enterprise_kratos.Flow.{Flow, UiInternal}
use enterprise_kratos.Errors.{Error}
use enterprise_kratos.External.{External}
use enterprise_kratos.Store.{Tables, Env}
use enterprise_kratos.Store.Frame.{IsOrder, Keeps, keeping}
use enterprise_kratos.Store.Writes.{HasWrites}
use enterprise_kratos.Store.Keeping.{stores}
use enterprise_kratos.Engine.Keeping.{guards}
use enterprise_kratos.Recovery

module _ ⦃env : Env⦄ {S : Tables → Tables → Type 0} {tenant : Uuid} (o : IsOrder S)
    (h : HasWrites S tenant) where
  pub init_flow-keeps : Keeps S (Recovery.init_flow tenant)
  unfolding Recovery.init_flow
  init_flow-keeps = search (keeping, guards, stores) depth 20

  module _ (ext : External) where
    advanced-keeps :
        (f : Flow) (token : String) (r : Error ⊎ Uuid)
        → Keeps S (Recovery.advanced ext tenant f token r)
    unfolding Recovery.advanced
    advanced-keeps f token (inl _) = search (keeping, stores) depth 14
    advanced-keeps f token (inr _) = search (keeping, stores) depth 14

    pub request_recovery-keeps :
        (id : Uuid) (email : String) → Keeps S (Recovery.request_recovery ext tenant id email)
    unfolding Recovery.request_recovery
    request_recovery-keeps id email = search (keeping, guards, stores, advanced-keeps) depth 30

    check_token-keeps :
        (id : Uuid) (token : String) (i : UiInternal)
        → Keeps S (Recovery.check_token ext tenant id token i)
    unfolding Recovery.check_token Recovery.reject_token
    check_token-keeps id token i = search (keeping, stores) depth 14

    pub use_token-keeps :
        (id : Uuid) (token : String) → Keeps S (Recovery.use_token ext tenant id token)
    unfolding Recovery.use_token
    use_token-keeps id token = search (keeping, guards, stores, check_token-keeps) depth 40
