-- ===== src/Verification/Keeping.antt =====
-- The verification engine writes only what the stores write.
use enterprise_kratos.Base.{String, Uuid}
use enterprise_kratos.Store.{Tables, Env}
use enterprise_kratos.Store.Frame.{IsOrder, Keeps, keeping}
use enterprise_kratos.Store.Writes.{HasWrites}
use enterprise_kratos.Store.Keeping.{stores}
use enterprise_kratos.Engine.Keeping.{guards}
use enterprise_kratos.Verification

module _ ⦃env : Env⦄ {S : Tables → Tables → Type 0} {tenant : Uuid} (o : IsOrder S)
    (h : HasWrites S tenant) where
  pub init_flow-keeps : (identity : Uuid) → Keeps S (Verification.init_flow tenant identity)
  unfolding Verification.init_flow
  init_flow-keeps identity = search (keeping, stores) depth 20

  pub submit_flow-keeps :
      (id : Uuid) (token : String) → Keeps S (Verification.submit_flow tenant id token)
  unfolding Verification.submit_flow Verification.check_token
  submit_flow-keeps id token = search (keeping, guards, stores) depth 30
