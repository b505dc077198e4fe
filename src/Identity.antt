-- ===== src/Identity.antt =====
-- The row types of internal/identity/store.go, internal/session/session.go and
-- internal/schema/store.go. JSONB columns hold a value of `Json`.
use enterprise_kratos.Base.{ℕ, String, Bool, List, Uuid, Json}

abbrev pub state_active : String
state_active = "active"

abbrev pub state_pending_verification : String
state_pending_verification = "pending_verification"

pub record Identity : Type 0 where
  pub id : Uuid
  pub tenant_id : Uuid
  pub schema_id : Uuid
  pub traits : Json
  pub state : String

pub record Credential : Type 0 where
  pub id : Uuid
  pub tenant_id : Uuid
  pub identity_id : Uuid
  pub kind : String
  pub identifiers : List String
  pub config : Json

pub record Session : Type 0 where
  pub id : Uuid
  pub tenant_id : Uuid
  pub identity_id : Uuid
  pub token : String
  pub expires_at : ℕ
  pub aal : String
  pub amr : List String
  pub active : Bool

pub record Schema : Type 0 where
  pub id : Uuid
  pub tenant_id : Uuid
  pub version : ℕ
  pub schema : Json
  pub is_active : Bool
