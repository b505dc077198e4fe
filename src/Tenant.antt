-- ===== src/Tenant.antt =====
-- internal/tenant/model.go. The states are texts in the database.
use enterprise_kratos.Base.{String, Uuid}

abbrev pub active : String
active = "active"

pub record Tenant : Type 0 where
  pub id : Uuid
  pub slug : String
  pub name : String
  pub state : String
