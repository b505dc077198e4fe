-- ===== src/Store/Writes.antt =====
-- The writes of one tenant's operations, and the relations between tables that contain them. To
-- show a relation of everything that the stores and engines do for a tenant, it is enough to show
-- it of these.
use enterprise_kratos.Base.{ℕ, Bool, String, List, Option, Uuid, Json}
use enterprise_kratos.Flow.{FlowType, State, Ui}
use enterprise_kratos.Policy.{FlowPolicy}
use enterprise_kratos.Store.{Tables}
use enterprise_kratos.Store.Flows
use enterprise_kratos.Store.Identities.{
  new_identity, with_identity, with_identity_update, set_identity_state, set_traits, new_credential,
  with_credential, with_upsert,
}
use enterprise_kratos.Store.Sessions.{
  new_session, with_session, with_revoked, is_session, has_token,
}
use enterprise_kratos.Store.Policies.{set_policy}
use enterprise_kratos.Store.Schemas.{new_schema, with_schema, with_deactivated}
use enterprise_kratos.Store.Providers.{new_provider, with_provider, with_enabled, without_provider}

pub record HasWrites (S : Tables → Tables → Type 0) (tenant : Uuid) : Type 0 where
  pub insert_flow :
      (id : Uuid) (kind : FlowType) (ui : Ui) (expires_at : ℕ) (db : Tables)
      → S db (Flows.with_inserted (Flows.new_flow id tenant kind ui expires_at) db)
  pub update_flow :
      (id : Uuid) (state : State) (identity : Option Uuid) (ui : Ui) (db : Tables)
      → S db (Flows.with_update tenant id (Flows.set_columns state identity ui) db)
  pub update_flow_state :
      (id : Uuid) (state : State) (db : Tables)
      → S db (Flows.with_update tenant id (Flows.set_state state) db)
  pub insert_identity :
      (id schema : Uuid) (traits : Json) (state : String) (db : Tables)
      → S db (with_identity (new_identity id tenant schema traits state) db)
  pub update_identity_state :
      (id : Uuid) (state : String) (db : Tables)
      → S db (with_identity_update tenant id (set_identity_state state) db)
  pub update_traits :
      (id : Uuid) (traits : Json) (db : Tables)
      → S db (with_identity_update tenant id (set_traits traits) db)
  pub insert_credential :
      (id identity : Uuid) (kind : String) (identifiers : List String) (config : Json) (db : Tables)
      → S db (with_credential (new_credential id tenant identity kind identifiers config) db)
  pub upsert_credential :
      (id identity : Uuid) (kind : String) (identifiers : List String) (config : Json) (db : Tables)
      → S db (with_upsert (new_credential id tenant identity kind identifiers config) db)
  pub insert_session :
      (id identity : Uuid) (token : String) (expires_at : ℕ) (aal : String) (amr : List String)
      (db : Tables)
      → S db (with_session (new_session id tenant identity token expires_at aal amr) db)
  pub revoke_session : (id : Uuid) (db : Tables) → S db (with_revoked (is_session tenant id) db)
  pub revoke_token :
      (token : String) (db : Tables) → S db (with_revoked (has_token tenant token) db)
  pub upsert_policy :
      (p : FlowPolicy) (db : Tables)
      → S db (record db { policies = set_policy tenant p db.policies })
  pub insert_schema :
      (id : Uuid) (schema : Json) (db : Tables)
      → S db (with_schema (new_schema id tenant schema) db)
  pub deactivate_schemas : (db : Tables) → S db (with_deactivated tenant db)
  pub insert_provider :
      (id : Uuid) (kind name : String) (config : Json) (db : Tables)
      → S db (with_provider (new_provider id tenant kind name config) db)
  pub update_provider :
      (id : Uuid) (enabled : Bool) (db : Tables) → S db (with_enabled tenant id enabled db)
  pub delete_provider : (id : Uuid) (db : Tables) → S db (without_provider tenant id db)
