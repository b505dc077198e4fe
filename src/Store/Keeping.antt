-- ===== src/Store/Keeping.antt =====
-- A relation that contains the writes of a tenant is kept by every operation of the stores.
use enterprise_kratos.Base.{ℕ, Uuid, String, List, Option, none, some, Json, ◌⊎◌, inl, inr}
use enterprise_kratos.Flow.{FlowType, State, Ui}
use enterprise_kratos.Policy.{FlowPolicy}
use enterprise_kratos.Identity.{Credential, Session, Schema}
use enterprise_kratos.Errors.{Error}
use enterprise_kratos.Store.{Tables, Env}
use enterprise_kratos.Store.Frame.{IsOrder, Keeps, Keeps-run, Keeps-done, Keeps-fail, keeping}
use enterprise_kratos.Store.Writes.{HasWrites}
use enterprise_kratos.Store.Flows
use enterprise_kratos.Store.Identities
use enterprise_kratos.Store.Sessions
use enterprise_kratos.Store.Policies
use enterprise_kratos.Store.Schemas
use enterprise_kratos.Store.Schemas.{default_schema, with_schema}

-- The default schema is the only write of the schema store.
module _ ⦃env : Env⦄ {S : Tables → Tables → Type 0} (o : IsOrder S) (tenant : Uuid)
    (insert : (id : Uuid) (db : Tables) → S db (with_schema (default_schema id tenant) db)) where
  schemas-get_active : Keeps S (Schemas.get_active tenant)
  unfolding Schemas.get_active
  schemas-get_active = search (keeping, o)

  schemas-insert_default : Keeps S (Schemas.insert_default tenant)
  unfolding Schemas.insert_default
  schemas-insert_default = search (keeping, o, Keeps-run, insert) depth 14

  retried-keeps : (e : Error) (r : Error ⊎ Schema) → Keeps S (Schemas.retried e r)
  unfolding Schemas.retried
  retried-keeps e (inl _) = Keeps-fail o e
  retried-keeps e (inr s) = Keeps-done o s

  created_or_refetched-keeps :
      (r : Error ⊎ Schema) → Keeps S (Schemas.created_or_refetched tenant r)
  unfolding Schemas.created_or_refetched
  created_or_refetched-keeps (inr s) = Keeps-done o s
  created_or_refetched-keeps (inl e) = search (keeping, o, schemas-get_active, retried-keeps)

  ensured-keeps : (r : Error ⊎ Schema) → Keeps S (Schemas.ensured tenant r)
  unfolding Schemas.ensured
  ensured-keeps (inr s) = Keeps-done o s
  ensured-keeps (inl e) = search (keeping, o, schemas-insert_default, created_or_refetched-keeps)

  pub ensure_default-keeps : Keeps S (Schemas.ensure_default tenant)
  unfolding Schemas.ensure_default
  ensure_default-keeps = search (keeping, o, schemas-get_active, ensured-keeps)

module _ ⦃env : Env⦄ {S : Tables → Tables → Type 0} {tenant : Uuid} (o : IsOrder S)
    (h : HasWrites S tenant) where
  pub flows-create :
      (kind : FlowType) (ui : Ui) (expires_at : ℕ)
      → Keeps S (Flows.create tenant kind ui expires_at)
  unfolding Flows.create
  flows-create kind ui expires_at =
      search (keeping, o, Keeps-run, λ (id : Uuid). h.insert_flow id kind ui expires_at) depth 14

  pub flows-update_state :
      (id : Uuid) (state : State) → Keeps S (Flows.update_state tenant id state)
  unfolding Flows.update_state
  flows-update_state id state = Keeps-run o _ _ (h.update_flow_state id state)

  pub flows-get : (id : Uuid) → Keeps S (Flows.get tenant id)
  unfolding Flows.get Flows.check_expiry
  flows-get id = search (keeping, o, flows-update_state) depth 14

  pub flows-update :
      (id : Uuid) (state : State) (identity : Option Uuid) (ui : Ui)
      → Keeps S (Flows.update tenant id state identity ui)
  unfolding Flows.update Flows.affected
  flows-update id state identity ui =
      search (keeping, o, Keeps-run, h.update_flow id state identity ui) depth 14

  pub identities-get_by_identifier :
      (kind identifier : String) → Keeps S (Identities.get_by_identifier tenant kind identifier)
  unfolding Identities.get_by_identifier
  identities-get_by_identifier kind identifier = search (keeping, o)

  pub identities-get_by_identity_and_type :
      (identity : Uuid) (kind : String)
      → Keeps S (Identities.get_by_identity_and_type tenant identity kind)
  unfolding Identities.get_by_identity_and_type
  identities-get_by_identity_and_type identity kind = search (keeping, o)

  pub identities-get_identity :
      (identity : Uuid) → Keeps S (Identities.get_identity tenant identity)
  unfolding Identities.get_identity
  identities-get_identity identity = search (keeping, o)

  owner-keeps : (c : Option Credential) → Keeps S (Identities.owner c)
  unfolding Identities.owner
  owner-keeps none = Keeps-fail o _
  owner-keeps (some c) = Keeps-done o _

  pub identities-get_identity_id_by_identifier :
      (identifier : String) → Keeps S (Identities.get_identity_id_by_identifier tenant identifier)
  unfolding Identities.get_identity_id_by_identifier
  identities-get_identity_id_by_identifier identifier = search (keeping, o, owner-keeps)

  pub identities-create_identity :
      (schema : Uuid) (traits : Json) (state : String)
      → Keeps S (Identities.create_identity tenant schema traits state)
  unfolding Identities.create_identity
  identities-create_identity schema traits state =
      search (keeping, o, Keeps-run, λ (id : Uuid). h.insert_identity id schema traits state) depth
        14

  pub identities-create_credential :
      (identity : Uuid) (kind : String) (identifiers : List String) (config : Json)
      → Keeps S (Identities.create_credential tenant identity kind identifiers config)
  unfolding Identities.create_credential
  identities-create_credential identity kind identifiers config =
      search
        (
          keeping,
          o,
          Keeps-run,
          λ (id : Uuid). h.insert_credential id identity kind identifiers config,
        )
        depth 14

  pub identities-update_identity_state :
      (identity : Uuid) (state : String)
      → Keeps S (Identities.update_identity_state tenant identity state)
  unfolding Identities.update_identity_state Identities.affected
  identities-update_identity_state identity state =
      search (keeping, o, Keeps-run, h.update_identity_state identity state) depth 14

  pub identities-update_traits :
      (identity : Uuid) (traits : Json) → Keeps S (Identities.update_traits tenant identity traits)
  unfolding Identities.update_traits Identities.affected
  identities-update_traits identity traits =
      search (keeping, o, Keeps-run, h.update_traits identity traits) depth 14

  pub identities-upsert_credential :
      (identity : Uuid) (kind : String) (identifiers : List String) (config : Json)
      → Keeps S (Identities.upsert_credential tenant identity kind identifiers config)
  unfolding Identities.upsert_credential
  identities-upsert_credential identity kind identifiers config =
      search
        (
          keeping,
          o,
          Keeps-run,
          λ (id : Uuid). h.upsert_credential id identity kind identifiers config,
        )
        depth 14

  pub sessions-create :
      (identity : Uuid) (aal : String) (amr : List String) (ttl : ℕ)
      → Keeps S (Sessions.create tenant identity aal amr ttl)
  unfolding Sessions.create
  sessions-create identity aal amr ttl =
      search
        (
          keeping,
          o,
          Keeps-run,
          λ (token : String) (expires_at : ℕ) (id : Uuid).
              h.insert_session id identity token expires_at aal amr,
        )
        depth 20

  check_session-keeps : (s : Session) (now : ℕ) → Keeps S (Sessions.check_session s now)
  unfolding Sessions.check_session
  check_session-keeps s now = search (keeping, o)

  pub sessions-get_by_token : (token : String) → Keeps S (Sessions.get_by_token tenant token)
  unfolding Sessions.get_by_token
  sessions-get_by_token token = search (keeping, o, check_session-keeps) depth 14

  pub sessions-revoke : (id : Uuid) → Keeps S (Sessions.revoke tenant id)
  unfolding Sessions.revoke Sessions.affected
  sessions-revoke id = search (keeping, o, Keeps-run, h.revoke_session id) depth 14

  pub sessions-revoke_by_token : (token : String) → Keeps S (Sessions.revoke_by_token tenant token)
  unfolding Sessions.revoke_by_token Sessions.affected
  sessions-revoke_by_token token = search (keeping, o, Keeps-run, h.revoke_token token) depth 14

  pub policies-get : Keeps S (Policies.get tenant)
  unfolding Policies.get
  policies-get = search (keeping, o)

  pub policies-upsert : (p : FlowPolicy) → Keeps S (Policies.upsert tenant p)
  unfolding Policies.upsert
  policies-upsert p = Keeps-run o _ _ (h.upsert_policy p)

  pub schemas-ensure_default : Keeps S (Schemas.ensure_default tenant)
  schemas-ensure_default =
      ensure_default-keeps o tenant (λ id. h.insert_schema id Schemas.default_schema_json)

pub ruleset stores = (
  flows-create, flows-get, flows-update, flows-update_state, identities-get_by_identifier,
  identities-get_by_identity_and_type, identities-get_identity,
  identities-get_identity_id_by_identifier, identities-create_identity,
  identities-create_credential, identities-update_identity_state, identities-update_traits,
  identities-upsert_credential, sessions-create, sessions-get_by_token, sessions-revoke,
  sessions-revoke_by_token, policies-get, policies-upsert, schemas-ensure_default,
)
