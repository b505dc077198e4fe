-- ===== src/Store/Identities.antt =====
-- internal/identity/store.go, over the tables identities and identity_credentials.
-- A query with LIMIT 1 takes the first row that fits.
use enterprise_kratos.Base.{
  String, Bool, true, false, ◌&&◌, Option, none, some, List, [], ◌∷◌, ◌++◌, Uuid, Json, ◌==◌,
  str_eq, if◌then◌else◌, find, update, any, contains_str,
}
use enterprise_kratos.Identity.{Identity, Credential}
use enterprise_kratos.Errors.{db_failure, credential_not_found}
use enterprise_kratos.Store.{Tables, Env, M, done, fail, found_or, run, query, next_uuid, ◌>>=◌}

abbrev pub is_identity : Uuid → Uuid → Identity → Bool
is_identity tenant id i = i.tenant_id == tenant && i.id == id

abbrev pub is_credential : Uuid → Uuid → Credential → Bool
is_credential tenant id c = c.tenant_id == tenant && c.id == id

-- WHERE tenant_id = $1 AND type = $2 AND $3 = ANY(identifiers).
abbrev pub has_identifier : Uuid → String → String → Credential → Bool
has_identifier tenant kind identifier c =
    c.tenant_id == tenant && (str_eq c.kind kind && contains_str c.identifiers identifier)

-- WHERE tenant_id = $1 AND identity_id = $2 AND type = $3.
abbrev pub belongs_to : Uuid → Uuid → String → Credential → Bool
belongs_to tenant identity kind c =
    c.tenant_id == tenant && (c.identity_id == identity && str_eq c.kind kind)

-- WHERE tenant_id = $1 AND $2 = ANY(identifiers).
abbrev pub is_known_as : Uuid → String → Credential → Bool
is_known_as tenant identifier c = c.tenant_id == tenant && contains_str c.identifiers identifier

-- Equality of the TEXT[] columns.
abbrev pub same_texts : List String → List String → Bool
same_texts [] [] = true
same_texts (x ∷ xs) (y ∷ ys) = str_eq x y && same_texts xs ys
same_texts _ _ = false

-- The unique index (tenant_id, type, identifiers).
abbrev pub same_key : Uuid → String → List String → Credential → Bool
same_key tenant kind identifiers c =
    c.tenant_id == tenant && (str_eq c.kind kind && same_texts c.identifiers identifiers)

abbrev pub new_identity : Uuid → Uuid → Uuid → Json → String → Identity
new_identity id tenant schema traits state = record {
  id = id;
  tenant_id = tenant;
  schema_id = schema;
  traits = traits;
  state = state;
}

abbrev pub new_credential : Uuid → Uuid → Uuid → String → List String → Json → Credential
new_credential id tenant identity kind identifiers config = record {
  id = id;
  tenant_id = tenant;
  identity_id = identity;
  kind = kind;
  identifiers = identifiers;
  config = config;
}

abbrev pub identity_refused : Identity → Tables → Bool
identity_refused i db = any (is_identity i.tenant_id i.id) db.identities

abbrev pub with_identity : Identity → Tables → Tables
with_identity i db =
    if identity_refused i db then db else record db { identities = db.identities ++ i ∷ [] }

-- The primary key and the unique index can refuse a credential.
abbrev pub credential_refused : Credential → Tables → Bool
credential_refused c db =
    if any (is_credential c.tenant_id c.id) db.credentials
    then true
    else any (same_key c.tenant_id c.kind c.identifiers) db.credentials

abbrev pub with_credential : Credential → Tables → Tables
with_credential c db =
    if credential_refused c db then db else record db { credentials = db.credentials ++ c ∷ [] }

abbrev pub set_identity_state : String → Identity → Identity
set_identity_state state i = record i { state = state }

abbrev pub set_traits : Json → Identity → Identity
set_traits traits i = record i { traits = traits }

abbrev pub with_identity_update : Uuid → Uuid → (Identity → Identity) → Tables → Tables
with_identity_update tenant id g db = record db {
  identities = update (is_identity tenant id) g db.identities;
}

-- DO UPDATE SET config = EXCLUDED.config, identifiers = EXCLUDED.identifiers.
abbrev pub set_credential : List String → Json → Credential → Credential
set_credential identifiers config c = record c { identifiers = identifiers; config = config }

abbrev pub with_upsert : Credential → Tables → Tables
with_upsert c db =
    if any (same_key c.tenant_id c.kind c.identifiers) db.credentials
    then record db {
      credentials =
          update (same_key c.tenant_id c.kind c.identifiers) (set_credential c.identifiers c.config)
            db.credentials;
    }
    else with_credential c db

-- The row that the upsert would insert has a primary key of its own.
abbrev upsert_refused : Credential → Tables → Bool
upsert_refused c db =
    if any (same_key c.tenant_id c.kind c.identifiers) db.credentials
    then false
    else any (is_credential c.tenant_id c.id) db.credentials

module _ ⦃env : Env⦄ where
  unfoldable pub get_by_identifier : Uuid → String → String → M Credential
  get_by_identifier tenant kind identifier = do
    row ← query (λ db. find (has_identifier tenant kind identifier) db.credentials)
    found_or credential_not_found row

  unfoldable pub get_by_identity_and_type : Uuid → Uuid → String → M Credential
  get_by_identity_and_type tenant identity kind = do
    row ← query (λ db. find (belongs_to tenant identity kind) db.credentials)
    found_or credential_not_found row

  unfoldable pub get_identity : Uuid → Uuid → M Identity
  get_identity tenant identity = do
    row ← query (λ db. find (is_identity tenant identity) db.identities)
    found_or credential_not_found row

  unfoldable pub owner : Option Credential → M Uuid
  owner none = fail credential_not_found
  owner (some c) = done c.identity_id

  unfoldable pub get_identity_id_by_identifier : Uuid → String → M Uuid
  get_identity_id_by_identifier tenant identifier = do
    row ← query (λ db. find (is_known_as tenant identifier) db.credentials)
    owner row

  unfoldable pub create_identity : Uuid → Uuid → Json → String → M Identity
  create_identity tenant schema traits state = do
    id ← next_uuid
    refused ←
        run (identity_refused (new_identity id tenant schema traits state))
          (with_identity (new_identity id tenant schema traits state))
    if refused then fail db_failure else done (new_identity id tenant schema traits state)

  unfoldable pub create_credential : Uuid → Uuid → String → List String → Json → M Credential
  create_credential tenant identity kind identifiers config = do
    id ← next_uuid
    refused ←
        run (credential_refused (new_credential id tenant identity kind identifiers config))
          (with_credential (new_credential id tenant identity kind identifiers config))
    if refused
        then fail db_failure
        else done (new_credential id tenant identity kind identifiers config)

  unfoldable pub affected : Bool → M (Unit {0})
  affected hit = if hit then done tt else fail credential_not_found

  unfoldable pub update_identity_state : Uuid → Uuid → String → M (Unit {0})
  update_identity_state tenant identity state = do
    hit ←
        run (λ db. any (is_identity tenant identity) db.identities)
          (with_identity_update tenant identity (set_identity_state state))
    affected hit

  unfoldable pub update_traits : Uuid → Uuid → Json → M (Unit {0})
  update_traits tenant identity traits = do
    hit ←
        run (λ db. any (is_identity tenant identity) db.identities)
          (with_identity_update tenant identity (set_traits traits))
    affected hit

  unfoldable pub upsert_credential : Uuid → Uuid → String → List String → Json → M (Unit {0})
  upsert_credential tenant identity kind identifiers config = do
    id ← next_uuid
    refused ←
        run (upsert_refused (new_credential id tenant identity kind identifiers config))
          (with_upsert (new_credential id tenant identity kind identifiers config))
    if refused then fail db_failure else done tt
