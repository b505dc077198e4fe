-- ===== src/Store/Schemas.antt =====
-- internal/schema/store.go, over the table identity_schemas.
use enterprise_kratos.Base.{
  Bool, true, false, ◌&&◌, Option, none, some, List, [], ◌∷◌, ◌++◌, ◌⊎◌, inl, inr, Uuid, Json, ltb,
  ◌==◌, if◌then◌else◌, any, update, str, arr, obj, nil, cons, end, member,
}
use enterprise_kratos.Identity.{Schema}
use enterprise_kratos.Errors.{Error, db_failure, schema_not_found}
use enterprise_kratos.Store.{
  Tables, Env, M, done, fail, attempt, found_or, run, query, next_uuid, ◌>>=◌,
}

abbrev pub default_schema_json : Json
default_schema_json = obj (
    member "$schema" (str "http://json-schema.org/draft-07/schema#") (
      member "type" (str "object") (
        member "properties"
          (obj (
            member "email" (obj (member "type" (str "string") (member "format" (str "email") end)))
              end))
          (member "required" (arr (cons (str "email") nil)) end))))

abbrev newer : Schema → Option Schema → Option Schema
newer s none = some s
newer s (some t) = if ltb s.version t.version then some t else some s

-- WHERE tenant_id = $1 AND is_active = true ORDER BY version DESC LIMIT 1; of two rows with the
-- highest version the first.
abbrev pub newest_active : Uuid → List Schema → Option Schema
newest_active tenant [] = none
newest_active tenant (s ∷ ss) =
    let best = newest_active tenant ss in
    if s.tenant_id == tenant && s.is_active then newer s best else best

abbrev pub schema_refused : Schema → Tables → Bool
schema_refused s db = any (λ t. t.tenant_id == s.tenant_id && t.id == s.id) db.schemas

abbrev pub with_schema : Schema → Tables → Tables
with_schema s db = if schema_refused s db then db else record db { schemas = db.schemas ++ s ∷ [] }

abbrev pub new_schema : Uuid → Uuid → Json → Schema
new_schema id tenant schema = record {
  id = id;
  tenant_id = tenant;
  version = 1;
  schema = schema;
  is_active = true;
}

abbrev pub default_schema : Uuid → Uuid → Schema
default_schema id tenant = new_schema id tenant default_schema_json

-- WHERE tenant_id = $1 AND is_active = true, in the migration.
abbrev pub is_active_of : Uuid → Schema → Bool
is_active_of tenant s = s.tenant_id == tenant && s.is_active

abbrev pub deactivated : Schema → Schema
deactivated s = record s { is_active = false }

abbrev pub with_deactivated : Uuid → Tables → Tables
with_deactivated tenant db = record db {
  schemas = update (is_active_of tenant) deactivated db.schemas;
}

abbrev is_schema_not_found : Error → Bool
is_schema_not_found schema_not_found = true
is_schema_not_found _ = false

module _ ⦃env : Env⦄ where
  unfoldable pub get_active : Uuid → M Schema
  get_active tenant = do
    row ← query (λ db. newest_active tenant db.schemas)
    found_or schema_not_found row

  unfoldable pub insert_default : Uuid → M Schema
  insert_default tenant = do
    id ← next_uuid
    refused ←
        run (schema_refused (default_schema id tenant)) (with_schema (default_schema id tenant))
    if refused then fail db_failure else done (default_schema id tenant)

  -- A second look, after a concurrent insert.
  unfoldable pub retried : Error → (Error ⊎ Schema) → M Schema
  retried e (inl _) = fail e
  retried e (inr s) = done s

  unfoldable pub created_or_refetched : Uuid → (Error ⊎ Schema) → M Schema
  created_or_refetched tenant (inr s) = done s
  created_or_refetched tenant (inl e) = do again ← attempt (get_active tenant); retried e again

  unfoldable pub ensured : Uuid → (Error ⊎ Schema) → M Schema
  ensured tenant (inr s) = done s
  ensured tenant (inl e) =
      if is_schema_not_found e
      then (do created ← attempt (insert_default tenant); created_or_refetched tenant created)
      else fail e

  unfoldable pub ensure_default : Uuid → M Schema
  ensure_default tenant = do existing ← attempt (get_active tenant); ensured tenant existing
