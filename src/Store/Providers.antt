-- ===== src/Store/Providers.antt =====
-- internal/sso/store.go, over the table tenant_sso_providers.
pub mod Keeping
use enterprise_kratos.Base.{
  ℕ, String, Bool, true, false, ◌&&◌, List, [], ◌∷◌, ◌++◌, Uuid, Json, ◌==◌, str_eq, if◌then◌else◌,
  find, select, update, delete as delete_rows, any, order_by,
}
use enterprise_kratos.Sso.{Provider}
use enterprise_kratos.Errors.{db_failure, provider_not_found}
use enterprise_kratos.Store.{Tables, Env, M, done, fail, found_or, run, query, next_uuid, ◌>>=◌}

abbrev pub is_provider : Uuid → Uuid → Provider → Bool
is_provider tenant id p = p.tenant_id == tenant && p.id == id

-- WHERE tenant_id = $1 AND type = $2 AND enabled = true.
abbrev pub is_enabled : Uuid → String → Provider → Bool
is_enabled tenant kind p = p.tenant_id == tenant && (str_eq p.kind kind && p.enabled)

-- The column enabled is true by default.
abbrev pub new_provider : Uuid → Uuid → String → String → Json → Provider
new_provider id tenant kind name config = record {
  id = id;
  tenant_id = tenant;
  kind = kind;
  provider = name;
  config = config;
  enabled = true;
}

-- The primary key (tenant_id, id).
abbrev pub provider_refused : Provider → Tables → Bool
provider_refused p db = any (is_provider p.tenant_id p.id) db.providers

abbrev pub with_provider : Provider → Tables → Tables
with_provider p db =
    if provider_refused p db then db else record db { providers = db.providers ++ p ∷ [] }

abbrev pub set_enabled_to : Bool → Provider → Provider
set_enabled_to enabled p = record p { enabled = enabled }

abbrev pub with_enabled : Uuid → Uuid → Bool → Tables → Tables
with_enabled tenant id enabled db = record db {
  providers = update (is_provider tenant id) (set_enabled_to enabled) db.providers;
}

abbrev pub without_provider : Uuid → Uuid → Tables → Tables
without_provider tenant id db = record db {
  providers = delete_rows (is_provider tenant id) db.providers;
}

module _ ⦃env : Env⦄ where
  abbrev pub by_name : Provider → Provider → Bool
  by_name p q = env.collation p.provider q.provider

  -- By type, and by provider within a type.
  abbrev pub by_type_and_name : Provider → Provider → Bool
  by_type_and_name p q =
      if env.collation p.kind q.kind
      then (if env.collation q.kind p.kind then by_name p q else true)
      else false

  unfoldable pub create : Uuid → String → String → Json → M Provider
  create tenant kind name config = do
    id ← next_uuid
    refused ←
        run (provider_refused (new_provider id tenant kind name config))
          (with_provider (new_provider id tenant kind name config))
    if refused then fail db_failure else done (new_provider id tenant kind name config)

  unfoldable pub get : Uuid → Uuid → M Provider
  get tenant id = do
    row ← query (λ db. find (is_provider tenant id) db.providers)
    found_or provider_not_found row

  unfoldable pub list : Uuid → M (List Provider)
  list tenant =
      query λ db. order_by by_type_and_name (select (λ p. p.tenant_id == tenant) db.providers)

  unfoldable pub list_by_type : Uuid → String → M (List Provider)
  list_by_type tenant kind =
      query λ db. order_by by_name (select (is_enabled tenant kind) db.providers)

  unfoldable pub affected : Bool → M (Unit {0})
  affected hit = if hit then done tt else fail provider_not_found

  unfoldable pub delete : Uuid → Uuid → M (Unit {0})
  delete tenant id = do
    hit ← run (λ db. any (is_provider tenant id) db.providers) (without_provider tenant id)
    affected hit

  unfoldable pub set_enabled : Uuid → Uuid → Bool → M (Unit {0})
  set_enabled tenant id enabled = do
    hit ← run (λ db. any (is_provider tenant id) db.providers) (with_enabled tenant id enabled)
    affected hit
