-- ===== src/Migration.antt =====
-- internal/migration/run.go: a migration from Kratos to one tenant, with its steps 1 to 4. A
-- statement that a store has as well is the store's.
pub mod Config
pub mod Kratos
pub mod Accounts
pub mod Keeping
pub mod Factors
pub mod ActiveSchema
pub mod Mapping
pub mod Owners
pub mod Passwords
use enterprise_kratos.Base.{
  String, Bool, true, false, not, ◌&&◌, Option, none, some, List, [], ◌∷◌, Uuid, Json, str, arr,
  obj, nil, cons, Items, end, member, ◌==◌, str_eq, if◌then◌else◌, find, update, any, put, is_empty,
}
use enterprise_kratos.Policy.{FlowPolicy}
use enterprise_kratos.Sso.{Provider, scopes_or_default}
use enterprise_kratos.Tenant.{Tenant}
use enterprise_kratos.External.{External}
use enterprise_kratos.Errors.{db_failure}
use enterprise_kratos.Store.{
  Tables, Env, M, done, fail, found_or, run, query, next_uuid, ◌>>=◌, ◌>>◌,
}
use enterprise_kratos.Store.Tenants.{has_slug, has_id, new_tenant, with_tenant}
use enterprise_kratos.Store.Schemas.{
  default_schema_json, new_schema, schema_refused, with_schema, with_deactivated,
}
use enterprise_kratos.Store.Policies
use enterprise_kratos.Store.Providers
use enterprise_kratos.Migration.Config.{
  KratosConfig, SchemaEntry, OidcProvider, require_verification, allowed_first_factors,
}
use enterprise_kratos.Migration.Kratos.{KratosTables, Sources, fetch_schema}
use enterprise_kratos.Migration.Accounts.{ProviderMap, migrate_identities, migrate_sessions}

pub record Options : Type 0 where
  pub target_tenant_slug : String
  pub target_tenant_name : String
  pub include_sessions : Bool

-- `New`: the name is the slug by default.
abbrev pub tenant_name : Options → String
tenant_name o =
    if str_eq o.target_tenant_name "" then o.target_tenant_slug else o.target_tenant_name

abbrev pub set_name : String → Tenant → Tenant
set_name name t = record t { name = name }

-- ON CONFLICT (slug) DO UPDATE SET name = EXCLUDED.name.
abbrev pub with_upserted : Tenant → Tables → Tables
with_upserted t db =
    if any (has_slug t.slug) db.tenants
    then record db { tenants = update (has_slug t.slug) (set_name t.name) db.tenants }
    else with_tenant t db

abbrev inserted_id : Tenant → Tables → Option Tenant → Option Uuid
inserted_id t db (some u) = some u.id
inserted_id t db none = if any (has_id t.id) db.tenants then none else some t.id

-- RETURNING id; none where the primary key refuses the row.
abbrev pub upserted_id : Tenant → Tables → Option Uuid
upserted_id t db = inserted_id t db (find (has_slug t.slug) db.tenants)

abbrev pub schema_url : String → List SchemaEntry → String
schema_url id [] = ""
schema_url id (s ∷ ss) = if str_eq s.id id then s.url else schema_url id ss

abbrev or_text : String → String → String
or_text fallback s = if str_eq s "" then fallback else s

-- The policy as the column stores it.
abbrev pub policy_from : KratosConfig → FlowPolicy
policy_from cfg = record {
  login = record {
    allowed_first_factors = allowed_first_factors cfg;
    allowed_second_factors = [];
    mfa_required = false;
    sso_only =
        not cfg.self_service.methods.password.enabled && cfg.self_service.methods.oidc.enabled;
  };
  registration = record { enabled = true; require_verification = require_verification cfg };
  session = record {
    ttl = or_text "24h" cfg.session.lifespan;
    required_aal = "aal1";
    inactivity_timeout = "1h";
  };
  recovery = record {
    enabled = cfg.self_service.flows.recovery.enabled;
    allowed_methods =
        if cfg.self_service.flows.recovery.enabled
        then or_text "link" cfg.self_service.flows.recovery.use_ ∷ []
        else [];
  };
}

abbrev items_of : List String → Items
items_of [] = nil
items_of (s ∷ ss) = cons (str s) (items_of ss)

abbrev pub provider_config : OidcProvider → Json
provider_config p = obj (
    member "client_id" (str p.client_id) (
      member "client_secret" (str p.client_secret) (
        member "issuer_url" (str p.issuer_url)
          (member "scopes" (arr (items_of (scopes_or_default p.scope))) end))))

-- WHERE tenant_id = $1 AND type = 'oidc' AND provider = $2.
abbrev pub is_named : Uuid → String → Provider → Bool
is_named tenant name p = p.tenant_id == tenant && (str_eq p.kind "oidc" && str_eq p.provider name)

module _ ⦃env : Env⦄ where
  unfoldable pub ensure_tenant : Options → M Uuid
  ensure_tenant opts = do
    id ← next_uuid
    row ←
        run (upserted_id (new_tenant id opts.target_tenant_slug (tenant_name opts)))
          (with_upserted (new_tenant id opts.target_tenant_slug (tenant_name opts)))
    found_or db_failure row

  module _ (tenant : Uuid) where
    -- The column JSONB refuses a text that is not JSON.
    unfoldable pub insert_schema : Option Json → M Uuid
    insert_schema none = query (λ _. tt) >> fail db_failure
    insert_schema (some schema) = do
      id ← next_uuid
      refused ←
          run (schema_refused (new_schema id tenant schema))
            (with_schema (new_schema id tenant schema))
      if refused then fail db_failure else done id

    unfoldable pub schema_json : External → Sources → String → M (Option Json)
    schema_json ext src url =
        if str_eq url ""
        then done (some default_schema_json)
        else (do text ← fetch_schema src url; done (ext.parse_json text))

    unfoldable pub replace_schema : Option Json → M Uuid
    replace_schema schema = run (λ _. tt) (with_deactivated tenant) >> insert_schema schema

    unfoldable pub migrate_schema : External → Sources → KratosConfig → M Uuid
    migrate_schema ext src cfg = do
      schema ← schema_json ext src (schema_url cfg.identity.default_schema_id cfg.identity.schemas)
      replace_schema schema

    unfoldable pub migrate_policy : KratosConfig → M (Unit {0})
    migrate_policy cfg = Policies.upsert tenant (policy_from cfg)

    unfoldable pub existing_or_created : OidcProvider → Option Provider → M Uuid
    existing_or_created p (some q) = done q.id
    existing_or_created p none = do
      q ← Providers.create tenant "oidc" p.provider (provider_config p)
      done q.id

    unfoldable pub migrate_provider : OidcProvider → M Uuid
    migrate_provider p = do
      row ← query (λ db. find (is_named tenant p.provider) db.providers)
      existing_or_created p row

    unfoldable pub migrate_providers : List OidcProvider → ProviderMap → M ProviderMap
    migrate_providers [] m = done m
    migrate_providers (p ∷ ps) m = do id ← migrate_provider p; migrate_providers ps (put p.id id m)

    unfoldable pub migrate_sso : KratosConfig → M ProviderMap
    migrate_sso cfg = migrate_providers cfg.self_service.methods.oidc.config.providers []

module _ ⦃env : Env⦄ (ext : External) (src : Sources) (kratos : KratosTables) (nid : Uuid) where
  -- `Run` once the tenant is known.
  unfoldable pub migrate_into : Options → KratosConfig → Uuid → M (Unit {0})
  migrate_into opts cfg tenant = do
    schema ← migrate_schema tenant ext src cfg
    migrate_policy tenant cfg
    providers ← migrate_sso tenant cfg
    m ← migrate_identities tenant ext kratos nid schema providers
    if opts.include_sessions
        then (do _ ← migrate_sessions tenant kratos nid m; done tt)
        else done tt

  unfoldable pub migrate : Options → KratosConfig → M (Unit {0})
  migrate opts cfg = do tenant ← ensure_tenant opts; migrate_into opts cfg tenant
