-- ===== src/Store/Tenants.antt =====
-- internal/tenant/store.go, over the table tenants.
use enterprise_kratos.Base.{
  String, Bool, true, List, [], ◌∷◌, ◌++◌, Uuid, ◌==◌, str_eq, if◌then◌else◌, find, update, any,
  order_by,
}
use enterprise_kratos.Tenant.{Tenant, active}
use enterprise_kratos.Errors.{db_failure, tenant_not_found}
use enterprise_kratos.Store.{Tables, Env, M, done, fail, found_or, run, query, next_uuid, ◌>>=◌}

abbrev pub has_slug : String → Tenant → Bool
has_slug slug t = str_eq t.slug slug

abbrev pub has_id : Uuid → Tenant → Bool
has_id id t = t.id == id

-- The column state is 'active' by default.
abbrev pub new_tenant : Uuid → String → String → Tenant
new_tenant id slug name = record { id = id; slug = slug; name = name; state = active }

-- The primary key and the unique slug.
abbrev pub tenant_refused : Tenant → Tables → Bool
tenant_refused t db =
    if any (has_id t.id) db.tenants then true else any (has_slug t.slug) db.tenants

abbrev pub with_tenant : Tenant → Tables → Tables
with_tenant t db = if tenant_refused t db then db else record db { tenants = db.tenants ++ t ∷ [] }

abbrev pub set_state : String → Tenant → Tenant
set_state state t = record t { state = state }

abbrev pub with_state : Uuid → String → Tables → Tables
with_state id state db = record db { tenants = update (has_id id) (set_state state) db.tenants }

module _ ⦃env : Env⦄ where
  abbrev pub by_name : Tenant → Tenant → Bool
  by_name t u = env.collation t.name u.name

  unfoldable pub get_by_slug : String → M Tenant
  get_by_slug slug = do
    row ← query (λ db. find (has_slug slug) db.tenants)
    found_or tenant_not_found row

  unfoldable pub get_by_id : Uuid → M Tenant
  get_by_id id = do row ← query (λ db. find (has_id id) db.tenants); found_or tenant_not_found row

  unfoldable pub create : String → String → M Tenant
  create slug name = do
    id ← next_uuid
    refused ← run (tenant_refused (new_tenant id slug name)) (with_tenant (new_tenant id slug name))
    if refused then fail db_failure else done (new_tenant id slug name)

  unfoldable pub affected : Bool → M (Unit {0})
  affected hit = if hit then done tt else fail tenant_not_found

  unfoldable pub update_state : Uuid → String → M (Unit {0})
  update_state id state = do
    hit ← run (λ db. any (has_id id) db.tenants) (with_state id state)
    affected hit

  unfoldable pub list : M (List Tenant)
  list = query λ db. order_by by_name db.tenants
