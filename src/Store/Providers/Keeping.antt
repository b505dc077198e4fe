-- ===== src/Store/Providers/Keeping.antt =====
-- The operations of the provider store keep what contains the writes of the tenant.
use enterprise_kratos.Base.{Uuid, String, Bool, Json}
use enterprise_kratos.Store.{Tables, Env}
use enterprise_kratos.Store.Frame.{IsOrder, Keeps, Keeps-run, keeping}
use enterprise_kratos.Store.Writes.{HasWrites}
use enterprise_kratos.Store.Providers

module _ ⦃env : Env⦄ {S : Tables → Tables → Type 0} {tenant : Uuid} (o : IsOrder S)
    (h : HasWrites S tenant) where
  pub create-keeps :
      (kind name : String) (config : Json) → Keeps S (Providers.create tenant kind name config)
  unfolding Providers.create
  create-keeps kind name config =
      search (keeping, o, Keeps-run, λ (id : Uuid). h.insert_provider id kind name config) depth 14

  pub get-keeps : (id : Uuid) → Keeps S (Providers.get tenant id)
  unfolding Providers.get
  get-keeps id = search (keeping, o)

  pub list_by_type-keeps : (kind : String) → Keeps S (Providers.list_by_type tenant kind)
  unfolding Providers.list_by_type
  list_by_type-keeps kind = search (keeping, o)

  pub delete-keeps : (id : Uuid) → Keeps S (Providers.delete tenant id)
  unfolding Providers.delete Providers.affected
  delete-keeps id = search (keeping, o, Keeps-run, h.delete_provider id) depth 14

  pub set_enabled-keeps :
      (id : Uuid) (enabled : Bool) → Keeps S (Providers.set_enabled tenant id enabled)
  unfolding Providers.set_enabled Providers.affected
  set_enabled-keeps id enabled =
      search (keeping, o, Keeps-run, h.update_provider id enabled) depth 14
