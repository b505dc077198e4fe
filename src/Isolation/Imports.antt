-- ===== src/Isolation/Imports.antt =====
-- A migration leaves the rows of the other tenants as they are.
use enterprise_kratos.Base.{
  Uuid, String, some, ◌≢◌, ◌≡◌, refl, ap, arith, find, str_eq, ◌∙◌, find-update_other,
  find-insert_other, eq_iff, if◌then◌else◌, any, update, ◌++◌, ◌∷◌, [], Bool, true, false, subst,
  sym,
}
use enterprise_kratos.Tenant.{Tenant}
use enterprise_kratos.External.{External}
use enterprise_kratos.Store.{Tables, Env, World, Result, ok, err, panic, M, effects, continue}
use enterprise_kratos.Store.Frame.{IsOrder, Keeps, Keeps-run, keeping}
use enterprise_kratos.Store.Tenants.{has_slug, new_tenant, with_tenant, tenant_refused}
use enterprise_kratos.Migration
use enterprise_kratos.Migration.{Options, tenant_name, upserted_id, with_upserted, set_name}
use enterprise_kratos.Migration.Config.{KratosConfig}
use enterprise_kratos.Migration.Kratos.{KratosTables, Sources}
use enterprise_kratos.Migration.Keeping.{migrate_into-keeps}
use enterprise_kratos.Isolation.{SameRows, SameRows-IsOrder}
use enterprise_kratos.Isolation.Writes.{SameRows-HasWrites}

-- The rows of t are the same, whatever the table of tenants.
abbrev pub Spares : Uuid → Tables → Tables → Type 0
Spares t a b = SameRows t a (record b { tenants = a.tenants })

module _ (t : Uuid) where
  -- What holds of the rows holds of them apart from the tenants.
  SameRows-Spares : {a b : Tables} → SameRows t a b → Spares t a b
  SameRows-Spares k = record {
    flows = k.flows;
    identities = k.identities;
    credentials = k.credentials;
    sessions = k.sessions;
    schemas = k.schemas;
    providers = k.providers;
    tenants = refl;
    policy = k.policy;
  }

  Spares-IsOrder : IsOrder (Spares t)
  Spares-IsOrder = record {
    same = (SameRows-IsOrder t).same;
    then_ = λ p q. record {
      flows = q.flows ∙ p.flows;
      identities = q.identities ∙ p.identities;
      credentials = q.credentials ∙ p.credentials;
      sessions = q.sessions ∙ p.sessions;
      schemas = q.schemas ∙ p.schemas;
      providers = q.providers ∙ p.providers;
      tenants = refl;
      policy = q.policy ∙ p.policy;
    };
  }

  Spares-if :
      (b : Bool) (a x y : Tables) → Spares t a x → Spares t a y → Spares t a (if b then x else y)
  Spares-if true a x y p q = p
  Spares-if false a x y p q = q

  renamed_tenants : Tenant → Tables → Tables
  renamed_tenants u db = record db {
    tenants = update (has_slug u.slug) (set_name u.name) db.tenants;
  }

  upserted-Spares : (u : Tenant) (db : Tables) → Spares t db (with_upserted u db)
  unfolding renamed_tenants
  upserted-Spares u db =
      let same = (SameRows-IsOrder t).same db in
      Spares-if (any (has_slug u.slug) db.tenants) db (renamed_tenants u db) (with_tenant u db) same
        (Spares-if (tenant_refused u db) db db (record db { tenants = db.tenants ++ u ∷ [] }) same
          same)

  ensure_tenant-keeps :
      ⦃env : Env⦄ (opts : Options) → Keeps (Spares t) (Migration.ensure_tenant opts)
  unfolding Migration.ensure_tenant
  ensure_tenant-keeps opts =
      search
        (
          keeping,
          Spares-IsOrder,
          Keeps-run,
          λ (id : Uuid). upserted-Spares (new_tenant id opts.target_tenant_slug (tenant_name opts)),
        )
        depth 14

module _ (slug s : String) (apart : str_eq slug s ≡ false) where
  foreign : (u : Tenant) → str_eq u.slug slug ≡ true → str_eq u.slug s ≡ false
  foreign u h = subst (λ x. str_eq x s ≡ false) (sym ((eq_iff u.slug slug).0 h)) apart

  slugs-with_upserted :
      (id : Uuid) (name : String) (db : Tables)
      → find (has_slug s) (with_upserted (new_tenant id slug name) db).tenants
        ≡ find (has_slug s) db.tenants
  slugs-with_upserted id name db = ground (
    arith,
    find-update_other (has_slug s) (has_slug slug) (set_name name) foreign foreign db.tenants,
    find-insert_other (has_slug s) (new_tenant id slug name) db.tenants apart,
  )

module _ ⦃env : Env⦄ (opts : Options) (w : World) where
  abbrev wanted : Tenant
  wanted = new_tenant (env.fresh_uuid w.calls) opts.target_tenant_slug (tenant_name opts)

  abbrev after_tenant : Result Uuid × World
  after_tenant = Migration.ensure_tenant opts w

  answered : (u : Uuid) → after_tenant.0 ≡ ok u → upserted_id wanted w.db ≡ some u
  unfolding Migration.ensure_tenant effects
  answered u h = ground arith

  slugs_kept :
      (s : String)
      → str_eq opts.target_tenant_slug s ≡ false
      → find (has_slug s) after_tenant.1.db.tenants ≡ find (has_slug s) w.db.tenants
  unfolding Migration.ensure_tenant effects
  slugs_kept s apart = ground (
    arith,
    slugs-with_upserted opts.target_tenant_slug s apart (env.fresh_uuid w.calls) (tenant_name opts)
        w.db,
  )

  module _ (t : Uuid) (other : upserted_id wanted w.db ≢ some t) (rest : Uuid → M (Unit {0}))
      (keeps : (u : Uuid) → t ≢ u → Keeps (SameRows t) (rest u)) where
    -- What follows keeps all rows of t and the table of tenants.
    continued :
        (r : Result Uuid) (v : World)
        → ((u : Uuid) → r ≡ ok u → upserted_id wanted w.db ≡ some u)
        → SameRows t v.db (continue rest r v).1.db
    unfolding effects
    continued (ok u) v h = (keeps u (λ p. other (h u refl ∙ ap some (sym p)))).keeps v
    continued (err e) v h = (SameRows-IsOrder t).same v.db
    continued panic v h = (SameRows-IsOrder t).same v.db

  -- For every environment (so also when calls fail), Kratos database, configuration and options,
  -- every tenant t that the statement on the slug does not answer, and every other slug s: the
  -- flows, identities, credentials, sessions, schemas, SSO providers and the policy of t are the
  -- same after a migration as before it, and the tenant under s is found as before.
  pub migrate-Spares :
      (ext : External) (src : Sources) (kratos : KratosTables) (nid : Uuid) (cfg : KratosConfig)
      (t : Uuid) (s : String)
      → upserted_id wanted w.db ≢ some t
      → str_eq opts.target_tenant_slug s ≡ false
      → Spares t w.db (Migration.migrate ext src kratos nid opts cfg w).1.db
        × (find (has_slug s) (Migration.migrate ext src kratos nid opts cfg w).1.db.tenants
            ≡ find (has_slug s) w.db.tenants)
  unfolding Migration.migrate effects
  migrate-Spares ext src kratos nid cfg t s other apart =
      let rest = λ (u : Uuid). Migration.migrate_into ext src kratos nid opts cfg u in
      let after =
        continued t other rest
          (λ u foreign.
            migrate_into-keeps (SameRows-IsOrder t) (SameRows-HasWrites foreign) ext src kratos nid
              opts cfg)
          after_tenant.0 after_tenant.1 answered in
      (
        (Spares-IsOrder t).then_ {c = (Migration.migrate ext src kratos nid opts cfg w).1.db}
            ((ensure_tenant-keeps t opts).keeps w) (SameRows-Spares t after),
        ap (find (has_slug s)) after.tenants ∙ slugs_kept s apart,
      )
