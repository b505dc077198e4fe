-- ===== src/Migration/ActiveSchema.antt =====
-- The schema that a migration leaves active.
use enterprise_kratos.Base.{
  String, str_eq, false, subst, sym, suc, ap, ◌∙◌, Uuid, Json, some, none, List, [], ◌∷◌, ◌++◌,
  ◌==◌, ◌&&◌, ◌≡◌, refl, arith, select, update, any,
}
use enterprise_kratos.Errors.{db_failure}
use enterprise_kratos.Identity.{Schema}
use enterprise_kratos.Store.{Tables, Env, World, ok, err, effects}
use enterprise_kratos.Store.Calm.{IsCalm, >>=-of}
use enterprise_kratos.Store.Schemas.{is_active_of, deactivated, new_schema, newest_active}
use enterprise_kratos.External.{External}
use enterprise_kratos.Migration
use enterprise_kratos.Migration.{schema_url}
use enterprise_kratos.Migration.Config.{KratosConfig}
use enterprise_kratos.Migration.Kratos.{Sources, fetch_schema}

-- The active schemas of a tenant.
abbrev pub active_of : Uuid → Tables → List Schema
active_of tenant db = select (is_active_of tenant) db.schemas

module _ (tenant : Uuid) where
  none_left :
      (rows : List Schema)
      → select (is_active_of tenant) (update (is_active_of tenant) deactivated rows) ≡ []
  none_left [] = refl
  none_left (s ∷ rows) = ground (arith, none_left rows)

  one_added :
      (id : Uuid) (j : Json) (rows : List Schema)
      → select
          (is_active_of tenant)
          (update (is_active_of tenant) deactivated rows ++ new_schema id tenant j ∷ [])
        ≡ new_schema id tenant j ∷ []
  one_added id j [] = ground arith
  one_added id j (s ∷ rows) = ground (arith, one_added id j rows)

  none_answered :
      (rows : List Schema)
      → newest_active tenant (update (is_active_of tenant) deactivated rows) ≡ none
  none_answered [] = refl
  none_answered (s ∷ rows) = ground (arith, none_answered rows)

  one_answered :
      (id : Uuid) (j : Json) (rows : List Schema)
      → newest_active tenant
          (update (is_active_of tenant) deactivated rows ++ new_schema id tenant j ∷ [])
        ≡ some (new_schema id tenant j)
  one_answered id j [] = ground arith
  one_answered id j (s ∷ rows) = ground (arith, one_answered id j rows)

  -- The key of a row does not depend on whether it is active.
  keys_kept :
      (id : Uuid) (j : Json) (rows : List Schema)
      → any
          (λ t. t.tenant_id == tenant && t.id == id)
          (update (is_active_of tenant) deactivated rows)
        ≡ any (λ t. t.tenant_id == tenant && t.id == id) rows
  keys_kept id j [] = refl
  keys_kept id j (s ∷ rows) = ground (arith, keys_kept id j rows)

module _ ⦃env : Env⦄ (tenant : Uuid) where
  replace_schema-broken :
      (w : World)
      → IsCalm env
      → ((Migration.replace_schema tenant none w).0 ≡ err db_failure)
        × (active_of tenant (Migration.replace_schema tenant none w).1.db ≡ [])
        × (newest_active tenant (Migration.replace_schema tenant none w).1.db.schemas ≡ none)
  unfolding Migration.replace_schema Migration.insert_schema effects
  replace_schema-broken w calm = ground (
    arith,
    calm w.calls,
    calm (suc w.calls),
    none_left tenant w.db.schemas,
    none_answered tenant w.db.schemas,
  )

module _ ⦃env : Env⦄ (tenant : Uuid) (w : World) where
  -- In every environment, a migration of a JSON schema that answers an ID leaves one active schema
  -- of the tenant, the new one, of version 1 and with that ID, whatever schemas were active before.
  pub replace_schema-active :
      (j : Json) (id : Uuid)
      → (Migration.replace_schema tenant (some j) w).0 ≡ ok id
      → (active_of tenant (Migration.replace_schema tenant (some j) w).1.db
          ≡ new_schema id tenant j ∷ [])
        × (newest_active tenant (Migration.replace_schema tenant (some j) w).1.db.schemas
            ≡ some (new_schema id tenant j))
  unfolding Migration.replace_schema Migration.insert_schema effects
  replace_schema-active j id h =
      ground (arith, one_added tenant id j w.db.schemas, one_answered tenant id j w.db.schemas)

  schema_json-broken :
      (ext : External) (src : Sources) (url text : String)
      → str_eq url "" ≡ false
      → (fetch_schema src url w).0 ≡ ok text
      → ext.parse_json text ≡ none
      → Migration.schema_json tenant ext src url w ≡ (ok none, (fetch_schema src url w).1)
  unfolding Migration.schema_json effects
  schema_json-broken ext src url text given fetched broken = ground arith

  -- Where the database does not fail, the Kratos configuration names a URL for its default schema,
  -- and what is fetched from there is no JSON text: the migration of the schema ends with a failure
  -- of the database, and by then it has deactivated the schemas that the tenant had, so none is
  -- active.
  pub migrate_schema-broken :
      (ext : External) (src : Sources) (cfg : KratosConfig) (url text : String)
      → IsCalm env
      → schema_url cfg.identity.default_schema_id cfg.identity.schemas ≡ url
      → str_eq url "" ≡ false
      → (fetch_schema src url w).0 ≡ ok text
      → ext.parse_json text ≡ none
      → ((Migration.migrate_schema tenant ext src cfg w).0 ≡ err db_failure)
        × (active_of tenant (Migration.migrate_schema tenant ext src cfg w).1.db ≡ [])
        × (newest_active tenant (Migration.migrate_schema tenant ext src cfg w).1.db.schemas ≡ none)
  unfolding Migration.migrate_schema
  migrate_schema-broken ext src cfg url text calm names given fetched broken =
      let named = schema_url cfg.identity.default_schema_id cfg.identity.schemas in
      subst
        (λ x.
          (x.0 ≡ err db_failure)
          × (active_of tenant x.1.db ≡ [])
          × (newest_active tenant x.1.db.schemas ≡ none))
        (sym (
          >>=-of (Migration.schema_json tenant ext src named) (Migration.replace_schema tenant) (
            schema_json-broken ext src named text (ap (λ u. str_eq u "") names ∙ given)
              (ap (λ u. (fetch_schema src u w).0) names ∙ fetched) broken)))
        (replace_schema-broken tenant (fetch_schema src named w).1 calm)
