-- ===== src/Migration/Mapping.antt =====
-- The SSO providers that a migration leaves.
use enterprise_kratos.Base.{
  suc, Uuid, true, Option, some, none, List, ◌≡◌, refl, ap, ◌∙◌, arith, find, find-insert, eq_refl,
}
use enterprise_kratos.Sso.{Provider}
use enterprise_kratos.Store.{Env, World, ok, effects}
use enterprise_kratos.Store.Calm.{IsCalm, after_call}
use enterprise_kratos.Store.Providers
use enterprise_kratos.Migration
use enterprise_kratos.Migration.{is_named, provider_config}
use enterprise_kratos.Migration.Config.{OidcProvider}

module _ ⦃env : Env⦄ (tenant : Uuid) where
  abbrev fresh : OidcProvider → World → Provider
  fresh p w =
      Providers.new_provider (env.fresh_uuid (suc w.calls)) tenant "oidc" p.provider
        (provider_config p)

  named_itself : (p : OidcProvider) (w : World) → is_named tenant p.provider (fresh p w) ≡ true
  named_itself p w = ground (arith, eq_refl p.provider)

  -- A migrated provider is found by its name under the ID that was answered.
  module _ (p : OidcProvider) (w : World) (id : Uuid)
      (h : (Migration.migrate_provider tenant p w).0 ≡ ok id) where
    abbrev rows_after : List Provider
    rows_after = (Migration.migrate_provider tenant p w).1.db.providers

    stays :
        (q : Provider)
        → find (is_named tenant p.provider) w.db.providers ≡ some q
        → (find (is_named tenant p.provider) rows_after ≡ some q) × (q.id ≡ id)
    unfolding Migration.migrate_provider Migration.existing_or_created effects
    stays q e = ground arith

    appears :
        find (is_named tenant p.provider) w.db.providers ≡ none
        → (find (is_named tenant p.provider) rows_after ≡ some (fresh p w)) × ((fresh p w).id ≡ id)
    unfolding Migration.migrate_provider Migration.existing_or_created Providers.create effects
    appears e = ground (
      arith,
      find-insert (is_named tenant p.provider) (fresh p w) w.db.providers e (named_itself p w),
    )

    named :
        (r : Option Provider)
        → find (is_named tenant p.provider) w.db.providers ≡ r
        → (row : Provider) × (find (is_named tenant p.provider) rows_after ≡ some row)
          × (row.id ≡ id)
    named (some q) e = (q, (stays q e).0, (stays q e).1)
    named none e = (fresh p w, (appears e).0, (appears e).1)

  found_again :
      (q : OidcProvider) (row : Provider) (w : World)
      → IsCalm env
      → find (is_named tenant q.provider) w.db.providers ≡ some row
      → Migration.migrate_provider tenant q w ≡ (ok row.id, after_call w.db w)
  unfolding Migration.migrate_provider Migration.existing_or_created effects
  found_again q row w calm e = ground (arith, calm w.calls)

  -- Where a Kratos provider p was migrated with the answer id, and the database does not fail from
  -- then on: the migration of every Kratos provider q with the same `provider` answers id again and
  -- writes nothing. With q = p this is a second run. With two entries of one configuration, as of
  -- two generic providers, q is never written, and its accounts are taken for accounts of p.
  pub migrate_provider-again :
      (p q : OidcProvider) (w later : World) (id : Uuid)
      → IsCalm env
      → (Migration.migrate_provider tenant p w).0 ≡ ok id
      → later.db.providers ≡ (Migration.migrate_provider tenant p w).1.db.providers
      → q.provider ≡ p.provider
      → ((Migration.migrate_provider tenant q later).0 ≡ ok id)
        × ((Migration.migrate_provider tenant q later).1.db ≡ later.db)
  migrate_provider-again p q w later id calm h same alike =
      let (row, stands, same_id) =
        named p w id h (find (is_named tenant p.provider) w.db.providers) refl in
      let again = found_again q row later calm (
        ap (λ name. find (is_named tenant name) later.db.providers) alike
        ∙ ap (find (is_named tenant p.provider)) same
        ∙ stands) in
      (ap (λ x. x.0) again ∙ ap ok same_id, ap (λ x. x.1.db) again)
