-- ===== src/Migration/Owners.antt =====
-- Whose the migrated credentials are. The schema has no foreign key from a credential to its
-- identity.
use enterprise_kratos.Base.{
  Uuid, String, Bool, true, List, [], ◌∷◌, ◌++◌, inr, Json, ◌≡◌, refl, ap, ◌∙◌, arith, ◌&&◌, ◌==◌,
  any, if◌then◌else◌,
}
use enterprise_kratos.External.{External}
use enterprise_kratos.Identity.{Identity, Credential}
use enterprise_kratos.Store.{
  Tables, Env, World, Result, ok, err, panic, attempted, continue, effects,
}
use enterprise_kratos.Store.Frame.{IsOrder, Keeps, Keeps-done, Keeps-run, Keeps->>=, keeping}
use enterprise_kratos.Store.Identities
use enterprise_kratos.Store.Identities.{
  is_identity, with_identity, with_credential, new_identity, new_credential,
}
use enterprise_kratos.Store.Outcome.{create_identity-eq-ok}
use enterprise_kratos.Migration.Kratos
use enterprise_kratos.Migration.Kratos.{KratosTables, KratosIdentity, KratosCredential}
use enterprise_kratos.Migration.Accounts
use enterprise_kratos.Migration.Accounts.{ProviderMap, IdentityMap}
use enterprise_kratos.Migration.Keeping.{migrate_credentials-keeps}

module _ (tenant : Uuid) where
  -- A credential of the tenant that belongs to one of these identities, or one of another tenant.
  abbrev is_owned : List Identity → Credential → Bool
  is_owned is c = if c.tenant_id == tenant then any (is_identity tenant c.identity_id) is else true

  abbrev all_owned : List Identity → List Credential → Bool
  all_owned is [] = true
  all_owned is (c ∷ cs) = is_owned is c && all_owned is cs

  -- Every credential of the tenant belongs to an identity of the tenant.
  abbrev pub IsOwned : Tables → Type 0
  IsOwned db = all_owned db.identities db.credentials ≡ true

  abbrev OwnedLater : Tables → Tables → Type 0
  OwnedLater a b = IsOwned a → IsOwned b

  -- An identity stays, and no credential loses its identity.
  abbrev Kept : Uuid → Tables → Tables → Type 0
  Kept id a b =
      (any (is_identity tenant id) a.identities ≡ true) × IsOwned a
      → (any (is_identity tenant id) b.identities ≡ true) × IsOwned b

  OwnedLater-IsOrder : IsOrder OwnedLater
  OwnedLater-IsOrder = record { same = λ db x. x; then_ = λ p q x. q (p x) }

  Kept-IsOrder : (id : Uuid) → IsOrder (Kept id)
  Kept-IsOrder id = record { same = λ db x. x; then_ = λ p q x. q (p x) }

  any-grow :
      (id : Uuid) (is : List Identity) (i : Identity)
      → any (is_identity tenant id) is ≡ true
      → any (is_identity tenant id) (is ++ i ∷ []) ≡ true
  any-grow id [] i h = ground arith
  any-grow id (j ∷ is) i h = ground (arith, any-grow id is i)

  any-last :
      (is : List Identity) (i : Identity)
      → i.tenant_id ≡ tenant
      → any (is_identity tenant i.id) (is ++ i ∷ []) ≡ true
  any-last [] i h = ground arith
  any-last (j ∷ is) i h = ground (arith, any-last is i h)

  owned-grow :
      (is : List Identity) (i : Identity) (cs : List Credential)
      → all_owned is cs ≡ true
      → all_owned (is ++ i ∷ []) cs ≡ true
  owned-grow is i [] h = refl
  owned-grow is i (c ∷ cs) h = ground (arith, any-grow c.identity_id is i, owned-grow is i cs)

  owned-add :
      (is : List Identity) (c : Credential) (cs : List Credential)
      → any (is_identity tenant c.identity_id) is ≡ true
      → all_owned is cs ≡ true
      → all_owned is (cs ++ c ∷ []) ≡ true
  owned-add is c [] own h = ground arith
  owned-add is c (d ∷ cs) own h = ground (arith, owned-add is c cs own)

  insert_credential-Kept :
      (identity id : Uuid) (kind : String) (identifiers : List String) (config : Json) (db : Tables)
      → Kept identity db
          (with_credential (new_credential id tenant identity kind identifiers config) db)
  insert_credential-Kept identity id kind identifiers config db (own, h) = (
    ground arith,
    ground (
      arith,
      owned-add db.identities (new_credential id tenant identity kind identifiers config)
          db.credentials own h,
    ),
  )

  insert_identity-OwnedLater : (i : Identity) (db : Tables) → OwnedLater db (with_identity i db)
  insert_identity-OwnedLater i db h = ground (arith, owned-grow db.identities i db.credentials h)

  module _ ⦃env : Env⦄ (ext : External) (schema : Uuid) (providers : ProviderMap)
      (kcs : List KratosCredential) where
    noted-Kept :
        (ki : KratosIdentity) (m : IdentityMap) (i : Identity)
        → Keeps (Kept i.id) (Accounts.noted tenant ext schema providers kcs ki m (inr i))
    unfolding Accounts.noted
    noted-Kept ki m i =
        Keeps->>= (Kept-IsOrder i.id)
          (migrate_credentials-keeps (Kept-IsOrder i.id) (insert_credential-Kept i.id) ext providers
            _)
          (λ _. Keeps-done (Kept-IsOrder i.id) _)

    create_identity-OwnedLater :
        (traits : Json) (state : String)
        → Keeps OwnedLater (Identities.create_identity tenant schema traits state)
    unfolding Identities.create_identity
    create_identity-OwnedLater traits state =
        search
          (
            keeping,
            OwnedLater-IsOrder,
            Keeps-run,
            λ (id : Uuid). insert_identity-OwnedLater (new_identity id tenant schema traits state),
          )
          depth 14

    -- The identity that was created is there.
    created :
        (traits : Json) (state : String) (w : World) (i : Identity)
        → (Identities.create_identity tenant schema traits state w).0 ≡ ok i
        → any
            (is_identity tenant i.id)
            (Identities.create_identity tenant schema traits state w).1.db.identities
          ≡ true
    created traits state w i h =
        let (shape, tables) = create_identity-eq-ok tenant schema traits state w h in
        ap (λ db. any (is_identity tenant i.id) db.identities) tables
        ∙ any-last w.db.identities i (ap (λ x. x.tenant_id) shape)

    continue-IsOwned :
        (ki : KratosIdentity) (m : IdentityMap) (x : Result Identity) (v : World)
        → ((i : Identity) → x ≡ ok i → any (is_identity tenant i.id) v.db.identities ≡ true)
        → IsOwned v.db
        → IsOwned
            (continue (Accounts.noted tenant ext schema providers kcs ki m) (attempted x) v).1.db
    unfolding Accounts.noted effects
    continue-IsOwned ki m (ok i) v own h = ((noted-Kept ki m i).keeps v (own i refl, h)).1
    continue-IsOwned ki m (err e) v own h = h
    continue-IsOwned ki m panic v own h = h

    migrate_identity-OwnedLater :
        (ki : KratosIdentity) (m : IdentityMap)
        → Keeps OwnedLater (Accounts.migrate_identity tenant ext schema providers kcs ki m)
    unfolding Accounts.migrate_identity effects
    migrate_identity-OwnedLater ki m = record {
      keeps = λ w h.
          continue-IsOwned ki m _ _ (created ki.traits (Accounts.idp_state ki.state) w)
            ((create_identity-OwnedLater ki.traits (Accounts.idp_state ki.state)).keeps w h);
    }

    migrate_all-OwnedLater :
        (kis : List KratosIdentity) (m : IdentityMap)
        → Keeps OwnedLater (Accounts.migrate_all tenant ext schema providers kcs kis m)
    unfolding Accounts.migrate_all
    migrate_all-OwnedLater [] m = Keeps-done OwnedLater-IsOrder m
    migrate_all-OwnedLater (ki ∷ kis) m =
        Keeps->>= OwnedLater-IsOrder (migrate_identity-OwnedLater ki m)
          (λ m'. migrate_all-OwnedLater kis m')

  migrate_identities-OwnedLater :
      ⦃env : Env⦄ (ext : External) (kratos : KratosTables) (nid schema : Uuid)
      (providers : ProviderMap)
      → Keeps OwnedLater (Accounts.migrate_identities tenant ext kratos nid schema providers)
  unfolding Accounts.migrate_identities Kratos.identities Kratos.credentials
  migrate_identities-OwnedLater ext kratos nid schema providers =
      search (keeping, OwnedLater-IsOrder, migrate_all-OwnedLater)

-- Whatever identities and credentials Kratos has and whatever calls fail: where every credential of
-- the tenant belonged to an identity of the tenant, the same is true after the migration of the
-- identities with their credentials. The database does not enforce it.
pub migrate_identities-IsOwned :
    ⦃env : Env⦄ (tenant : Uuid) (ext : External) (kratos : KratosTables) (nid schema : Uuid)
    (providers : ProviderMap) (w : World)
    → IsOwned tenant w.db
    → IsOwned tenant (Accounts.migrate_identities tenant ext kratos nid schema providers w).1.db
migrate_identities-IsOwned tenant ext kratos nid schema providers w h =
    (migrate_identities-OwnedLater tenant ext kratos nid schema providers).keeps w h
