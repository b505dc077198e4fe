-- ===== src/Migration/Keeping.antt =====
-- The migration into a tenant writes only what the stores write for that tenant.
use enterprise_kratos.Base.{
  ℕ, suc, String, Option, none, some, List, [], ◌∷◌, Uuid, Json, ◌⊎◌, inl, inr,
}
use enterprise_kratos.Errors.{Error}
use enterprise_kratos.Identity.{Identity}
use enterprise_kratos.External.{External}
use enterprise_kratos.Sso.{Provider}
use enterprise_kratos.Store.{Tables, Env}
use enterprise_kratos.Store.Frame.{
  IsOrder, Keeps, Keeps-done, Keeps-fail, Keeps-run, Keeps-found_or, Keeps->>=, Keeps->>,
  Keeps-ignore, keeping,
}
use enterprise_kratos.Store.Identities.{new_credential, with_credential}
use enterprise_kratos.Store.Writes.{HasWrites}
use enterprise_kratos.Store.Keeping.{stores}
use enterprise_kratos.Store.Providers.Keeping as ProvidersKeeping
use enterprise_kratos.Migration
use enterprise_kratos.Migration.{Options}
use enterprise_kratos.Migration.Config.{KratosConfig, OidcProvider}
use enterprise_kratos.Migration.Kratos
use enterprise_kratos.Migration.Kratos.{
  KratosTables, Sources, KratosIdentity, KratosCredential, KratosSession,
}
use enterprise_kratos.Migration.Accounts
use enterprise_kratos.Migration.Accounts.{ProviderMap, IdentityMap, OidcEntry}

module _ {S : Tables → Tables → Type 0} (o : IsOrder S) where
  pub read_or-keeps {ℓ} : {A : Type ℓ} (e : Error) (f : ℕ → Option A) → Keeps S (Kratos.read_or e f)
  unfolding Kratos.read_or
  read_or-keeps e f = record {
    keeps = λ w. (Keeps-found_or o e (f w.calls)).keeps (record w { calls = suc w.calls });
  }

  fetch_remote-keeps : (src : Sources) (url : String) → Keeps S (Kratos.fetch_remote src url)
  unfolding Kratos.fetch_remote
  fetch_remote-keeps src url = search (keeping, o, read_or-keeps)

  fetch_encoded-keeps :
      (src : Sources) (url : String) (t : Option String) → Keeps S (Kratos.fetch_encoded src url t)
  unfolding Kratos.fetch_encoded
  fetch_encoded-keeps src url (some t) = Keeps-found_or o _ _
  fetch_encoded-keeps src url none = fetch_remote-keeps src url

  fetch_file-keeps :
      (src : Sources) (url : String) (t : Option String) → Keeps S (Kratos.fetch_file src url t)
  unfolding Kratos.fetch_file
  fetch_file-keeps src url (some t) = read_or-keeps _ _
  fetch_file-keeps src url none = fetch_encoded-keeps src url _

  pub fetch_schema-keeps : (src : Sources) (url : String) → Keeps S (Kratos.fetch_schema src url)
  unfolding Kratos.fetch_schema
  fetch_schema-keeps src url = fetch_file-keeps src url _

-- The credentials of one identity.
module _ ⦃env : Env⦄ {S : Tables → Tables → Type 0} {tenant identity : Uuid} (o : IsOrder S)
    (inserts : (id : Uuid) (kind : String) (identifiers : List String) (config : Json) (db : Tables)
      → S db (with_credential (new_credential id tenant identity kind identifiers config) db)) where
  insert_credential-keeps :
      (kind : String) (identifiers : List String) (config : Json)
      → Keeps S (Accounts.insert_credential tenant identity kind identifiers config)
  unfolding Accounts.insert_credential
  insert_credential-keeps kind identifiers config = search (keeping, o, Keeps-run, inserts) depth 14

  require_hash-keeps : (hash : Option String) → Keeps S (Accounts.require_hash hash)
  unfolding Accounts.require_hash
  require_hash-keeps none = Keeps-fail o _
  require_hash-keeps (some hash) = search (keeping, o)

  migrate_password_cred-keeps :
      (kc : KratosCredential) → Keeps S (Accounts.migrate_password_cred tenant identity kc)
  unfolding Accounts.migrate_password_cred
  migrate_password_cred-keeps kc = search (keeping, o, require_hash-keeps, insert_credential-keeps)

  module _ (ext : External) where
    migrate_entry-keeps :
        (e : OidcEntry) (p : Option Uuid) → Keeps S (Accounts.migrate_entry tenant ext identity e p)
    unfolding Accounts.migrate_entry
    migrate_entry-keeps e none = Keeps-done o tt
    migrate_entry-keeps e (some p) = insert_credential-keeps _ _ _

    migrate_entries-keeps :
        (m : ProviderMap) (es : List OidcEntry)
        → Keeps S (Accounts.migrate_entries tenant ext identity m es)
    unfolding Accounts.migrate_entries
    migrate_entries-keeps m [] = Keeps-done o tt
    migrate_entries-keeps m (e ∷ es) =
        Keeps->> o (migrate_entry-keeps e _) (migrate_entries-keeps m es)

    migrate_oidc_cred-keeps :
        (m : ProviderMap) (kc : KratosCredential)
        → Keeps S (Accounts.migrate_oidc_cred tenant ext identity m kc)
    unfolding Accounts.migrate_oidc_cred
    migrate_oidc_cred-keeps m kc = search (keeping, o, migrate_entries-keeps)

    migrate_credential-keeps :
        (m : ProviderMap) (kc : KratosCredential)
        → Keeps S (Accounts.migrate_credential tenant ext identity m kc)
    unfolding Accounts.migrate_credential
    migrate_credential-keeps m kc =
        search (keeping, o, migrate_password_cred-keeps, migrate_oidc_cred-keeps)

    pub migrate_credentials-keeps :
        (m : ProviderMap) (kcs : List KratosCredential)
        → Keeps S (Accounts.migrate_credentials tenant ext identity m kcs)
    unfolding Accounts.migrate_credentials
    migrate_credentials-keeps m [] = Keeps-done o tt
    migrate_credentials-keeps m (kc ∷ kcs) =
        Keeps->> o (Keeps-ignore o (migrate_credential-keeps m kc))
          (migrate_credentials-keeps m kcs)

module _ ⦃env : Env⦄ {S : Tables → Tables → Type 0} {tenant : Uuid} (o : IsOrder S)
    (h : HasWrites S tenant) where
  module _ (ext : External) where
    module _ (schema : Uuid) (providers : ProviderMap) (kcs : List KratosCredential) where
      noted-keeps :
          (ki : KratosIdentity) (m : IdentityMap) (r : Error ⊎ Identity)
          → Keeps S (Accounts.noted tenant ext schema providers kcs ki m r)
      unfolding Accounts.noted
      noted-keeps ki m (inl e) = Keeps-done o m
      noted-keeps ki m (inr i) =
          Keeps->>= o
            (migrate_credentials-keeps o (λ id. h.insert_credential id i.id) ext providers _)
            (λ _. Keeps-done o _)

      migrate_identity-keeps :
          (ki : KratosIdentity) (m : IdentityMap)
          → Keeps S (Accounts.migrate_identity tenant ext schema providers kcs ki m)
      unfolding Accounts.migrate_identity
      migrate_identity-keeps ki m = search (keeping, o, stores, noted-keeps)

      migrate_all-keeps :
          (kis : List KratosIdentity) (m : IdentityMap)
          → Keeps S (Accounts.migrate_all tenant ext schema providers kcs kis m)
      unfolding Accounts.migrate_all
      migrate_all-keeps [] m = Keeps-done o m
      migrate_all-keeps (ki ∷ kis) m =
          Keeps->>= o (migrate_identity-keeps ki m) (λ m'. migrate_all-keeps kis m')

    migrate_identities-keeps :
        (kratos : KratosTables) (nid schema : Uuid) (providers : ProviderMap)
        → Keeps S (Accounts.migrate_identities tenant ext kratos nid schema providers)
    unfolding Accounts.migrate_identities Kratos.identities Kratos.credentials
    migrate_identities-keeps kratos nid schema providers = search (keeping, o, migrate_all-keeps)

  insert_session-keeps :
      (identity : Uuid) (ks : KratosSession) → Keeps S (Accounts.insert_session tenant identity ks)
  unfolding Accounts.insert_session
  insert_session-keeps identity ks =
      search
        (
          keeping,
          o,
          Keeps-run,
          λ (id : Uuid).
              h.insert_session id identity ks.token ks.expires_at (Accounts.aal_of ks.aal) [],
        )
        depth 14

  counted-keeps : (n : ℕ) (r : Error ⊎ Unit {0}) → Keeps S (Accounts.counted n r)
  unfolding Accounts.counted
  counted-keeps n (inl e) = Keeps-done o n
  counted-keeps n (inr _) = Keeps-done o _

  migrate_session-keeps :
      (ks : KratosSession) (n : ℕ) (identity : Option Uuid)
      → Keeps S (Accounts.migrate_session tenant ks n identity)
  unfolding Accounts.migrate_session
  migrate_session-keeps ks n none = Keeps-done o n
  migrate_session-keeps ks n (some identity) =
      search (keeping, o, insert_session-keeps, counted-keeps)

  migrate_each_session-keeps :
      (m : IdentityMap) (kss : List KratosSession) (n : ℕ)
      → Keeps S (Accounts.migrate_each_session tenant m kss n)
  unfolding Accounts.migrate_each_session
  migrate_each_session-keeps m [] n = Keeps-done o n
  migrate_each_session-keeps m (ks ∷ kss) n =
      Keeps->>= o (migrate_session-keeps ks n _) (λ k. migrate_each_session-keeps m kss k)

  migrate_sessions-keeps :
      (kratos : KratosTables) (nid : Uuid) (m : IdentityMap)
      → Keeps S (Accounts.migrate_sessions tenant kratos nid m)
  unfolding Accounts.migrate_sessions Kratos.active_sessions
  migrate_sessions-keeps kratos nid m = search (keeping, o, migrate_each_session-keeps) depth 12

  insert_schema-keeps : (schema : Option Json) → Keeps S (Migration.insert_schema tenant schema)
  unfolding Migration.insert_schema
  insert_schema-keeps none = search (keeping, o)
  insert_schema-keeps (some schema) =
      search (keeping, o, Keeps-run, λ (id : Uuid). h.insert_schema id schema) depth 14

  replace_schema-keeps : (schema : Option Json) → Keeps S (Migration.replace_schema tenant schema)
  unfolding Migration.replace_schema
  replace_schema-keeps schema =
      Keeps->> o (Keeps-run o _ _ h.deactivate_schemas) (insert_schema-keeps schema)

  migrate_schema-keeps :
      (ext : External) (src : Sources) (cfg : KratosConfig)
      → Keeps S (Migration.migrate_schema tenant ext src cfg)
  unfolding Migration.migrate_schema Migration.schema_json
  migrate_schema-keeps ext src cfg =
      search (keeping, o, fetch_schema-keeps, replace_schema-keeps) depth 12

  existing_or_created-keeps :
      (p : OidcProvider) (q : Option Provider) → Keeps S (Migration.existing_or_created tenant p q)
  unfolding Migration.existing_or_created
  existing_or_created-keeps p (some q) = Keeps-done o q.id
  existing_or_created-keeps p none =
      Keeps->>= o (ProvidersKeeping.create-keeps o h _ _ _) (λ q. Keeps-done o q.id)

  migrate_provider-keeps : (p : OidcProvider) → Keeps S (Migration.migrate_provider tenant p)
  unfolding Migration.migrate_provider
  migrate_provider-keeps p = search (keeping, o, existing_or_created-keeps)

  migrate_providers-keeps :
      (ps : List OidcProvider) (m : ProviderMap) → Keeps S (Migration.migrate_providers tenant ps m)
  unfolding Migration.migrate_providers
  migrate_providers-keeps [] m = Keeps-done o m
  migrate_providers-keeps (p ∷ ps) m =
      Keeps->>= o (migrate_provider-keeps p) (λ id. migrate_providers-keeps ps _)

  pub migrate_into-keeps :
      (ext : External) (src : Sources) (kratos : KratosTables) (nid : Uuid) (opts : Options)
      (cfg : KratosConfig)
      → Keeps S (Migration.migrate_into ext src kratos nid opts cfg tenant)
  unfolding Migration.migrate_into Migration.migrate_policy Migration.migrate_sso
  migrate_into-keeps ext src kratos nid opts cfg =
      search
        (
          keeping, o, stores, migrate_schema-keeps, migrate_providers-keeps,
          migrate_identities-keeps, migrate_sessions-keeps,
        )
        depth 20
