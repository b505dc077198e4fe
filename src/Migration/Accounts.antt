-- ===== src/Migration/Accounts.antt =====
-- internal/migration/run.go, steps 5 and 6: identities, credentials and sessions. Member names of
-- the JSON configs are compared as they are written.
use enterprise_kratos.Base.{
  ℕ, ◌+◌, String, ◌&&◌, not, ◌⊎◌, inl, inr, Option, none, some, List, [], ◌∷◌, Uuid, Json, null,
  str, arr, obj, Items, nil, cons, Members, end, member, ◌==◌, str_eq, if◌then◌else◌, select,
  is_empty,
}
use enterprise_kratos.Errors.{Error, no_identifiers, no_hashed_password, invalid_oidc_config}
use enterprise_kratos.Identity.{Identity, state_pending_verification}
use enterprise_kratos.Sso.{text_value, member_or_null}
use enterprise_kratos.External.{External}
use enterprise_kratos.Store.{
  Env, M, done, fail, attempt, ignore, found_or, run, next_uuid, ◌>>=◌, ◌>>◌,
}
use enterprise_kratos.Store.Identities.{create_identity, new_credential, with_credential}
use enterprise_kratos.Store.Sessions.{new_session, with_session}
use enterprise_kratos.Authenticator.Password.{decode_config as decode_hash}
use enterprise_kratos.Oidc.{cred_identifier}
use enterprise_kratos.Migration.Kratos.{
  KratosTables, KratosIdentity, KratosCredential, KratosSession, identities, credentials,
  active_sessions,
}

-- From the provider IDs of Kratos, and from its identities.
abbrev pub ProviderMap : Type 0
ProviderMap = List (String × Uuid)

abbrev pub IdentityMap : Type 0
IdentityMap = List (Uuid × Uuid)

abbrev pub provider_of : String → ProviderMap → Option Uuid
provider_of k [] = none
provider_of k ((j, v) ∷ m) = if str_eq j k then some v else provider_of k m

abbrev pub identity_of : Uuid → IdentityMap → Option Uuid
identity_of k [] = none
identity_of k ((j, v) ∷ m) = if j == k then some v else identity_of k m

abbrev pub put_identity : Uuid → Uuid → IdentityMap → IdentityMap
put_identity k v [] = (k, v) ∷ []
put_identity k v ((j, w) ∷ m) = if j == k then (k, v) ∷ m else (j, w) ∷ put_identity k v m

-- A state that is not known counts as active.
abbrev known_state : String → String
known_state s = if not (str_eq s "active") && not (str_eq s "inactive") then "active" else s

abbrev pub idp_state : String → String
idp_state s =
    if str_eq (known_state s) "inactive" then state_pending_verification else known_state s

pub record OidcEntry : Type 0 where
  pub subject : String
  pub provider : String

abbrev entry_of : Option String → Option String → Option String → Option OidcEntry
entry_of (some subject) (some provider) (some email) =
    some (record { subject = subject; provider = provider })
entry_of _ _ _ = none

abbrev members_entry : Members → Option OidcEntry
members_entry ms =
    entry_of (text_value (member_or_null "subject" ms)) (text_value (member_or_null "provider" ms))
      (text_value (member_or_null "initial_id_token" ms))

abbrev decode_entry : Json → Option OidcEntry
decode_entry null = members_entry end
decode_entry (obj ms) = members_entry ms
decode_entry _ = none

abbrev prepended : Option OidcEntry → Option (List OidcEntry) → Option (List OidcEntry)
prepended (some e) (some es) = some (e ∷ es)
prepended _ _ = none

abbrev decode_items : Items → Option (List OidcEntry)
decode_items nil = some []
decode_items (cons j js) = prepended (decode_entry j) (decode_items js)

abbrev entries_value : Json → Option (List OidcEntry)
entries_value null = some []
entries_value (arr js) = decode_items js
entries_value _ = none

-- `json.Unmarshal` into `kratosOIDC`.
abbrev pub decode_entries : Json → Option (List OidcEntry)
decode_entries null = some []
decode_entries (obj ms) = entries_value (member_or_null "providers" ms)
decode_entries _ = none

unfoldable pub require_hash : Option String → M (Unit {0})
require_hash none = fail no_hashed_password
require_hash (some hash) = if str_eq hash "" then fail no_hashed_password else done tt

abbrev pub aal_of : String → String
aal_of aal = if str_eq aal "" then "aal1" else aal

unfoldable pub counted : ℕ → Error ⊎ Unit {0} → M ℕ
counted n (inl e) = done n
counted n (inr _) = done (n + 1)

module _ (ext : External) where
  abbrev pub oidc_config : Uuid → OidcEntry → Json
  oidc_config provider e = obj (
      member "provider_id" (str (ext.uuid_text provider))
        (member "provider_type" (str e.provider) (member "subject" (str e.subject) end)))

module _ ⦃env : Env⦄ (tenant : Uuid) where
  -- INSERT INTO identity_credentials … ON CONFLICT DO NOTHING.
  unfoldable pub insert_credential : Uuid → String → List String → Json → M (Unit {0})
  insert_credential identity kind identifiers config = do
    id ← next_uuid
    run (λ _. tt) (with_credential (new_credential id tenant identity kind identifiers config))

  unfoldable pub migrate_password_cred : Uuid → KratosCredential → M (Unit {0})
  migrate_password_cred identity kc =
      if is_empty kc.identifiers
      then fail no_identifiers
      else (require_hash (decode_hash kc.config)
          >> insert_credential identity "password" kc.identifiers kc.config)

  module _ (ext : External) where
    unfoldable pub migrate_entry : Uuid → OidcEntry → Option Uuid → M (Unit {0})
    migrate_entry identity e none = done tt
    migrate_entry identity e (some provider) =
        insert_credential identity "oidc" (cred_identifier ext provider e.subject ∷ [])
          (oidc_config ext provider e)

    unfoldable pub migrate_entries : Uuid → ProviderMap → List OidcEntry → M (Unit {0})
    migrate_entries identity providers [] = done tt
    migrate_entries identity providers (e ∷ es) =
        migrate_entry identity e (provider_of e.provider providers)
        >> migrate_entries identity providers es

    unfoldable pub migrate_oidc_cred : Uuid → ProviderMap → KratosCredential → M (Unit {0})
    migrate_oidc_cred identity providers kc = do
      es ← found_or invalid_oidc_config (decode_entries kc.config)
      migrate_entries identity providers es

    unfoldable pub migrate_credential : Uuid → ProviderMap → KratosCredential → M (Unit {0})
    migrate_credential identity providers kc =
        if str_eq kc.kind "password"
        then migrate_password_cred identity kc
        else (if str_eq kc.kind "oidc" then migrate_oidc_cred identity providers kc else done tt)

    -- A credential that fails is skipped.
    unfoldable pub migrate_credentials : Uuid → ProviderMap → List KratosCredential → M (Unit {0})
    migrate_credentials identity providers [] = done tt
    migrate_credentials identity providers (kc ∷ kcs) =
        ignore (migrate_credential identity providers kc)
        >> migrate_credentials identity providers kcs

    module _ (schema : Uuid) (providers : ProviderMap) (kcs : List KratosCredential) where
      -- An identity that cannot be inserted is skipped.
      unfoldable pub noted : KratosIdentity → IdentityMap → Error ⊎ Identity → M IdentityMap
      noted ki m (inl e) = done m
      noted ki m (inr i) = do
        _ ← migrate_credentials i.id providers (select (λ kc. kc.identity_id == ki.id) kcs)
        done (put_identity ki.id i.id m)

      unfoldable pub migrate_identity : KratosIdentity → IdentityMap → M IdentityMap
      migrate_identity ki m = do
        created ← attempt (create_identity tenant schema ki.traits (idp_state ki.state))
        noted ki m created

      unfoldable pub migrate_all : List KratosIdentity → IdentityMap → M IdentityMap
      migrate_all [] m = done m
      migrate_all (ki ∷ kis) m = do m' ← migrate_identity ki m; migrate_all kis m'

    unfoldable pub migrate_identities : KratosTables → Uuid → Uuid → ProviderMap → M IdentityMap
    migrate_identities kratos nid schema providers = do
      kis ← identities kratos nid
      kcs ← credentials kratos nid
      migrate_all schema providers kcs kis []

  -- INSERT INTO sessions … ON CONFLICT DO NOTHING, with amr NULL, which reads as no method.
  unfoldable pub insert_session : Uuid → KratosSession → M (Unit {0})
  insert_session identity ks = do
    id ← next_uuid
    run (λ _. tt)
        (with_session (new_session id tenant identity ks.token ks.expires_at (aal_of ks.aal) []))

  unfoldable pub migrate_session : KratosSession → ℕ → Option Uuid → M ℕ
  migrate_session ks n none = done n
  migrate_session ks n (some identity) = do
    inserted ← attempt (insert_session identity ks)
    counted n inserted

  unfoldable pub migrate_each_session : IdentityMap → List KratosSession → ℕ → M ℕ
  migrate_each_session m [] n = done n
  migrate_each_session m (ks ∷ kss) n = do
    n' ← migrate_session ks n (identity_of ks.identity_id m)
    migrate_each_session m kss n'

  unfoldable pub migrate_sessions : KratosTables → Uuid → IdentityMap → M ℕ
  migrate_sessions kratos nid m = do kss ← active_sessions kratos nid; migrate_each_session m kss 0
