-- ===== src/Oidc.antt =====
-- internal/oidc/engine.go: `InitiateLogin`, which redirects a pending flow to an identity provider,
-- and `HandleCallback`, which accepts what the provider answers. `HandleCallback` is three parts,
-- in its order: `authenticate` up to the claims, `resolve_identity`, and `complete`.
pub mod Client
pub mod Keeping
pub mod Authentication
pub mod Resolution
pub mod Soundness
pub mod Redirection
use enterprise_kratos.Base.{
  ℕ, String, Bool, true, false, ◌⊎◌, inl, inr, Option, none, some, [], ◌∷◌, Uuid, Json, str, obj,
  end, member, str_eq, if◌then◌else◌,
}
use Prim.Native.String.{◌++◌ as text_append}
use enterprise_kratos.Flow.{Flow, Ui, UiInternal, in_phase, pending, success}
use enterprise_kratos.Identity.{Identity, Credential, Session, state_active}
use enterprise_kratos.Sso.{Provider, OidcConfig, decode_config}
use enterprise_kratos.External.{External}
use enterprise_kratos.Errors.{
  Error, provider_disabled, wrong_provider_type, identity_is, invalid_state,
  invalid_provider_config, no_oidc_state, invalid_provider_id, no_id_token, nonce_mismatch,
  invalid_claims,
}
use enterprise_kratos.Store.{Env, M, done, fail, attempt, ignore, ◌>>=◌, ◌>>◌}
use enterprise_kratos.Store.Flows
use enterprise_kratos.Store.Policies
use enterprise_kratos.Store.Sessions
use enterprise_kratos.Store.Providers
use enterprise_kratos.Store.Schemas.{ensure_default}
use enterprise_kratos.Store.Identities.{
  get_by_identifier, get_identity, create_identity, create_credential,
}
use enterprise_kratos.Engine.{require, require_pending, some_or, parse_session_ttl}
use enterprise_kratos.Registration.{is_credential_not_found}
use enterprise_kratos.Oidc.Client.{
  OidcClient, Claims, oauth2_config, ask, get_oidc_provider, random_base64,
}

pub record CallbackResult : Type 0 where
  pub session : Session
  pub identity_id : Uuid
  pub is_new : Bool

-- What a callback has shown before an identity is looked up.
pub record Authenticated : Type 0 where
  pub flow : Flow
  pub provider : Provider
  pub provider_id : Uuid
  pub claims : Claims

abbrev pub internal_or_first : Option UiInternal → UiInternal
internal_or_first none = in_phase "first_factor"
internal_or_first (some i) = i

abbrev pub with_oidc_state : Ui → String → String → String → Ui
with_oidc_state ui provider nonce verifier = record ui {
  internal = some (record (internal_or_first ui.internal) {
    oidc_provider_id = provider;
    oidc_nonce = nonce;
    oidc_code_verifier = verifier;
  });
}

abbrev pub complete_internal : UiInternal
complete_internal = record (in_phase "complete") {
  completed_aal = "aal1";
  completed_amr = "oidc" ∷ [];
}

-- The internal state, if it names a provider.
abbrev pub oidc_state : Option UiInternal → Option UiInternal
oidc_state none = none
oidc_state (some i) = if str_eq i.oidc_provider_id "" then none else some i

abbrev pub jit_traits : Claims → Json
jit_traits c = obj (member "email" (str c.email) (member "name" (str c.name) end))

module _ (ext : External) where
  -- The identifier of a credential, by the provider and the subject.
  abbrev pub cred_identifier : Uuid → String → String
  cred_identifier provider sub = text_append (ext.uuid_text provider) (text_append ":" sub)

  abbrev pub jit_config : Authenticated → Json
  jit_config a = obj (
      member "provider_id" (str (ext.uuid_text a.provider_id)) (
        member "provider_type" (str a.provider.provider)
          (member "subject" (str a.claims.sub) (member "email" (str a.claims.email) end))))

module _ ⦃env : Env⦄ (ext : External) (client : OidcClient) where
  unfoldable pub initiate_login : Uuid → Uuid → Uuid → M String
  initiate_login tenant id provider = do
    f ← Flows.get tenant id
    require_pending f
    p ← Providers.get tenant provider
    require p.enabled (provider_disabled provider)
    require (str_eq p.kind "oidc") (wrong_provider_type p.kind)
    cfg ← some_or invalid_provider_config (decode_config p.config)
    remote ← get_oidc_provider client cfg.issuer_url
    nonce ← random_base64 16
    verifier ← random_base64 32
    Flows.update tenant id pending f.identity_id
        (with_oidc_state f.ui (ext.uuid_text provider) nonce verifier)
    done (
        client.auth_code_url (oauth2_config cfg remote) (ext.uuid_text id) (
          ("nonce", nonce)
          ∷ ("code_challenge", client.pkce_challenge verifier)
          ∷ ("code_challenge_method", "S256")
          ∷ []))

  -- `HandleCallback` from the provider's discovery to the claims: the code is exchanged, and the
  -- token is verified and carries the nonce of the flow.
  unfoldable pub verified_claims : OidcConfig → UiInternal → String → M Claims
  verified_claims cfg i code = do
    remote ← get_oidc_provider client cfg.issuer_url
    token ← ask "exchange code" λ n.
        client.exchange n (oauth2_config cfg remote) code
          (("code_verifier", i.oidc_code_verifier) ∷ [])
    raw ← some_or no_id_token token.id_token
    id_token ← ask "verify id_token" λ n. client.verify n remote cfg.client_id raw
    require (str_eq id_token.nonce i.oidc_nonce) nonce_mismatch
    some_or invalid_claims id_token.claims

  -- `HandleCallback` up to the claims of the verified token.
  unfoldable pub authenticate : Uuid → String → String → M Authenticated
  authenticate tenant state code = do
    id ← some_or (invalid_state state) (ext.parse_uuid state)
    f ← Flows.get tenant id
    require_pending f
    i ← some_or no_oidc_state (oidc_state f.ui.internal)
    provider ← some_or invalid_provider_id (ext.parse_uuid i.oidc_provider_id)
    p ← Providers.get tenant provider
    cfg ← some_or invalid_provider_config (decode_config p.config)
    claims ← verified_claims cfg i code
    done (record { flow = f; provider = p; provider_id = provider; claims = claims })

  -- An identity that is active.
  unfoldable pub existing_identity : Uuid → Credential → M (Uuid × Bool)
  existing_identity tenant c = do
    i ← get_identity tenant c.identity_id
    require (str_eq i.state state_active) (identity_is i.state)
    done (c.identity_id, false)

  -- Just-in-time provisioning.
  unfoldable pub provision : Uuid → Authenticated → M (Uuid × Bool)
  provision tenant a = do
    schema ← ensure_default tenant
    i ← create_identity tenant schema.id (jit_traits a.claims) state_active
    _ ←
        create_credential tenant i.id "oidc" (cred_identifier ext a.provider_id a.claims.sub ∷ [])
          (jit_config ext a)
    done (i.id, true)

  unfoldable pub found_or_provisioned : Uuid → Authenticated → Error ⊎ Credential → M (Uuid × Bool)
  found_or_provisioned tenant a (inr c) = existing_identity tenant c
  found_or_provisioned tenant a (inl e) =
      if is_credential_not_found e then provision tenant a else fail e

  unfoldable pub resolve_identity : Uuid → Authenticated → M (Uuid × Bool)
  resolve_identity tenant a = do
    looked_up ←
        attempt (get_by_identifier tenant "oidc" (cred_identifier ext a.provider_id a.claims.sub))
    found_or_provisioned tenant a looked_up

  -- The session, and the flow that ends whether or not its update succeeds.
  unfoldable pub complete : Uuid → Flow → Uuid × Bool → M CallbackResult
  complete tenant f who = do
    pol ← Policies.get tenant
    session ← Sessions.create tenant who.0 "aal1" ("oidc" ∷ []) (parse_session_ttl ext pol)
    ignore (
        Flows.update tenant f.id success (some who.0)
          (record (f.ui) { internal = some complete_internal }))
    done (record { session = session; identity_id = who.0; is_new = who.1 })

  unfoldable pub handle_callback : Uuid → String → String → M CallbackResult
  handle_callback tenant state code = do
    a ← authenticate tenant state code
    who ← resolve_identity tenant a
    complete tenant a.flow who
