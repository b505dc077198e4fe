-- ===== src/Oidc/Redirection.antt =====
-- What `InitiateLogin` asks of the identity provider, and what it leaves in the flow.
use enterprise_kratos.Base.{
  Uuid, String, true, some, List, [], ◌∷◌, ◌≡◌, refl, sym, ap, subst, ◌∙◌, find, find-update,
  eq_iff,
}
use mathlib.Core.Option
use enterprise_kratos.Flow.{Flow, pending, is_pending}
use enterprise_kratos.Sso.{Provider, OidcConfig, decode_config}
use enterprise_kratos.External.{External}
use enterprise_kratos.Store.{Tables, Env, World, Result, ok, effects}
use enterprise_kratos.Store.Flows
use enterprise_kratos.Store.Providers
use enterprise_kratos.Store.Frame.{Unwritten-IsOrder}
use enterprise_kratos.Store.Lookup.{get-Got}
use enterprise_kratos.Store.Outcome.{>>=-eq-ok, >>-eq-ok, providers-get-eq-ok, flows-update-eq-ok}
use enterprise_kratos.Engine.Outcome.{require-eq-ok, require_pending-eq-ok, some_or-eq-ok}
use enterprise_kratos.Oidc
use enterprise_kratos.Oidc.Keeping.{random_base64-keeps}
use enterprise_kratos.Oidc.Client
use enterprise_kratos.Oidc.Client.{OidcClient, RemoteProvider, oauth2_config, random_base64}
use enterprise_kratos.Oidc.Authentication.{IsLoaded, get_oidc_provider-eq-ok, flows-get-issuers}

pub record Redirected (ext : External) (client : OidcClient) (tenant id provider : Uuid)
    (db after : Tables) (issuers : List (String × RemoteProvider)) (url : String) : Type 0 where
  pub f : Flow
  pub stands : find (Flows.is_flow tenant id) db.flows ≡ some f
  pub waiting : is_pending f.state ≡ true
  pub p : Provider
  pub is_provider : find (Providers.is_provider tenant provider) db.providers ≡ some p
  pub enabled : p.enabled ≡ true
  pub kind : p.kind ≡ "oidc"
  pub config : OidcConfig
  pub decoded : decode_config p.config ≡ some config
  pub remote : RemoteProvider
  pub loaded : IsLoaded client config.issuer_url issuers remote
  pub nonce : String
  pub verifier : String
  pub asks :
      url
      ≡ client.auth_code_url (oauth2_config config remote) (ext.uuid_text id) (
          ("nonce", nonce)
          ∷ ("code_challenge", client.pkce_challenge verifier)
          ∷ ("code_challenge_method", "S256")
          ∷ [])
  pub remembers :
      find (Flows.is_flow tenant id) after.flows
      ≡ some (
          Flows.set_columns pending f.identity_id
            (Oidc.with_oidc_state f.ui (ext.uuid_text provider) nonce verifier)
            f)

ok-injective {ℓ} : {A : Type ℓ} {a b : A} → Result.ok a ≡ ok b → a ≡ b
ok-injective h = cc

module _ ⦃env : Env⦄ (ext : External) (client : OidcClient) where
  -- A login that is initiated without an error was for a pending flow and an SSO provider of the
  -- tenant that is enabled and of type oidc. The answer is the authorization URL of the provider's
  -- config, at the provider object that the cache had for the issuer URL of the config or that was
  -- loaded from it, for a nonce and the S256 challenge of a code verifier, with the flow's ID as
  -- the state, and the flow is found again, still pending and with its identity, with this nonce,
  -- this verifier and this provider in its internal state.
  pub initiate_login-Redirected :
      (tenant id provider : Uuid) (w : World) (url : String)
      → (Oidc.initiate_login ext client tenant id provider w).0 ≡ ok url
      → Redirected ext client tenant id provider w.db
          (Oidc.initiate_login ext client tenant id provider w).1.db
          w.issuers
          url
  unfolding Oidc.initiate_login effects
  initiate_login-Redirected tenant id provider w url h =
      let (f, read, h1, e1) = >>=-eq-ok (Flows.get tenant id) _ w h in
      let got = get-Got tenant id w f read in
      let w1 = (Flows.get tenant id w).1 in
      let (waiting, h2, e2) = require_pending-eq-ok w1 f _ h1 in
      let (p, asked, h3, e3) = >>=-eq-ok (Providers.get tenant provider) _ w1 h2 in
      let (row, same1, issuers1) = providers-get-eq-ok tenant provider w1 asked in
      let w2 = (Providers.get tenant provider w1).1 in
      let (enabled, h4, e4) = require-eq-ok w2 _ _ _ h3 in
      let (kind, h5, e5) = require-eq-ok w2 _ _ _ h4 in
      let (cfg, decoded, h6, e6) = some_or-eq-ok w2 _ _ _ h5 in
      let (remote, looked, h7, e7) =
        >>=-eq-ok (Client.get_oidc_provider client cfg.issuer_url) _ w2 h6 in
      let (loaded, same2) = get_oidc_provider-eq-ok client cfg.issuer_url w2 looked in
      let w3 = (Client.get_oidc_provider client cfg.issuer_url w2).1 in
      let (nonce, _, h8, e8) = >>=-eq-ok (random_base64 16) _ w3 h7 in
      let same3 = (random_base64-keeps Unwritten-IsOrder 16).keeps w3 in
      let w4 = (random_base64 16 w3).1 in
      let (verifier, _, h9, e9) = >>=-eq-ok (random_base64 32) _ w4 h8 in
      let same4 = (random_base64-keeps Unwritten-IsOrder 32).keeps w4 in
      let w5 = (random_base64 32 w4).1 in
      let ui = Oidc.with_oidc_state f.ui (ext.uuid_text provider) nonce verifier in
      let (_, updates, h10, e10) =
        >>-eq-ok (Flows.update tenant id pending f.identity_id ui) _ w5 h9 in
      let rows = flows-update-eq-ok tenant w5 id pending f.identity_id ui updates in
      let same = same4 ∙ same3 ∙ same2 ∙ same1 ∙ got.unwritten in
      record {
        f = f;
        stands = got.stands;
        waiting = waiting;
        p = p;
        is_provider =
            subst (λ db. find (Providers.is_provider tenant provider) db.providers ≡ some p)
              got.unwritten row;
        enabled = enabled;
        kind = (eq_iff p.kind "oidc").0 kind;
        config = cfg;
        decoded = decoded;
        remote = remote;
        loaded =
            subst (λ issuers. IsLoaded client cfg.issuer_url issuers remote)
              (issuers1 ∙ flows-get-issuers tenant id w read) loaded;
        nonce = nonce;
        verifier = verifier;
        asks = sym (ok-injective h10);
        remembers =
            ap (λ (x : Result String × World). find (Flows.is_flow tenant id) x.1.db.flows)
              (e1 ∙ e2 ∙ e3 ∙ e4 ∙ e5 ∙ e6 ∙ e7 ∙ e8 ∙ e9 ∙ e10)
            ∙ ap (λ (db : Tables). find (Flows.is_flow tenant id) db.flows)
                (rows
                  ∙ ap (Flows.with_update tenant id (Flows.set_columns pending f.identity_id ui))
                      same)
            ∙ find-update (Flows.is_flow tenant id) (Flows.set_columns pending f.identity_id ui)
                (λ x. refl) w.db.flows
            ∙ ap (Option.map (Flows.set_columns pending f.identity_id ui)) got.stands;
      }
