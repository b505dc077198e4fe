-- ===== src/Oidc/Authentication.antt =====
-- What a callback rests on, up to the claims: read backwards from `authenticate`.
use enterprise_kratos.Base.{
  ℕ, suc, Uuid, String, true, false, Option, some, none, List, [], ◌∷◌, ◌⊎◌, inl, inr, ◌≡◌, refl,
  ap, subst, ◌∙◌, arith, find, str_eq, eq_iff,
}
use enterprise_kratos.Flow.{Flow, UiInternal, is_pending}
use enterprise_kratos.Sso.{OidcConfig, decode_config}
use enterprise_kratos.External.{External}
use enterprise_kratos.Errors.{Error}
use enterprise_kratos.Store.{Env, World, Result, ok, effects}
use enterprise_kratos.Store.Flows
use enterprise_kratos.Store.Providers
use enterprise_kratos.Store.Lookup.{get-Got}
use enterprise_kratos.Store.Outcome.{>>=-eq-ok, providers-get-eq-ok}
use enterprise_kratos.Store.Frame.{Unwritten-IsOrder}
use enterprise_kratos.Engine.{some_or}
use enterprise_kratos.Oidc.Keeping.{verified_claims-keeps}
use enterprise_kratos.Engine.Outcome.{require-eq-ok, require_pending-eq-ok, some_or-eq-ok}
use enterprise_kratos.Oidc
use enterprise_kratos.Oidc.{Authenticated}
use enterprise_kratos.Oidc.Client
use enterprise_kratos.Oidc.Client.{
  OidcClient, RemoteProvider, Claims, Token, IdToken, oauth2_config,
}

-- The provider object was in the cache, or the library has loaded it.
abbrev pub IsLoaded : OidcClient → String → List (String × RemoteProvider) → RemoteProvider → Type 0
IsLoaded client url issuers p =
    (Client.cached url issuers ≡ some p) ⊎ ((n : ℕ) × (client.new_provider n url ≡ some p))

module _ (client : OidcClient) (url : String) (w : World) where
  remembered-eq-ok :
      (n : ℕ) (o : Option RemoteProvider) (v : World) {p : RemoteProvider}
      → (Client.remembered url o v).0 ≡ ok p
      → (o ≡ some p) × ((Client.remembered url o v).1.db ≡ v.db)
  unfolding Client.remembered
  remembered-eq-ok n o v h = ground arith

  cached_or_loaded-eq-ok :
      (o : Option RemoteProvider) {p : RemoteProvider}
      → (Client.cached_or_loaded client url o w).0 ≡ ok p
      → ((o ≡ some p) ⊎ ((n : ℕ) × (client.new_provider n url ≡ some p)))
        × ((Client.cached_or_loaded client url o w).1.db ≡ w.db)
  unfolding Client.cached_or_loaded
  cached_or_loaded-eq-ok (some q) h = (inl (ground arith), refl)
  cached_or_loaded-eq-ok none h =
      let (loaded, same) =
        remembered-eq-ok w.calls (client.new_provider w.calls url)
          (record w { calls = suc w.calls }) h in
      (inr (w.calls, loaded), same)

  pub get_oidc_provider-eq-ok :
      {p : RemoteProvider}
      → (Client.get_oidc_provider client url w).0 ≡ ok p
      → IsLoaded client url w.issuers p × ((Client.get_oidc_provider client url w).1.db ≡ w.db)
  unfolding Client.get_oidc_provider
  get_oidc_provider-eq-ok h = cached_or_loaded-eq-ok (Client.cached url w.issuers) h

ask-eq-ok {ℓ} :
    {A : Type ℓ} (text : String) (f : ℕ → Option A) (w : World) {a : A}
    → (Client.ask text f w).0 ≡ ok a
    → (f w.calls ≡ some a) × ((Client.ask text f w).1.db ≡ w.db)
unfolding Client.ask Client.answered
ask-eq-ok text f w h = ground arith

pub flows-get-issuers :
    ⦃env : Env⦄ (tenant id : Uuid) (w : World) {f : Flow}
    → (Flows.get tenant id w).0 ≡ ok f
    → (Flows.get tenant id w).1.issuers ≡ w.issuers
unfolding Flows.get Flows.check_expiry effects
flows-get-issuers tenant id w h = ground arith

oidc_state-some :
    (o : Option UiInternal) (i : UiInternal)
    → Oidc.oidc_state o ≡ some i
    → (o ≡ some i) × (str_eq i.oidc_provider_id "" ≡ false)
oidc_state-some none i h = cc
oidc_state-some (some j) i h = ground arith

-- The facts behind the claims of a callback, from the discovery on.
pub record VerifiedBy (client : OidcClient) (config : OidcConfig) (internal : UiInternal)
    (code : String) (issuers : List (String × RemoteProvider)) (claims : Claims) : Type 0 where
  pub remote : RemoteProvider
  pub loaded : IsLoaded client config.issuer_url issuers remote
  pub exchange_call : ℕ
  pub token : Token
  pub exchanged :
      client.exchange exchange_call
        (oauth2_config config remote)
        code
        (("code_verifier", internal.oidc_code_verifier) ∷ [])
      ≡ some token
  pub raw : String
  pub carries : token.id_token ≡ some raw
  pub verify_call : ℕ
  pub id_token : IdToken
  pub verified : client.verify verify_call remote config.client_id raw ≡ some id_token
  pub nonce : id_token.nonce ≡ internal.oidc_nonce
  pub carried : id_token.claims ≡ some claims

-- The facts behind all that `authenticate` answers.
pub record Authentic (ext : External) (client : OidcClient) (tenant : Uuid) (state code : String)
    (w : World) (a : Authenticated) : Type 0 where
  pub id : Uuid
  pub parsed : ext.parse_uuid state ≡ some id
  pub stands : find (Flows.is_flow tenant id) w.db.flows ≡ some a.flow
  pub waiting : is_pending a.flow.state ≡ true
  pub internal : UiInternal
  pub is_internal : a.flow.ui.internal ≡ some internal
  pub names_provider : ext.parse_uuid internal.oidc_provider_id ≡ some a.provider_id
  pub provider : find (Providers.is_provider tenant a.provider_id) w.db.providers ≡ some a.provider
  pub config : OidcConfig
  pub decoded : decode_config a.provider.config ≡ some config
  pub verified : VerifiedBy client config internal code w.issuers a.claims

done-eq-ok {ℓ} : {A : Type ℓ} {a b : A} → Result.ok a ≡ ok b → a ≡ b
done-eq-ok h = cc

module _ ⦃env : Env⦄ (ext : External) (client : OidcClient) where
  some_or-some {ℓ} :
      {A : Type ℓ} (e : Error) (o : Option A) (w : World) {a : A}
      → (some_or e o w).0 ≡ ok a
      → o ≡ some a
  unfolding some_or effects
  some_or-some e none w h = cc
  some_or-some e (some b) w h = cc

  verified_claims-eq-ok :
      (cfg : OidcConfig) (i : UiInternal) (code : String) (w : World) (claims : Claims)
      → (Oidc.verified_claims ext client cfg i code w).0 ≡ ok claims
      → VerifiedBy client cfg i code w.issuers claims
  unfolding Oidc.verified_claims
  verified_claims-eq-ok cfg i code w claims h =
      let (remote, looked, h1, _) =
        >>=-eq-ok (Client.get_oidc_provider client cfg.issuer_url) _ w h in
      let w1 = (Client.get_oidc_provider client cfg.issuer_url w).1 in
      let (token, exchanges, h2, _) = >>=-eq-ok (Client.ask "exchange code" _) _ w1 h1 in
      let w2 = (Client.ask "exchange code" _ w1).1 in
      let (raw, carries, h3, _) = some_or-eq-ok w2 _ token.id_token _ h2 in
      let (id_token, verifies, h4, _) = >>=-eq-ok (Client.ask "verify id_token" _) _ w2 h3 in
      let w3 = (Client.ask "verify id_token" _ w2).1 in
      let (nonce, h5, _) = require-eq-ok w3 _ _ _ h4 in
      record {
        remote = remote;
        loaded = (get_oidc_provider-eq-ok client cfg.issuer_url w looked).0;
        exchange_call = w1.calls;
        token = token;
        exchanged = (ask-eq-ok "exchange code" _ w1 exchanges).0;
        raw = raw;
        carries = carries;
        verify_call = w2.calls;
        id_token = id_token;
        verified = (ask-eq-ok "verify id_token" _ w2 verifies).0;
        nonce = (eq_iff id_token.nonce i.oidc_nonce).0 nonce;
        carried = some_or-some _ id_token.claims w3 h5;
      }

  pub authenticate-eq-ok :
      (tenant : Uuid) (state code : String) (w : World) (a : Authenticated)
      → (Oidc.authenticate ext client tenant state code w).0 ≡ ok a
      → Authentic ext client tenant state code w a
        × ((Oidc.authenticate ext client tenant state code w).1.db ≡ w.db)
  unfolding Oidc.authenticate effects
  authenticate-eq-ok tenant state code w a h =
      let (id, parsed, h1, e1) = some_or-eq-ok w _ _ _ h in
      let (f, read, h2, e2) = >>=-eq-ok (Flows.get tenant id) _ w h1 in
      let got = get-Got tenant id w f read in
      let w1 = (Flows.get tenant id w).1 in
      let (waiting, h3, e3) = require_pending-eq-ok w1 f _ h2 in
      let (i, internal, h4, e4) = some_or-eq-ok w1 _ _ _ h3 in
      let (is_internal, named) = oidc_state-some f.ui.internal i internal in
      let (provider, names, h5, e5) = some_or-eq-ok w1 _ _ _ h4 in
      let (p, asked, h6, e6) = >>=-eq-ok (Providers.get tenant provider) _ w1 h5 in
      let (row, same1, issuers1) = providers-get-eq-ok tenant provider w1 asked in
      let w2 = (Providers.get tenant provider w1).1 in
      let (cfg, decoded, h7, e7) = some_or-eq-ok w2 _ _ _ h6 in
      let (claims, verifies, h8, e8) =
        >>=-eq-ok (Oidc.verified_claims ext client cfg i code) _ w2 h7 in
      let same2 = (verified_claims-keeps Unwritten-IsOrder ext client cfg i code).keeps w2 in
      let made : Authenticated = record {
        flow = f;
        provider = p;
        provider_id = provider;
        claims = claims;
      } in
      let authentic : Authentic ext client tenant state code w made = record {
        id = id;
        parsed = parsed;
        stands = got.stands;
        waiting = waiting;
        internal = i;
        is_internal = is_internal;
        names_provider = names;
        provider =
            subst (λ db. find (Providers.is_provider tenant provider) db.providers ≡ some p)
              got.unwritten row;
        config = cfg;
        decoded = decoded;
        verified =
            subst (λ issuers. VerifiedBy client cfg i code issuers claims)
              (issuers1 ∙ flows-get-issuers tenant id w read)
              (verified_claims-eq-ok cfg i code w2 claims verifies);
      } in
      (
        subst (Authentic ext client tenant state code w) (done-eq-ok h8) authentic,
        ap (λ x. x.1.db) (e1 ∙ e2 ∙ e3 ∙ e4 ∙ e5 ∙ e6 ∙ e7 ∙ e8) ∙ same2 ∙ same1 ∙ got.unwritten,
      )
