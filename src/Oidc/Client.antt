-- ===== src/Oidc/Client.antt =====
-- What internal/oidc/engine.go calls of go-oidc and golang.org/x/oauth2, as parameters: the network
-- answers by the number of the call. `getOIDCProvider` keeps what was loaded, by issuer URL.
use enterprise_kratos.Base.{
  ℕ, suc, String, Option, none, some, List, [], ◌∷◌, str_eq, if◌then◌else◌,
}
use enterprise_kratos.Sso.{OidcConfig, scopes_or_default}
use enterprise_kratos.Errors.{oidc_failure}
use enterprise_kratos.Store.{Env, ok, err, M, generate_token}

-- A `*gooidc.Provider` is a pointer, known by a number.
abbrev pub RemoteProvider : Type 0
RemoteProvider = ℕ

pub record Oauth2Config : Type 0 where
  pub client_id : String
  pub client_secret : String
  pub redirect_url : String
  pub scopes : List String
  -- `Endpoint()` of this provider
  pub endpoint : RemoteProvider

pub record Claims : Type 0 where
  pub sub : String
  pub email : String
  pub name : String

-- A verified ID token; `Claims` decodes its payload and can fail.
pub record IdToken : Type 0 where
  pub nonce : String
  pub claims : Option Claims

-- An `oauth2.Token`, and in it `Extra("id_token").(string)`.
pub record Token : Type 0 where
  pub id_token : Option String

pub record OidcClient : Type 0 where
  -- `gooidc.NewProvider`
  pub new_provider : ℕ → String → Option RemoteProvider
  -- `Config.AuthCodeURL`, by the state and the further parameters
  pub auth_code_url : Oauth2Config → String → List (String × String) → String
  -- `Config.Exchange`, by the code and the further parameters
  pub exchange : ℕ → Oauth2Config → String → List (String × String) → Option Token
  -- `IDTokenVerifier.Verify`, for the client id
  pub verify : ℕ → RemoteProvider → String → String → Option IdToken
  -- SHA-256 in base64
  pub pkce_challenge : String → String

-- `oauth2.Config` for a provider.
abbrev pub oauth2_config : OidcConfig → RemoteProvider → Oauth2Config
oauth2_config cfg remote = record {
  client_id = cfg.client_id;
  client_secret = cfg.client_secret;
  redirect_url = cfg.redirect_uri;
  scopes = scopes_or_default cfg.scopes;
  endpoint = remote;
}

abbrev pub cached : String → List (String × RemoteProvider) → Option RemoteProvider
cached url [] = none
cached url ((issuer, p) ∷ rest) = if str_eq issuer url then some p else cached url rest

-- What a call to the network answers.
unfoldable pub answered {ℓ} : {A : Type ℓ} → String → Option A → M A
answered text none w = (err (oidc_failure text), w)
answered text (some a) w = (ok a, w)

unfoldable pub ask {ℓ} : {A : Type ℓ} → String → (ℕ → Option A) → M A
unfolding answered
ask text f w = answered text (f w.calls) (record w { calls = suc w.calls })

unfoldable pub remembered : String → Option RemoteProvider → M RemoteProvider
remembered url none w = (err (oidc_failure "load OIDC provider"), w)
remembered url (some p) w = (ok p, record w { issuers = (url, p) ∷ w.issuers })

module _ (client : OidcClient) where
  unfoldable pub cached_or_loaded : String → Option RemoteProvider → M RemoteProvider
  unfolding remembered
  cached_or_loaded url (some p) w = (ok p, w)
  cached_or_loaded url none w =
      remembered url (client.new_provider w.calls url) (record w { calls = suc w.calls })

  -- The second look under the write lock finds what the first one found, one request at a time.
  unfoldable pub get_oidc_provider : String → M RemoteProvider
  unfolding cached_or_loaded
  get_oidc_provider url w = cached_or_loaded url (cached url w.issuers) w

-- So many bytes of crypto/rand in base64. What is drawn is known by the number of the call.
unfoldable pub random_base64 : ⦃env : Env⦄ → ℕ → M String
unfolding generate_token
random_base64 n = generate_token
