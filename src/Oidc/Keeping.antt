-- ===== src/Oidc/Keeping.antt =====
-- The OIDC engine writes only what the stores write.
use enterprise_kratos.Base.{String, Option, none, some, Uuid, Bool, ◌⊎◌, inl, inr, ℕ, suc}
use enterprise_kratos.Flow.{Flow, UiInternal}
use enterprise_kratos.Sso.{OidcConfig}
use enterprise_kratos.Identity.{Credential}
use enterprise_kratos.Errors.{Error}
use enterprise_kratos.External.{External}
use enterprise_kratos.Store.{Tables, Env}
use enterprise_kratos.Store.Frame.{IsOrder, Keeps, keeping, Keeps-generate_token}
use enterprise_kratos.Store.Writes.{HasWrites}
use enterprise_kratos.Store.Keeping.{stores}
use enterprise_kratos.Store.Providers.Keeping as ProvidersKeeping
use enterprise_kratos.Engine.Keeping.{guards}
use enterprise_kratos.Oidc
use enterprise_kratos.Oidc.Client
use enterprise_kratos.Oidc.Client.{OidcClient, RemoteProvider}

module _ {S : Tables → Tables → Type 0} (o : IsOrder S) where
  answered-keeps {ℓ} :
      {A : Type ℓ} (text : String) (a : Option A) → Keeps S (Client.answered text a)
  unfolding Client.answered
  answered-keeps text none = record { keeps = λ w. o.same w.db }
  answered-keeps text (some a) = record { keeps = λ w. o.same w.db }

  pub ask-keeps {ℓ} : {A : Type ℓ} (text : String) (f : ℕ → Option A) → Keeps S (Client.ask text f)
  unfolding Client.ask
  ask-keeps text f = record {
    keeps = λ w. (answered-keeps text (f w.calls)).keeps (record w { calls = suc w.calls });
  }

  remembered-keeps : (url : String) (p : Option RemoteProvider) → Keeps S (Client.remembered url p)
  unfolding Client.remembered
  remembered-keeps url none = record { keeps = λ w. o.same w.db }
  remembered-keeps url (some p) = record { keeps = λ w. o.same w.db }

  cached_or_loaded-keeps :
      (client : OidcClient) (url : String) (p : Option RemoteProvider)
      → Keeps S (Client.cached_or_loaded client url p)
  unfolding Client.cached_or_loaded
  cached_or_loaded-keeps client url (some p) = record { keeps = λ w. o.same w.db }
  cached_or_loaded-keeps client url none = record {
    keeps = λ w.
        (remembered-keeps url (client.new_provider w.calls url)).keeps
          (record w { calls = suc w.calls });
  }

  pub get_oidc_provider-keeps :
      (client : OidcClient) (url : String) → Keeps S (Client.get_oidc_provider client url)
  unfolding Client.get_oidc_provider
  get_oidc_provider-keeps client url = record {
    keeps = λ w. (cached_or_loaded-keeps client url (Client.cached url w.issuers)).keeps w;
  }

  pub random_base64-keeps : ⦃env : Env⦄ (n : ℕ) → Keeps S (Client.random_base64 n)
  unfolding Client.random_base64
  random_base64-keeps n = Keeps-generate_token o

ruleset remote =
    (ask-keeps, get_oidc_provider-keeps, random_base64-keeps, ProvidersKeeping.get-keeps)

module _ ⦃env : Env⦄ {S : Tables → Tables → Type 0} (o : IsOrder S) (ext : External)
    (client : OidcClient) where
  pub verified_claims-keeps :
      (cfg : OidcConfig) (i : UiInternal) (code : String)
      → Keeps S (Oidc.verified_claims ext client cfg i code)
  unfolding Oidc.verified_claims
  verified_claims-keeps cfg i code = search (keeping, guards, remote) depth 30

module _ ⦃env : Env⦄ {S : Tables → Tables → Type 0} {tenant : Uuid} (o : IsOrder S)
    (h : HasWrites S tenant) (ext : External) (client : OidcClient) where
  pub initiate_login-keeps :
      (id provider : Uuid) → Keeps S (Oidc.initiate_login ext client tenant id provider)
  unfolding Oidc.initiate_login
  initiate_login-keeps id provider = search (keeping, guards, stores, remote) depth 40

  pub authenticate-keeps :
      (state code : String) → Keeps S (Oidc.authenticate ext client tenant state code)
  unfolding Oidc.authenticate
  authenticate-keeps state code =
      search (keeping, guards, stores, remote, verified_claims-keeps) depth 50

  existing_identity-keeps : (c : Credential) → Keeps S (Oidc.existing_identity ext client tenant c)
  unfolding Oidc.existing_identity
  existing_identity-keeps c = search (keeping, guards, stores) depth 20

  provision-keeps : (a : Oidc.Authenticated) → Keeps S (Oidc.provision ext client tenant a)
  unfolding Oidc.provision
  provision-keeps a = search (keeping, stores) depth 20

  found_or_provisioned-keeps :
      (a : Oidc.Authenticated) (r : Error ⊎ Credential)
      → Keeps S (Oidc.found_or_provisioned ext client tenant a r)
  unfolding Oidc.found_or_provisioned
  found_or_provisioned-keeps a (inr c) = existing_identity-keeps c
  found_or_provisioned-keeps a (inl e) = search (keeping, provision-keeps)

  resolve_identity-keeps :
      (a : Oidc.Authenticated) → Keeps S (Oidc.resolve_identity ext client tenant a)
  unfolding Oidc.resolve_identity
  resolve_identity-keeps a = search (keeping, stores, found_or_provisioned-keeps) depth 20

  complete-keeps : (f : Flow) (who : Uuid × Bool) → Keeps S (Oidc.complete ext client tenant f who)
  unfolding Oidc.complete
  complete-keeps f who = search (keeping, stores) depth 30

  pub handle_callback-keeps :
      (state code : String) → Keeps S (Oidc.handle_callback ext client tenant state code)
  unfolding Oidc.handle_callback
  handle_callback-keeps state code =
      search (keeping, authenticate-keeps, resolve_identity-keeps, complete-keeps) depth 20
