-- ===== src/Examples/Federation.antt =====
-- A sign-in with an identity provider: the redirection, and the callback of a new user.
use enterprise_kratos.Base.{none, [], ◌∷◌, ◌≡◌, refl, true, str, obj, end, member, hour, ◌+◌}
use enterprise_kratos.Flow.{UiInternal, in_phase, login}
use enterprise_kratos.Sso.{Provider}
use enterprise_kratos.Identity.{Session}
use enterprise_kratos.Store.{World, ok, effects}
use enterprise_kratos.Store.Flows
use enterprise_kratos.Store.Providers
use enterprise_kratos.Store.Policies
use enterprise_kratos.Store.Schemas
use enterprise_kratos.Store.Sessions
use enterprise_kratos.Store.Identities
use enterprise_kratos.Engine.{require, require_pending, some_or, parse_session_ttl}
use enterprise_kratos.Oidc
use enterprise_kratos.Oidc.Client
use enterprise_kratos.Oidc.Soundness.{Accepted, handle_callback-Accepted}
use enterprise_kratos.Oidc.Redirection.{Redirected, initiate_login-Redirected}
use enterprise_kratos.Examples.Setting.{clock, outside, google, flow_of, with_flow}

abbrev pub work : Provider
work = record {
  id = 40;
  tenant_id = 1;
  kind = "oidc";
  provider = "google";
  config = obj (member "client_id" (str "idp") (member "issuer_url" (str "https://g") end));
  enabled = true;
}

abbrev with_provider : UiInternal → World
with_provider i = record (with_flow (flow_of login none i)) {
  db = record ((with_flow (flow_of login none i)).db) { providers = work ∷ [] };
}

abbrev choosing : World
choosing = with_provider (in_phase "first_factor")

initiated : (Oidc.initiate_login ⦃env = clock⦄ outside google 1 10 40 choosing).0 ≡ ok "10"
unfolding Oidc.initiate_login Client.get_oidc_provider Client.cached_or_loaded Client.remembered
    Client.random_base64 Providers.get Flows.update Flows.affected Flows.get Flows.check_expiry
    require_pending require some_or effects
initiated = refl

initiate_login-Redirected_example :
    Redirected outside google 1 10 40 choosing.db
      (Oidc.initiate_login ⦃env = clock⦄ outside google 1 10 40 choosing).1.db
      choosing.issuers
      "10"
initiate_login-Redirected_example =
    initiate_login-Redirected ⦃env = clock⦄ outside google 1 10 40 choosing "10" initiated

abbrev away : World
away = with_provider (record (in_phase "first_factor") {
  oidc_provider_id = "40";
  oidc_nonce = "nonce";
  oidc_code_verifier = "verifier";
})

abbrev session : Session
session = Sessions.new_session 112 1 108 "token" (12 + hour) "aal1" ("oidc" ∷ [])

abbrev arrived : Oidc.CallbackResult
arrived = record { session = session; identity_id = 108; is_new = true }

returned : (Oidc.handle_callback ⦃env = clock⦄ outside google 1 "10" "nonce" away).0 ≡ ok arrived
unfolding Oidc.handle_callback Oidc.authenticate Oidc.verified_claims Oidc.resolve_identity
    Oidc.found_or_provisioned Oidc.provision Oidc.complete Client.get_oidc_provider
    Client.cached_or_loaded Client.remembered Client.ask Client.answered Providers.get
    Schemas.ensure_default Schemas.ensured Schemas.get_active Schemas.insert_default
    Schemas.created_or_refetched Identities.create_identity Identities.create_credential
    Identities.get_by_identifier Policies.get Sessions.create Flows.update Flows.affected Flows.get
    Flows.check_expiry require_pending require some_or parse_session_ttl effects
returned = refl

handle_callback-Accepted_example :
    Accepted outside google 1 "10" "nonce" away
      (Oidc.handle_callback ⦃env = clock⦄ outside google 1 "10" "nonce" away).1.db
      arrived
handle_callback-Accepted_example =
    handle_callback-Accepted ⦃env = clock⦄ outside google 1 "10" "nonce" away arrived returned
