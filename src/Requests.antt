-- ===== src/Requests.antt =====
-- The calls of the engines, of the session store and of the provider store that the HTTP handlers
-- make, one constructor for each, and what a history of such calls leaves behind. The HTTP layer is
-- not modelled.
pub mod Keeping
use enterprise_kratos.Base.{Uuid, Bool, Json, String, List, [], ◌∷◌, ℕ}
use enterprise_kratos.External.{External}
use enterprise_kratos.Store.{Env, World, M}
use enterprise_kratos.Store.Flows
use enterprise_kratos.Store.Sessions
use enterprise_kratos.Store.Providers
use enterprise_kratos.Authenticator.Registry.{Registry}
use enterprise_kratos.Login
use enterprise_kratos.Registration
use enterprise_kratos.Recovery
use enterprise_kratos.Settings
use enterprise_kratos.Verification
use enterprise_kratos.Oidc
use enterprise_kratos.Oidc.Client.{OidcClient}

pub data Request : Type 0 where
  login_init registration_init recovery_init : Request
  -- `GetFlow` of every engine
  get_flow : Uuid → Request
  login_submit registration_submit : Uuid → String → List (String × String) → Request
  recovery_request recovery_use_token verification_submit : Uuid → String → Request
  settings_init : Uuid → Request
  settings_submit : Uuid → Uuid → String → List (String × String) → Request
  session_create : Uuid → String → List String → ℕ → Request
  session_get session_logout : String → Request
  session_revoke : Uuid → Request
  oidc_initiate : Uuid → Uuid → Request
  -- by the state and the code
  oidc_callback : String → String → Request
  provider_create : String → String → Json → Request
  provider_delete : Uuid → Request
  provider_set_enabled : Uuid → Bool → Request

module _ ⦃env : Env⦄ (ext : External) (client : OidcClient) (reg : Registry) where
  -- The world after a call for a tenant, whatever it answers.
  unfoldable pub serve : Uuid → Request → World → World
  serve t login_init w = (Login.init_flow ext reg t w).1
  serve t registration_init w = (Registration.init_flow ext reg t w).1
  serve t recovery_init w = (Recovery.init_flow t w).1
  serve t (get_flow id) w = (Flows.get t id w).1
  serve t (login_submit id method values) w = (Login.submit_flow ext reg t id method values w).1
  serve t (registration_submit id method values) w =
      (Registration.submit_flow ext reg t id method values w).1
  serve t (recovery_request id email) w = (Recovery.request_recovery ext t id email w).1
  serve t (recovery_use_token id token) w = (Recovery.use_token ext t id token w).1
  serve t (verification_submit id token) w = (Verification.submit_flow t id token w).1
  serve t (settings_init identity) w = (Settings.init_flow t identity w).1
  serve t (settings_submit id identity method values) w =
      (Settings.submit_flow reg t id identity method values w).1
  serve t (session_create identity aal amr ttl) w = (Sessions.create t identity aal amr ttl w).1
  serve t (session_get token) w = (Sessions.get_by_token t token w).1
  serve t (session_logout token) w = (Sessions.revoke_by_token t token w).1
  serve t (session_revoke id) w = (Sessions.revoke t id w).1
  serve t (oidc_initiate id provider) w = (Oidc.initiate_login ext client t id provider w).1
  serve t (oidc_callback state code) w = (Oidc.handle_callback ext client t state code w).1
  serve t (provider_create kind name config) w = (Providers.create t kind name config w).1
  serve t (provider_delete id) w = (Providers.delete t id w).1
  serve t (provider_set_enabled id enabled) w = (Providers.set_enabled t id enabled w).1

  -- A history, each call with its tenant.
  unfoldable pub serve_all : List (Uuid × Request) → World → World
  unfolding serve
  serve_all [] w = w
  serve_all ((t, r) ∷ rs) w = serve_all rs (serve t r w)
