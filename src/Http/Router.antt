-- ===== src/Http/Router.antt =====
-- The routes of the handlers' `Mount`, below the middleware that resolves the tenant
-- (cmd/idpd/main.go). A panic is answered by chi's `Recoverer`, and stays a panic here.
use enterprise_kratos.Base.{Option, List, [], ◌∷◌}
use enterprise_kratos.External.{External}
use enterprise_kratos.Store.{Env, World}
use enterprise_kratos.Authenticator.Registry.{Registry}
use enterprise_kratos.Oidc.Client.{OidcClient}
use enterprise_kratos.Http.{HttpRequest, Handler, Hydra}
use enterprise_kratos.Http.Login as LoginHandler
use enterprise_kratos.Http.Accounts
use enterprise_kratos.Http.Admin

pub data Route : Type 0 where
  login_init login_get login_submit : Route
  registration_init registration_get registration_submit : Route
  recovery_init recovery_get recovery_submit : Route
  verification_get verification_submit : Route
  settings_init settings_get settings_submit : Route
  whoami logout : Route
  provider_create provider_list provider_get provider_delete provider_set_enabled : Route
  oidc_initiate oidc_callback : Route

module _ ⦃env : Env⦄ (ext : External) (client : OidcClient) (reg : Registry)
    (hydra : Option Hydra) where
  -- The handler that a route is mounted on.
  unfoldable pub handler_of : Route → Handler
  handler_of login_init = LoginHandler.login_init ext reg
  handler_of login_get = LoginHandler.login_get ext reg
  handler_of login_submit = LoginHandler.login_submit ext reg hydra
  handler_of registration_init = LoginHandler.registration_init ext reg
  handler_of registration_get = LoginHandler.registration_get ext reg
  handler_of registration_submit = LoginHandler.registration_submit ext reg
  handler_of recovery_init = Accounts.recovery_init ext
  handler_of recovery_get = Accounts.recovery_get ext
  handler_of recovery_submit = Accounts.recovery_submit ext
  handler_of verification_get = Accounts.verification_get ext
  handler_of verification_submit = Accounts.verification_submit ext
  handler_of settings_init = Accounts.settings_init ext reg
  handler_of settings_get = Accounts.settings_get ext reg
  handler_of settings_submit = Accounts.settings_submit ext reg
  handler_of whoami = Accounts.whoami ext
  handler_of logout = Accounts.logout ext
  handler_of provider_create = Admin.provider_create ext
  handler_of provider_list = Admin.provider_list ext
  handler_of provider_get = Admin.provider_get ext
  handler_of provider_delete = Admin.provider_delete ext
  handler_of provider_set_enabled = Admin.provider_set_enabled ext
  handler_of oidc_initiate = Admin.oidc_initiate ext client
  handler_of oidc_callback = Admin.oidc_callback ext client

  -- A request to a route, its tenant named by the slug in the path.
  unfoldable pub handle : Route → Handler
  unfolding handler_of
  handle route = Admin.resolver (handler_of route)

  -- A history of requests, whatever they are answered.
  unfoldable pub handle_all : List (Route × HttpRequest) → World → World
  unfolding handle
  handle_all [] w = w
  handle_all ((route, r) ∷ rest) w = handle_all rest (handle route r w).1
