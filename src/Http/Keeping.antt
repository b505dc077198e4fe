-- ===== src/Http/Keeping.antt =====
-- The handlers write only what the stores, the engines and the authenticators write.
use enterprise_kratos.Base.{String, Option, none, some, ◌⊎◌, inl, inr}
use enterprise_kratos.Identity.{Session}
use enterprise_kratos.Tenant.{Tenant}
use enterprise_kratos.External.{External}
use enterprise_kratos.Errors.{Error}
use enterprise_kratos.Store.{Tables, Env, M}
use enterprise_kratos.Store.Frame.{IsOrder, Keeps, Keeps-done, keeping}
use enterprise_kratos.Store.Writes.{HasWrites}
use enterprise_kratos.Store.Keeping.{stores}
use enterprise_kratos.Store.Providers
use enterprise_kratos.Store.Providers.Keeping as ProvidersKeeping
use enterprise_kratos.Authenticator.Registry.{Registry}
use enterprise_kratos.Authenticator.Keeping.{EachKeeps}
use enterprise_kratos.Login as LoginEngine
use enterprise_kratos.Login.Keeping as LoginKeeping
use enterprise_kratos.Registration as RegistrationEngine
use enterprise_kratos.Registration.Keeping as RegistrationKeeping
use enterprise_kratos.Recovery
use enterprise_kratos.Recovery.Keeping as RecoveryKeeping
use enterprise_kratos.Settings
use enterprise_kratos.Settings.Keeping as SettingsKeeping
use enterprise_kratos.Verification
use enterprise_kratos.Verification.Keeping as VerificationKeeping
use enterprise_kratos.Oidc.Client.{OidcClient}
use enterprise_kratos.Oidc.Keeping as OidcKeeping
use enterprise_kratos.Http.{HttpRequest, Response, Hydra}
use enterprise_kratos.Http.Answers.{some_or_refusal, given, answer, answering}
use enterprise_kratos.Http.Login as LoginHandler
use enterprise_kratos.Http.Accounts
use enterprise_kratos.Http.Admin
use enterprise_kratos.Http.Router
use enterprise_kratos.Http.Router.{Route}

module _ {S : Tables → Tables → Type 0} (o : IsOrder S) where
  Keeps-some_or_refusal {ℓ} :
      {A : Type ℓ} {k : A → M Response} (refused : Response)
      → ((a : A) → Keeps S (k a))
      → (x : Option A) → Keeps S (some_or_refusal refused k x)
  Keeps-some_or_refusal refused h none = Keeps-done o refused
  Keeps-some_or_refusal refused h (some a) = h a

  Keeps-given :
      {k : M Response} (value message : String) → Keeps S k → Keeps S (given value message k)
  Keeps-given value message h = search keeping

  answer-keeps {ℓ} :
      {A : Type ℓ} {k : A → M Response} (refused : Error → Response)
      → ((a : A) → Keeps S (k a))
      → (x : Error ⊎ A) → Keeps S (answer refused k x)
  answer-keeps refused h (inl e) = Keeps-done o (refused e)
  answer-keeps refused h (inr a) = h a

  Keeps-answering {ℓ} :
      {A : Type ℓ} {m : M A} {k : A → M Response} (refused : Error → Response)
      → Keeps S m
      → ((a : A) → Keeps S (k a))
      → Keeps S (answering m refused k)
  unfolding answering
  Keeps-answering refused m h = search (keeping, answer-keeps)

ruleset answers = (Keeps-some_or_refusal, Keeps-given, Keeps-answering)

module _ ⦃env : Env⦄ {S : Tables → Tables → Type 0} (o : IsOrder S) (ext : External)
    (client : OidcClient) (reg : Registry) (hydra : Option Hydra) (each : EachKeeps S reg)
    (t : Tenant) (h : HasWrites S t.id) where
  accepted_by-keeps :
      (y : Hydra) (challenge : String) (result : LoginEngine.SubmitResult) (s : Session)
      → Keeps S (LoginHandler.accepted_by ext y challenge t result s)
  unfolding LoginHandler.accepted_by
  accepted_by-keeps y challenge result s = record { keeps = λ w. o.same w.db }

  signed_in-keeps :
      (y : Option Hydra) (r : HttpRequest) (result : LoginEngine.SubmitResult) (s : Session)
      → Keeps S (LoginHandler.signed_in ext y r t result s)
  unfolding LoginHandler.signed_in
  signed_in-keeps none r result s = Keeps-done o _
  signed_in-keeps (some y) r result s = search (keeping, accepted_by-keeps)

  login_submitted-keeps :
      (r : HttpRequest) (result : LoginEngine.SubmitResult)
      → Keeps S (LoginHandler.login_submitted ext reg hydra r t result)
  unfolding LoginHandler.login_submitted
  login_submitted-keeps r result = search (keeping, answers, stores, signed_in-keeps) depth 14

  registration_submitted-keeps :
      (result : RegistrationEngine.SubmitResult)
      → Keeps S (LoginHandler.registration_submitted ext reg t result)
  unfolding LoginHandler.registration_submitted
  registration_submitted-keeps result = search (keeping, answers, stores) depth 14

  with_session-keeps :
      (r : HttpRequest) {k : Session → M Response}
      → ((s : Session) → Keeps S (k s))
      → Keeps S (Accounts.with_session ext r t k)
  unfolding Accounts.with_session
  with_session-keeps r q = search (keeping, answers, stores) depth 14

  login_init-keeps :
      (r : HttpRequest) → Keeps S (LoginHandler.login_init ext reg (record r { tenant = some t }))
  unfolding LoginHandler.login_init
  login_init-keeps r = search (keeping, answers, stores, LoginKeeping.init_flow-keeps) depth 20

  login_get-keeps :
      (r : HttpRequest) → Keeps S (LoginHandler.login_get ext reg (record r { tenant = some t }))
  unfolding LoginHandler.login_get LoginEngine.get_flow
  login_get-keeps r = search (keeping, answers, stores) depth 20

  login_submit-keeps :
      (r : HttpRequest)
      → Keeps S (LoginHandler.login_submit ext reg hydra (record r { tenant = some t }))
  unfolding LoginHandler.login_submit
  login_submit-keeps r =
      search (keeping, answers, stores, LoginKeeping.submit_flow-keeps, login_submitted-keeps) depth
        20

  registration_init-keeps :
      (r : HttpRequest)
      → Keeps S (LoginHandler.registration_init ext reg (record r { tenant = some t }))
  unfolding LoginHandler.registration_init
  registration_init-keeps r =
      search (keeping, answers, stores, RegistrationKeeping.init_flow-keeps) depth 20

  registration_get-keeps :
      (r : HttpRequest)
      → Keeps S (LoginHandler.registration_get ext reg (record r { tenant = some t }))
  unfolding LoginHandler.registration_get RegistrationEngine.get_flow
  registration_get-keeps r = search (keeping, answers, stores) depth 20

  registration_submit-keeps :
      (r : HttpRequest)
      → Keeps S (LoginHandler.registration_submit ext reg (record r { tenant = some t }))
  unfolding LoginHandler.registration_submit
  registration_submit-keeps r =
      search
        (
          keeping, answers, stores, RegistrationKeeping.submit_flow-keeps,
          registration_submitted-keeps,
        )
        depth 20

  recovery_init-keeps :
      (r : HttpRequest) → Keeps S (Accounts.recovery_init ext (record r { tenant = some t }))
  unfolding Accounts.recovery_init
  recovery_init-keeps r =
      search (keeping, answers, stores, RecoveryKeeping.init_flow-keeps) depth 20

  recovery_get-keeps :
      (r : HttpRequest) → Keeps S (Accounts.recovery_get ext (record r { tenant = some t }))
  unfolding Accounts.recovery_get Recovery.get_flow
  recovery_get-keeps r = search (keeping, answers, stores, RecoveryKeeping.use_token-keeps) depth 20

  recovery_submit-keeps :
      (r : HttpRequest) → Keeps S (Accounts.recovery_submit ext (record r { tenant = some t }))
  unfolding Accounts.recovery_submit
  recovery_submit-keeps r =
      search (keeping, answers, stores, RecoveryKeeping.request_recovery-keeps) depth 20

  verification_get-keeps :
      (r : HttpRequest) → Keeps S (Accounts.verification_get ext (record r { tenant = some t }))
  unfolding Accounts.verification_get Verification.get_flow
  verification_get-keeps r =
      search (keeping, answers, stores, VerificationKeeping.submit_flow-keeps) depth 20

  verification_submit-keeps :
      (r : HttpRequest) → Keeps S (Accounts.verification_submit ext (record r { tenant = some t }))
  unfolding Accounts.verification_submit
  verification_submit-keeps r =
      search (keeping, answers, stores, VerificationKeeping.submit_flow-keeps) depth 20

  settings_init-keeps :
      (r : HttpRequest) → Keeps S (Accounts.settings_init ext reg (record r { tenant = some t }))
  unfolding Accounts.settings_init
  settings_init-keeps r =
      search (keeping, answers, stores, SettingsKeeping.init_flow-keeps, with_session-keeps) depth
        20

  settings_get-keeps :
      (r : HttpRequest) → Keeps S (Accounts.settings_get ext reg (record r { tenant = some t }))
  unfolding Accounts.settings_get Settings.get_flow
  settings_get-keeps r = search (keeping, answers, stores) depth 20

  settings_submit-keeps :
      (r : HttpRequest) → Keeps S (Accounts.settings_submit ext reg (record r { tenant = some t }))
  unfolding Accounts.settings_submit
  settings_submit-keeps r =
      search (keeping, answers, stores, SettingsKeeping.submit_flow-keeps, with_session-keeps) depth
        20

  whoami-keeps : (r : HttpRequest) → Keeps S (Accounts.whoami ext (record r { tenant = some t }))
  unfolding Accounts.whoami
  whoami-keeps r = search (keeping, answers, stores) depth 20

  logout-keeps : (r : HttpRequest) → Keeps S (Accounts.logout ext (record r { tenant = some t }))
  unfolding Accounts.logout
  logout-keeps r = search (keeping, answers, stores) depth 20

  provider_create-keeps :
      (r : HttpRequest) → Keeps S (Admin.provider_create ext (record r { tenant = some t }))
  unfolding Admin.provider_create
  provider_create-keeps r =
      search (keeping, answers, stores, ProvidersKeeping.create-keeps) depth 20

  provider_list-keeps :
      (r : HttpRequest) → Keeps S (Admin.provider_list ext (record r { tenant = some t }))
  unfolding Admin.provider_list Providers.list
  provider_list-keeps r = search (keeping, answers, stores) depth 20

  provider_get-keeps :
      (r : HttpRequest) → Keeps S (Admin.provider_get ext (record r { tenant = some t }))
  unfolding Admin.provider_get
  provider_get-keeps r = search (keeping, answers, stores, ProvidersKeeping.get-keeps) depth 20

  provider_delete-keeps :
      (r : HttpRequest) → Keeps S (Admin.provider_delete ext (record r { tenant = some t }))
  unfolding Admin.provider_delete
  provider_delete-keeps r =
      search (keeping, answers, stores, ProvidersKeeping.delete-keeps) depth 20

  provider_set_enabled-keeps :
      (r : HttpRequest) → Keeps S (Admin.provider_set_enabled ext (record r { tenant = some t }))
  unfolding Admin.provider_set_enabled
  provider_set_enabled-keeps r =
      search (keeping, answers, stores, ProvidersKeeping.set_enabled-keeps) depth 20

  oidc_initiate-keeps :
      (r : HttpRequest) → Keeps S (Admin.oidc_initiate ext client (record r { tenant = some t }))
  unfolding Admin.oidc_initiate
  oidc_initiate-keeps r =
      search (keeping, answers, stores, OidcKeeping.initiate_login-keeps) depth 20

  oidc_callback-keeps :
      (r : HttpRequest) → Keeps S (Admin.oidc_callback ext client (record r { tenant = some t }))
  unfolding Admin.oidc_callback
  oidc_callback-keeps r =
      search (keeping, answers, stores, OidcKeeping.handle_callback-keeps) depth 20

  pub handler_of-keeps :
      (route : Route) (r : HttpRequest)
      → Keeps S (Router.handler_of ext client reg hydra route (record r { tenant = some t }))
  unfolding Router.handler_of
  handler_of-keeps Route.login_init r = login_init-keeps r
  handler_of-keeps Route.login_get r = login_get-keeps r
  handler_of-keeps Route.login_submit r = login_submit-keeps r
  handler_of-keeps Route.registration_init r = registration_init-keeps r
  handler_of-keeps Route.registration_get r = registration_get-keeps r
  handler_of-keeps Route.registration_submit r = registration_submit-keeps r
  handler_of-keeps Route.recovery_init r = recovery_init-keeps r
  handler_of-keeps Route.recovery_get r = recovery_get-keeps r
  handler_of-keeps Route.recovery_submit r = recovery_submit-keeps r
  handler_of-keeps Route.verification_get r = verification_get-keeps r
  handler_of-keeps Route.verification_submit r = verification_submit-keeps r
  handler_of-keeps Route.settings_init r = settings_init-keeps r
  handler_of-keeps Route.settings_get r = settings_get-keeps r
  handler_of-keeps Route.settings_submit r = settings_submit-keeps r
  handler_of-keeps Route.whoami r = whoami-keeps r
  handler_of-keeps Route.logout r = logout-keeps r
  handler_of-keeps Route.provider_create r = provider_create-keeps r
  handler_of-keeps Route.provider_list r = provider_list-keeps r
  handler_of-keeps Route.provider_get r = provider_get-keeps r
  handler_of-keeps Route.provider_delete r = provider_delete-keeps r
  handler_of-keeps Route.provider_set_enabled r = provider_set_enabled-keeps r
  handler_of-keeps Route.oidc_initiate r = oidc_initiate-keeps r
  handler_of-keeps Route.oidc_callback r = oidc_callback-keeps r
