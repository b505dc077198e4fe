-- ===== src/Examples/Web.antt =====
-- Requests to the handlers: a session that is shown, a change of settings, and another tenant's
-- requests.
use enterprise_kratos.Base.{
  none, some, List, [], ◌∷◌, ◌≡◌, refl, str, obj, end, member, ◌≢◌, arith, find, false, str_eq,
}
use enterprise_kratos.Flow.{in_phase, settings}
use enterprise_kratos.Tenant.{Tenant, active}
use enterprise_kratos.Identity.{Session}
use enterprise_kratos.Store.{World, ok, effects}
use enterprise_kratos.Store.Flows
use enterprise_kratos.Store.Sessions
use enterprise_kratos.Store.Identities
use enterprise_kratos.Store.Tenants
use enterprise_kratos.Engine.{require, require_pending}
use enterprise_kratos.Settings
use enterprise_kratos.Isolation.{SameRows}
use enterprise_kratos.Isolation.Web.{handle_all-SameRows}
use enterprise_kratos.Http.{HttpRequest}
use enterprise_kratos.Http.Answers.{answering}
use enterprise_kratos.Http.Decoding.{extract_token}
use enterprise_kratos.Http.Accounts
use enterprise_kratos.Http.Login as Pages
use enterprise_kratos.Http.Reading.{Shown, gets-Shown}
use enterprise_kratos.Http.Router
use enterprise_kratos.Http.Router.{Route}
use enterprise_kratos.Http.Sessions.{
  IsValid, Authorized, whoami-Valid, settings_submit-Authorized, settings-Refused, Refused,
}
use enterprise_kratos.Examples.Setting.{
  clock, clock-IsCalm, outside, google, methods, methods-SameRows, flow_of, with_flow,
}

abbrev acme : Tenant
acme = record { id = 1; slug = "acme"; name = "Acme"; state = active }

abbrev session : Session
session = Sessions.new_session 50 1 20 "bearer" 500 "aal1" ("pwd" ∷ [])

abbrev pub site : World
site = record (with_flow (flow_of settings (some 20) (in_phase "settings"))) {
  db = record ((with_flow (flow_of settings (some 20) (in_phase "settings"))).db) {
    sessions = session ∷ [];
    tenants = acme ∷ [];
  };
}

abbrev visit : HttpRequest
visit = record {
  tenant = none;
  params = ("tenant-slug", "acme") ∷ ("flowId", "10") ∷ [];
  query = [];
  headers = ("X-Session-Token", "bearer") ∷ [];
  body = some (obj (member "method" (str "profile") (member "traits.email" (str "b@x.org") end)));
}

shown :
    (Accounts.whoami ⦃env = clock⦄ outside (record visit { tenant = some acme }) site).0
    ≡ ok (Accounts.session_body ⦃env = clock⦄ outside session)
unfolding Accounts.whoami answering Sessions.get_by_token Sessions.check_session effects
shown = refl

whoami-Valid_example :
    (s : Session) × (str_eq (extract_token visit) "" ≡ false)
    × IsValid 1 (extract_token visit) (clock.now 1) site.db s
    × (Accounts.session_body ⦃env = clock⦄ outside session
        ≡ Accounts.session_body ⦃env = clock⦄ outside s)
    × ((Accounts.whoami ⦃env = clock⦄ outside (record visit { tenant = some acme }) site).1.db
        ≡ site.db)
whoami-Valid_example =
    whoami-Valid ⦃env = clock⦄ outside acme visit site
      (Accounts.session_body ⦃env = clock⦄ outside session) shown refl

submitted :
    (Accounts.settings_submit ⦃env = clock⦄ outside methods
      (record visit { tenant = some acme })
      site).0
    ≡ ok (Accounts.state_body "success")
unfolding Accounts.settings_submit Accounts.with_session answering Sessions.get_by_token
    Sessions.check_session Settings.submit_flow Settings.submit_method Settings.submit_profile
    Settings.profile_traits Identities.get_identity Identities.update_traits Identities.affected
    Flows.update Flows.affected Flows.get Flows.check_expiry require_pending require effects
submitted = refl

settings_submit-Authorized_example :
    Authorized ⦃env = clock⦄ outside methods acme visit site
      (Accounts.settings_submit ⦃env = clock⦄ outside methods
        (record visit { tenant = some acme })
        site).1.db
settings_submit-Authorized_example =
    settings_submit-Authorized ⦃env = clock⦄ outside methods acme visit site
      (Accounts.state_body "success") submitted refl

gets-Shown_example :
    Shown 1 1 site.db
      (some 10)
      (Pages.login_get ⦃env = clock⦄ outside methods (record visit { tenant = some acme }) site)
    × Shown 1 1 site.db (some 10) (
        Pages.registration_get ⦃env = clock⦄ outside methods
          (record visit { tenant = some acme })
          site)
    × Shown 1 1 site.db (some 10) (
        Accounts.settings_get ⦃env = clock⦄ outside methods
          (record visit { tenant = some acme })
          site)
    × Shown 1 1 site.db
        (some 10)
        (Accounts.recovery_get ⦃env = clock⦄ outside (record visit { tenant = some acme }) site)
    × Shown 1 1 site.db
        (some 10)
        (Accounts.verification_get ⦃env = clock⦄ outside (record visit { tenant = some acme }) site)
gets-Shown_example = gets-Shown ⦃env = clock⦄ outside methods clock-IsCalm acme visit site refl

abbrev stranger : HttpRequest
stranger = record visit { headers = [] }

nobody : (s : Session) → ¬ IsValid 1 (extract_token stranger) (clock.now 1) site.db s
nobody s h = absurd (ground arith)

settings-Refused_example :
    Refused site (
      Accounts.settings_init ⦃env = clock⦄ outside methods
        (record stranger { tenant = some acme })
        site)
    × Refused site (
        Accounts.settings_submit ⦃env = clock⦄ outside methods
          (record stranger { tenant = some acme })
          site)
settings-Refused_example = settings-Refused ⦃env = clock⦄ outside methods acme stranger site nobody

abbrev pub requests : List (Route × HttpRequest)
requests = (Route.settings_submit, visit) ∷ (Route.login_init, visit) ∷ []

pub acme_only : (u : Tenant) → find (Tenants.has_slug "acme") (acme ∷ []) ≡ some u → 2 ≢ u.id
acme_only u h = ground arith

handle_all-SameRows_example :
    SameRows 2 site.db
      (Router.handle_all ⦃env = clock⦄ outside google methods none requests site).db
handle_all-SameRows_example =
    handle_all-SameRows ⦃env = clock⦄ outside google methods none 2 methods-SameRows requests site
      (acme_only, (acme_only, tt))
