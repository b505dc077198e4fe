-- ===== src/Isolation/Web.antt =====
-- Tenants are isolated behind the HTTP handlers: a request reaches the tenant that its slug names.
use enterprise_kratos.Base.{
  Uuid, String, Option, some, List, [], ◌∷◌, ◌≢◌, ◌≡◌, refl, sym, subst, arith, find, value_of,
}
use enterprise_kratos.Tenant.{Tenant}
use enterprise_kratos.External.{External}
use enterprise_kratos.Store.{
  Tables, Env, World, Result, ok, err, panic, effects, attempted, continue,
}
use enterprise_kratos.Store.Frame.{IsOrder, Keeps}
use enterprise_kratos.Store.Tenants
use enterprise_kratos.Authenticator.Registry.{Registry}
use enterprise_kratos.Authenticator.Keeping.{EachKeeps}
use enterprise_kratos.Oidc.Client.{OidcClient}
use enterprise_kratos.Http.{HttpRequest, Handler, Hydra}
use enterprise_kratos.Http.Answers.{answer, answering}
use enterprise_kratos.Http.Admin
use enterprise_kratos.Http.Router
use enterprise_kratos.Http.Router.{Route}
use enterprise_kratos.Http.Keeping.{handler_of-keeps}
use enterprise_kratos.Isolation.{SameRows, SameRows-IsOrder}
use enterprise_kratos.Isolation.Writes.{SameRows-HasWrites}

abbrev pub slug_of : HttpRequest → String
slug_of r = value_of "tenant-slug" r.params

module _ {S : Tables → Tables → Type 0} (o : IsOrder S) (next : Handler) (r : HttpRequest) where
  resolved-keeps :
      (res : Result Tenant) (w : World)
      → ((u : Tenant) → res ≡ ok u → Keeps S (next (record r { tenant = some u })))
      → S w.db
          (continue
            (answer Admin.tenant_refusal (λ u. next (record r { tenant = some u })))
            (attempted res)
            w).1.db
  unfolding effects
  resolved-keeps (ok u) w k = (k u refl).keeps w
  resolved-keeps (err e) w k = o.same w.db
  resolved-keeps panic w k = o.same w.db

  found :
      ⦃env : Env⦄ (slug : String) (w : World) {u : Tenant}
      → (Tenants.get_by_slug slug w).0 ≡ ok u
      → find (Tenants.has_slug slug) w.db.tenants ≡ some u
  unfolding Tenants.get_by_slug effects
  found slug w h = ground arith

  unwritten : ⦃env : Env⦄ (slug : String) (w : World) → (Tenants.get_by_slug slug w).1.db ≡ w.db
  unfolding Tenants.get_by_slug effects
  unwritten slug w = ground arith

  pub resolver-keeps :
      ⦃env : Env⦄ (w : World)
      → ((u : Tenant)
          → find (Tenants.has_slug (slug_of r)) w.db.tenants ≡ some u
          → Keeps S (next (record r { tenant = some u })))
      → S w.db (Admin.resolver next r w).1.db
  unfolding Admin.resolver answering effects
  resolver-keeps w k =
      subst (λ db. S db (Admin.resolver next r w).1.db) (unwritten (slug_of r) w)
        (resolved-keeps (Tenants.get_by_slug (slug_of r) w).0 (Tenants.get_by_slug (slug_of r) w).1
          (λ u h. k u (found (slug_of r) w h)))

-- No slug of the requests names the tenant.
abbrev pub NoneReaches : Uuid → List Tenant → List (Route × HttpRequest) → Type 0
NoneReaches t tenants [] = Unit
NoneReaches t tenants ((route, r) ∷ rest) =
    ((u : Tenant) → find (Tenants.has_slug (slug_of r)) tenants ≡ some u → t ≢ u.id)
    × NoneReaches t tenants rest

module _ ⦃env : Env⦄ (ext : External) (client : OidcClient) (reg : Registry) (hydra : Option Hydra)
    (t : Uuid) (each : EachKeeps (SameRows t) reg) where
  handle-SameRows :
      (route : Route) (r : HttpRequest) (w : World)
      → ((u : Tenant) → find (Tenants.has_slug (slug_of r)) w.db.tenants ≡ some u → t ≢ u.id)
      → SameRows t w.db (Router.handle ext client reg hydra route r w).1.db
  unfolding Router.handle
  handle-SameRows route r w other =
      resolver-keeps (SameRows-IsOrder t) (Router.handler_of ext client reg hydra route) r w λ u h.
        handler_of-keeps (SameRows-IsOrder t) ext client reg hydra each u
          (SameRows-HasWrites (other u h)) route r

  -- For every tenant t, environment (so also when calls fail), identity providers, registry of
  -- authenticators that keep t's rows, and history of HTTP requests to the routes, none of which
  -- has in its path the slug of t in the table of tenants: the flows, identities, credentials,
  -- sessions, schemas, SSO providers and the policy of t, and the table of tenants, are the same
  -- after the history as before it.
  pub handle_all-SameRows :
      (rs : List (Route × HttpRequest)) (w : World)
      → NoneReaches t w.db.tenants rs
      → SameRows t w.db (Router.handle_all ext client reg hydra rs w).db
  unfolding Router.handle_all
  handle_all-SameRows [] w h = (SameRows-IsOrder t).same w.db
  handle_all-SameRows ((route, r) ∷ rs) w (other, h) =
      let w' = (Router.handle ext client reg hydra route r w).1 in
      let step = handle-SameRows route r w other in
      (SameRows-IsOrder t).then_ step
        (handle_all-SameRows rs w' (subst (λ ts. NoneReaches t ts rs) (sym step.tenants) h))
