-- ===== src/Isolation/Engines.antt =====
-- Histories of calls for other tenants keep a tenant's rows.
use enterprise_kratos.Base.{Uuid, List, [], ◌∷◌, ◌≢◌}
use enterprise_kratos.External.{External}
use enterprise_kratos.Store.{Env, World}
use enterprise_kratos.Authenticator.Registry.{Registry}
use enterprise_kratos.Authenticator.Keeping.{EachKeeps}
use enterprise_kratos.Isolation.{SameRows, SameRows-IsOrder}
use enterprise_kratos.Isolation.Writes.{SameRows-HasWrites}
use enterprise_kratos.Oidc.Client.{OidcClient}
use enterprise_kratos.Requests.{Request, serve_all}
use enterprise_kratos.Requests.Keeping.{EachHasWrites, serve_all-keeps}

-- None of the calls is for the tenant.
abbrev pub NoneFor : Uuid → List (Uuid × Request) → Type 0
NoneFor t [] = Unit
NoneFor t ((u, r) ∷ rs) = (t ≢ u) × NoneFor t rs

module _ ⦃env : Env⦄ (ext : External) (client : OidcClient) (reg : Registry) (t : Uuid)
    (each : EachKeeps (SameRows t) reg) where
  each-HasWrites :
      (rs : List (Uuid × Request))
      → NoneFor t rs
      → EachHasWrites (SameRows-IsOrder t) ext client reg each rs
  each-HasWrites [] h = tt
  each-HasWrites ((u, r) ∷ rs) (other, h) = (SameRows-HasWrites other, each-HasWrites rs h)

  -- For every tenant t, registry of authenticators that keep t's rows, environment (so also when
  -- calls fail) and history of calls for tenants other than t: the flows, identities, credentials,
  -- sessions, schemas, SSO providers and the policy of t, and the table of tenants, are the same
  -- after the history as before it.
  pub serve_all-SameRows :
      (rs : List (Uuid × Request))
      → NoneFor t rs
      → (w : World) → SameRows t w.db (serve_all ext client reg rs w).db
  serve_all-SameRows rs h w =
      serve_all-keeps (SameRows-IsOrder t) ext client reg each rs (each-HasWrites rs h) w
