-- ===== src/Lifetimes/Histories.antt =====
-- Any history of calls, of any tenants, keeps the rows.
use enterprise_kratos.Base.{Uuid, List, [], ◌∷◌}
use enterprise_kratos.External.{External}
use enterprise_kratos.Store.{Env, World}
use enterprise_kratos.Authenticator.Registry.{Registry}
use enterprise_kratos.Authenticator.Keeping.{EachKeeps}
use enterprise_kratos.Oidc.Client.{OidcClient}
use enterprise_kratos.Requests.{Request, serve_all}
use enterprise_kratos.Requests.Keeping.{EachHasWrites, serve_all-keeps}
use enterprise_kratos.Lifetimes.{Later, Later-IsOrder}
use enterprise_kratos.Lifetimes.Writes.{Later-HasWrites}

module _ ⦃env : Env⦄ (ext : External) (client : OidcClient) (reg : Registry)
    (each : EachKeeps Later reg) where
  every-HasWrites :
      (rs : List (Uuid × Request)) → EachHasWrites Later-IsOrder ext client reg each rs
  every-HasWrites [] = tt
  every-HasWrites ((t, r) ∷ rs) = (Later-HasWrites t, every-HasWrites rs)

  -- Whatever calls are made for whatever tenants and whatever calls of the database fail, with
  -- authenticators that do the same: no flow, identity, credential or session is removed; a session
  -- stays as it is but for a revocation, so it is never extended, reactivated or given to another
  -- identity; a flow keeps its type and its expiry; an identity keeps its schema; and a credential
  -- keeps its type and its identity.
  pub serve_all-Later :
      (rs : List (Uuid × Request)) (w : World) → Later w.db (serve_all ext client reg rs w).db
  serve_all-Later rs w = serve_all-keeps Later-IsOrder ext client reg each rs (every-HasWrites rs) w
