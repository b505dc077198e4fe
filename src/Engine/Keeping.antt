-- ===== src/Engine/Keeping.antt =====
-- The shared guards keep every relation between tables.
use enterprise_kratos.Base.{String, Bool, true, false, Option, none, some}
use enterprise_kratos.Errors.{Error}
use enterprise_kratos.Flow.{Flow}
use enterprise_kratos.Store.{Tables, M, effects, ◌>>=◌}
use enterprise_kratos.Store.Frame.{IsOrder, Keeps, Keeps-done, Keeps-fail}
use enterprise_kratos.Authenticator.{Authenticator}
use enterprise_kratos.Authenticator.Registry.{Registry, get}
use enterprise_kratos.Authenticator.Keeping.{KeepsAll, EachKeeps, get-elim}
use enterprise_kratos.Engine.{require, require_pending, some_or, returned}

module _ {S : Tables → Tables → Type 0} (o : IsOrder S) where
  pub Keeps-require : (b : Bool) (e : Error) → Keeps S (require b e)
  unfolding require
  Keeps-require true e = Keeps-done o tt
  Keeps-require false e = Keeps-fail o e

  pub Keeps-some_or {ℓ} : {A : Type ℓ} (e : Error) (a : Option A) → Keeps S (some_or e a)
  unfolding some_or
  Keeps-some_or e none = Keeps-fail o e
  Keeps-some_or e (some a) = Keeps-done o a

  -- What follows the lookup of a registered authenticator may rely on what it keeps.
  pub Keeps-returned_get {ℓ} :
      {B : Type ℓ} {f : Authenticator → M B} (id : String) (reg : Registry)
      → EachKeeps S reg
      → ((a : Authenticator) → KeepsAll S a → Keeps S (f a))
      → Keeps S (returned (get id reg) >>= f)
  unfolding returned effects
  Keeps-returned_get {f} id reg each k =
      get-elim {S = S} (λ r. Keeps S (returned r >>= f)) id reg each
        (λ e. record { keeps = λ w. o.same w.db })
        (λ a ka. record { keeps = λ w. (k a ka).keeps w })

  pub Keeps-require_pending : (f : Flow) → Keeps S (require_pending f)
  unfolding require_pending
  Keeps-require_pending f = Keeps-require _ _

pub ruleset guards = (Keeps-require, Keeps-require_pending, Keeps-some_or)
