-- ===== src/Engine/Outcome.antt =====
-- Reading a successful answer backwards through the guards of the engines.
use enterprise_kratos.Base.{Bool, true, false, Option, none, some, ◌⊎◌, inl, inr, ◌≡◌, refl}
use enterprise_kratos.Flow.{Flow, is_pending}
use enterprise_kratos.Errors.{Error}
use enterprise_kratos.Store.{World, ok, M, effects, ◌>>=◌, ◌>>◌}
use enterprise_kratos.Engine.{require, require_pending, some_or, returned}

module _ {ℓ} {B : Type ℓ} (w : World) {b : B} where
  pub require-eq-ok :
      (c : Bool) (e : Error) (k : M B)
      → ((require c e >> k) w).0 ≡ ok b
      → (c ≡ true) × ((k w).0 ≡ ok b) × ((require c e >> k) w ≡ k w)
  unfolding require effects
  require-eq-ok true e k h = (refl, h, refl)
  require-eq-ok false e k h = cc

  pub require_pending-eq-ok :
      (f : Flow) (k : M B)
      → ((require_pending f >> k) w).0 ≡ ok b
      → (is_pending f.state ≡ true) × ((k w).0 ≡ ok b) × ((require_pending f >> k) w ≡ k w)
  unfolding require_pending
  require_pending-eq-ok f k h = require-eq-ok _ _ k h

  pub some_or-eq-ok {κ} :
      {A : Type κ} (e : Error) (o : Option A) (k : A → M B)
      → ((some_or e o >>= k) w).0 ≡ ok b
      → (a : A) × (o ≡ some a) × ((k a w).0 ≡ ok b) × ((some_or e o >>= k) w ≡ k a w)
  unfolding some_or effects
  some_or-eq-ok e none k h = cc
  some_or-eq-ok e (some a) k h = (a, refl, h, refl)

  pub returned-eq-ok {κ} :
      {A : Type κ} (x : Error ⊎ A) (k : A → M B)
      → ((returned x >>= k) w).0 ≡ ok b
      → (a : A) × (x ≡ inr a) × ((k a w).0 ≡ ok b) × ((returned x >>= k) w ≡ k a w)
  unfolding returned effects
  returned-eq-ok (inl e) k h = cc
  returned-eq-ok (inr a) k h = (a, refl, h, refl)

-- The guards that let through.
module _ {ℓ} {B : Type ℓ} (w : World) where
  pub require-of : (c : Bool) (e : Error) (k : M B) → c ≡ true → (require c e >> k) w ≡ k w
  unfolding require effects
  require-of true e k h = refl
  require-of false e k h = cc

  pub require_pending-of :
      (f : Flow) (k : M B) → is_pending f.state ≡ true → (require_pending f >> k) w ≡ k w
  unfolding require_pending
  require_pending-of f k h = require-of _ _ k h

  pub returned-of {κ} :
      {A : Type κ} (x : Error ⊎ A) (a : A) (k : A → M B) → x ≡ inr a → (returned x >>= k) w ≡ k a w
  unfolding returned effects
  returned-of (inl e) a k h = cc
  returned-of (inr b) a k h = cc

  pub some_or-of {κ} :
      {A : Type κ} (e : Error) (o : Option A) (a : A) (k : A → M B)
      → o ≡ some a
      → (some_or e o >>= k) w ≡ k a w
  unfolding some_or effects
  some_or-of e none a k h = cc
  some_or-of e (some b) a k h = cc
