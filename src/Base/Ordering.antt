-- ===== src/Base/Ordering.antt =====
-- ORDER BY as an insertion sort: sorted, and with the same rows.
use mathlib.Core.List.{List, [], ◌∷◌}
use mathlib.Core.Bool.{Bool}
use enterprise_kratos.Base.Tests.{if◌then◌else◌}

module _ {ℓ} {A : Type ℓ} (leb : A → A → Bool) where
  unfoldable pub insert_sorted : A → List A → List A
  insert_sorted x [] = x ∷ []
  insert_sorted x (y ∷ ys) =
      let rest = insert_sorted x ys in if leb x y then x ∷ y ∷ ys else y ∷ rest

  -- ORDER BY.
  unfoldable pub order_by : List A → List A
  unfolding insert_sorted
  order_by [] = []
  order_by (x ∷ xs) = insert_sorted x (order_by xs)
