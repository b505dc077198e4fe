-- ===== src/Base/Tables.antt =====
-- Tables as lists of rows: SELECT of one row, UPDATE, and the rows of one tenant. Go maps with
-- text keys are association lists.
use Prim.Native.String.{String}
use text.Mathlib.Text.{◌==◌ as str_eq}
use mathlib.Core.Path.{◌≡◌, refl}
use mathlib.Core.Logic.{◌⊎◌}
use mathlib.Core.Bool.{Bool, true, false, ◌||◌}
use mathlib.Core.Option.{Option, none, some}
use mathlib.Core.Option
use mathlib.Core.List.{List, [], ◌∷◌, ◌++◌}
use native.Mathlib.Omega.{arith}
use enterprise_kratos.Base.Tests.{if◌then◌else◌}

module _ {ℓ} {A : Type ℓ} where
  -- SELECT … WHERE p LIMIT 1.
  abbrev pub find : (A → Bool) → List A → Option A
  find p [] = none
  find p (x ∷ xs) = if p x then some x else find p xs

  -- SELECT … WHERE p.
  abbrev pub select : (A → Bool) → List A → List A
  select p [] = []
  select p (x ∷ xs) = let rest = select p xs in if p x then x ∷ rest else rest

  -- UPDATE … SET g WHERE p.
  abbrev pub update : (A → Bool) → (A → A) → List A → List A
  update p g [] = []
  update p g (x ∷ xs) = (if p x then g x else x) ∷ update p g xs

  -- DELETE … WHERE p.
  abbrev pub delete : (A → Bool) → List A → List A
  delete p [] = []
  delete p (x ∷ xs) = let rest = delete p xs in if p x then rest else x ∷ rest

  -- Whether an UPDATE or DELETE affects a row.
  abbrev pub any : (A → Bool) → List A → Bool
  any p [] = false
  any p (x ∷ xs) = p x || any p xs

  pub find-satisfies : (p : A → Bool) (xs : List A) (x : A) → find p xs ≡ some x → p x ≡ true
  find-satisfies p [] x h = ground arith
  find-satisfies p (y ∷ xs) x h = ground (arith, find-satisfies p xs x)

  pub any_of_find : (p : A → Bool) (xs : List A) (x : A) → find p xs ≡ some x → any p xs ≡ true
  any_of_find p [] x h = ground arith
  any_of_find p (y ∷ xs) x h = ground (arith, any_of_find p xs x)

  pub find_of_any : (p : A → Bool) (xs : List A) → find p xs ≡ none → any p xs ≡ false
  find_of_any p [] h = ground arith
  find_of_any p (y ∷ xs) h = ground (arith, find_of_any p xs)

  -- An update that keeps the key shows in the row that is found by it.
  pub find-update :
      (p : A → Bool) (g : A → A)
      → ((x : A) → p (g x) ≡ p x)
      → (xs : List A) → find p (update p g xs) ≡ Option.map g (find p xs)
  find-update p g keeps [] = refl
  find-update p g keeps (x ∷ xs) = ground (arith, keeps x, find-update p g keeps xs)

  -- It is enough that the rows it hits keep the key.
  pub find-update_hit :
      (p : A → Bool) (g : A → A)
      → ((x : A) → p x ≡ true → p (g x) ≡ true)
      → (xs : List A) → find p (update p g xs) ≡ Option.map g (find p xs)
  find-update_hit p g keeps [] = refl
  find-update_hit p g keeps (x ∷ xs) = ground (arith, keeps x, find-update_hit p g keeps xs)

  -- An update of other rows does not show.
  pub find-update_other :
      (q p : A → Bool) (g : A → A)
      → ((x : A) → p x ≡ true → q x ≡ false)
      → ((x : A) → p x ≡ true → q (g x) ≡ false)
      → (xs : List A) → find q (update p g xs) ≡ find q xs
  find-update_other q p g before after [] = refl
  find-update_other q p g before after (x ∷ xs) =
      ground (arith, before x, after x, find-update_other q p g before after xs)

  pub select-update_other :
      (q p : A → Bool) (g : A → A)
      → ((x : A) → p x ≡ true → q x ≡ false)
      → ((x : A) → p x ≡ true → q (g x) ≡ false)
      → (xs : List A) → select q (update p g xs) ≡ select q xs
  select-update_other q p g before after [] = refl
  select-update_other q p g before after (x ∷ xs) =
      ground (arith, before x, after x, select-update_other q p g before after xs)

  pub select-insert_other :
      (q : A → Bool) (x : A) (xs : List A) → q x ≡ false → select q (xs ++ x ∷ []) ≡ select q xs
  select-insert_other q x [] h = ground arith
  select-insert_other q x (y ∷ xs) h = ground (arith, select-insert_other q x xs h)

  pub select-delete_other :
      (q p : A → Bool)
      → ((x : A) → p x ≡ true → q x ≡ false)
      → (xs : List A) → select q (delete p xs) ≡ select q xs
  select-delete_other q p h [] = refl
  select-delete_other q p h (x ∷ xs) = ground (arith, h x, select-delete_other q p h xs)

  pub find-insert_other :
      (q : A → Bool) (x : A) (xs : List A) → q x ≡ false → find q (xs ++ x ∷ []) ≡ find q xs
  find-insert_other q x [] h = ground arith
  find-insert_other q x (y ∷ xs) h = ground (arith, find-insert_other q x xs h)

  pub find-insert-some :
      (q : A → Bool) (x y : A) (xs : List A) → find q xs ≡ some y → find q (xs ++ x ∷ []) ≡ some y
  find-insert-some q x y [] h = ground arith
  find-insert-some q x y (z ∷ xs) h = ground (arith, find-insert-some q x y xs)

  -- A row stays, as it was or updated, if the update keeps the key by which it is found.
  pub find-update-some :
      (p q : A → Bool) (g : A → A)
      → ((x : A) → p (g x) ≡ p x)
      → (x : A) (xs : List A) → find p xs ≡ some x
      → (find p (update q g xs) ≡ some x) ⊎ (find p (update q g xs) ≡ some (g x))
  find-update-some p q g keeps x [] h = ground arith
  find-update-some p q g keeps x (y ∷ xs) h =
      ground (arith, keeps y, find-update-some p q g keeps x xs)

  pub find-insert :
      (q : A → Bool) (x : A) (xs : List A)
      → find q xs ≡ none
      → q x ≡ true
      → find q (xs ++ x ∷ []) ≡ some x
  find-insert q x [] h k = ground arith
  find-insert q x (y ∷ xs) h k = ground (arith, find-insert q x xs)

-- `m[k]` of a `map[string]string`: the empty text where the key is missing.
abbrev pub value_of : String → List (String × String) → String
value_of k [] = ""
value_of k ((j, v) ∷ m) = if str_eq j k then v else value_of k m

-- `m[k] = v`.
abbrev pub put {ℓ} : {V : Type ℓ} → String → V → List (String × V) → List (String × V)
put k v [] = (k, v) ∷ []
put k v ((j, w) ∷ m) = if str_eq j k then (k, v) ∷ m else (j, w) ∷ put k v m

abbrev pub contains_str : List String → String → Bool
contains_str [] s = false
contains_str (v ∷ vs) s = str_eq v s || contains_str vs s

abbrev pub is_empty {ℓ} : {A : Type ℓ} → List A → Bool
is_empty [] = true
is_empty (x ∷ xs) = false
