-- ===== src/Authenticator/Registry.antt =====
-- internal/authenticator/registry/registry.go. The map is an association list; the mutex is left
-- out, since a call holds it throughout. Maps are iterated in the order of the list.
pub mod Laws
use enterprise_kratos.Base.{
  String, Bool, true, false, ◌||◌, Option, none, some, List, [], ◌∷◌, ◌++◌, map, ◌⊎◌, inl, inr,
  str_eq, if◌then◌else◌, select,
}
use enterprise_kratos.Errors.{Error, authenticator_not_found}
use enterprise_kratos.Authenticator.{Authenticator, Factor, first_factor, second_factor, either}

abbrev pub Registry : Type 0
Registry = List (String × Authenticator)

abbrev pub new : Registry
new = []

abbrev pub lookup : String → Registry → Option Authenticator
lookup id [] = none
lookup id ((j, a) ∷ reg) = if str_eq j id then some a else lookup id reg

abbrev registered : Authenticator → Registry → Option Authenticator → Option Registry
registered a reg none = some (reg ++ (a.id, a) ∷ [])
registered a reg (some _) = none

-- `none` is the error that the ID is taken.
unfoldable pub register : Authenticator → Registry → Option Registry
register a reg = registered a reg (lookup a.id reg)

abbrev pub found : Option Authenticator → Error ⊎ Authenticator
found none = inl authenticator_not_found
found (some a) = inr a

unfoldable pub get : String → Registry → Error ⊎ Authenticator
get id reg = found (lookup id reg)

pub all : Registry → List Authenticator
all reg = map (λ e. e.1) reg

abbrev same_factor : Factor → Factor → Bool
same_factor first_factor first_factor = true
same_factor second_factor second_factor = true
same_factor either either = true
same_factor _ _ = false

abbrev pub serves : Factor → Authenticator → Bool
serves t a = same_factor a.factor t || same_factor a.factor either

pub of_type : Factor → Registry → List Authenticator
of_type t reg = select (serves t) (map (λ e. e.1) reg)
