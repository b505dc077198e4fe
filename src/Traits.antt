-- ===== src/Traits.antt =====
-- The traits of an identity as JSON objects: `buildTraits` and `extractIdentifier` of
-- internal/flow/registration/engine.go, and what internal/flow/settings/engine.go does alike.
-- A form is a map, so its keys are distinct, and it is walked in the order of the list.
use Prim.Native.String.{len, slice}
use text.Mathlib.Text.{starts_with}
use enterprise_kratos.Base.{
  String, Bool, false, ◌||◌, Option, none, some, List, [], ◌∷◌, ◌&&◌, Json, str, obj, Members, end,
  member, text_member, set_member, str_eq, if◌then◌else◌, value_of, ltb,
}
use enterprise_kratos.External.{External}

-- `len(k) > 7 && k[:7] == "traits."`.
abbrev pub is_trait : String → Bool
is_trait k = ltb 7 (len k) && starts_with k "traits."

-- `k[7:]`.
abbrev pub trait_name : String → String
trait_name k = slice k 7 (len k)

-- The loop that writes the submitted traits into a map.
pub write_traits : List (String × String) → Members → Members
write_traits [] ms = ms
write_traits ((k, v) ∷ values) ms =
    write_traits values (if is_trait k then set_member (trait_name k) (str v) ms else ms)

-- Whether that loop writes at all.
abbrev pub has_traits : List (String × String) → Bool
has_traits [] = false
has_traits ((k, v) ∷ values) = is_trait k || has_traits values

pub build_traits : List (String × String) → String → Json
build_traits values identifier = obj (write_traits values (member "email" (str identifier) end))

abbrev or_empty : Option String → String
or_empty none = ""
or_empty (some s) = s

-- `traits["email"].(string)` of what `json.Unmarshal` makes of a value.
abbrev pub email_of : Json → Option String
email_of (obj ms) = text_member "email" ms
email_of _ = none

abbrev email_in : Option Json → String
email_in none = ""
email_in (some j) = or_empty (email_of j)

module _ (ext : External) where
  -- The JSON blob is read last.
  abbrev from_blob : String → String
  from_blob raw = if str_eq raw "" then "" else email_in (ext.parse_json raw)

  abbrev second_choice : List (String × String) → String
  second_choice values =
      if str_eq (value_of "identifier" values) ""
      then from_blob (value_of "traits" values)
      else value_of "identifier" values

  unfoldable pub extract_identifier : List (String × String) → String
  extract_identifier values =
      if str_eq (value_of "traits.email" values) ""
      then second_choice values
      else value_of "traits.email" values
