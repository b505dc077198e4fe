-- ===== src/Http/Decoding.antt =====
-- What the handlers read of a request: `json.Decoder.Decode` into a map of strings or a struct,
-- where the last member of a name counts, and the session token.
use enterprise_kratos.Base.{
  String, Bool, false, Option, none, some, List, [], Json, null, bool, obj, Members, end, member,
  str_eq, if◌then◌else◌, put, value_of,
}
use Prim.Native.String.{len, slice}
use text.Mathlib.Text.{starts_with}
use enterprise_kratos.Sso.{text_value}
use enterprise_kratos.Http.{HttpRequest}

abbrev pub text_members : Members → List (String × String) → Option (List (String × String))
text_members end m = some m
text_members (member k v ms) m = elim (text_value v) [
  | none ↦ none
  | some s ↦ text_members ms (put k s m)
]

-- `var body map[string]string`.
abbrev pub text_map : Json → Option (List (String × String))
text_map null = some []
text_map (obj ms) = text_members ms []
text_map _ = none

abbrev pub member_of : String → Members → Option Json → Option Json
member_of k end found = found
member_of k (member j v ms) found = member_of k ms (if str_eq j k then some v else found)

abbrev pub text_or_zero : Option Json → Option String
text_or_zero none = some ""
text_or_zero (some v) = text_value v

-- A string field of a struct.
abbrev pub text_field : String → Json → Option String
text_field k null = some ""
text_field k (obj ms) = text_or_zero (member_of k ms none)
text_field k _ = none

abbrev bool_or_zero : Option Json → Option Bool
bool_or_zero none = some false
bool_or_zero (some null) = some false
bool_or_zero (some (bool b)) = some b
bool_or_zero _ = none

-- A bool field of a struct.
abbrev pub bool_field : String → Json → Option Bool
bool_field k null = some false
bool_field k (obj ms) = bool_or_zero (member_of k ms none)
bool_field k _ = none

-- A `json.RawMessage` field: what is written, also null.
abbrev pub raw_field : String → Json → Option Json
raw_field k (obj ms) = member_of k ms none
raw_field k _ = none

abbrev bearer : String → String
bearer v = if starts_with v "Bearer " then slice v 7 (len v) else ""

-- `extractToken`, in internal/session/handler.go and internal/flow/settings/handler.go.
abbrev pub extract_token : HttpRequest → String
extract_token r =
    if str_eq (value_of "X-Session-Token" r.headers) ""
    then bearer (value_of "Authorization" r.headers)
    else value_of "X-Session-Token" r.headers
