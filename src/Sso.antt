-- ===== src/Sso.antt =====
-- internal/sso/provider.go: a row of tenant_sso_providers, and the config of an OIDC provider.
-- Member names of the JSON config are compared as they are written. The SAML config is not used.
use enterprise_kratos.Base.{
  String, Bool, Option, none, some, List, [], ◌∷◌, Uuid, Json, null, str, arr, obj, Items, nil,
  cons, Members, end, member, str_eq, if◌then◌else◌, is_empty,
}

pub record Provider : Type 0 where
  pub id : Uuid
  pub tenant_id : Uuid
  pub kind : String
  pub provider : String
  pub config : Json
  pub enabled : Bool

pub record OidcConfig : Type 0 where
  pub client_id : String
  pub client_secret : String
  pub issuer_url : String
  pub redirect_uri : String
  pub scopes : List String

-- `json.Unmarshal` into a string and into a slice of strings: null leaves the zero value, and a
-- value of another kind is an error.
abbrev pub text_value : Json → Option String
text_value null = some ""
text_value (str s) = some s
text_value _ = none

abbrev prepended : Option String → Option (List String) → Option (List String)
prepended (some s) (some ss) = some (s ∷ ss)
prepended _ _ = none

abbrev text_items : Items → Option (List String)
text_items nil = some []
text_items (cons j js) = prepended (text_value j) (text_items js)

abbrev pub texts_value : Json → Option (List String)
texts_value null = some []
texts_value (arr js) = text_items js
texts_value _ = none

-- The member with this name, or null.
abbrev pub member_or_null : String → Members → Json
member_or_null k end = null
member_or_null k (member j v ms) = if str_eq j k then v else member_or_null k ms

abbrev config_of :
    Option String
    → Option String
    → Option String
    → Option String
    → Option (List String)
    → Option OidcConfig
config_of (some id) (some secret) (some issuer) (some redirect) (some scopes) = some (record {
  client_id = id;
  client_secret = secret;
  issuer_url = issuer;
  redirect_uri = redirect;
  scopes = scopes;
})
config_of _ _ _ _ _ = none

abbrev members_config : Members → Option OidcConfig
members_config ms =
    config_of (text_value (member_or_null "client_id" ms))
      (text_value (member_or_null "client_secret" ms)) (text_value (member_or_null "issuer_url" ms))
      (text_value (member_or_null "redirect_uri" ms)) (texts_value (member_or_null "scopes" ms))

-- `json.Unmarshal` into `OIDCConfig`.
abbrev pub decode_config : Json → Option OidcConfig
decode_config null = members_config end
decode_config (obj ms) = members_config ms
decode_config _ = none

-- The scopes that are asked for.
abbrev pub scopes_or_default : List String → List String
scopes_or_default scopes = if is_empty scopes then "openid" ∷ "email" ∷ "profile" ∷ [] else scopes
