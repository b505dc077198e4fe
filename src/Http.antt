-- ===== src/Http.antt =====
-- The HTTP handlers: a request with the tenant that the middleware resolved, and the answer. What
-- is written on the wire from a struct or a map is the value itself: encoding it as JSON is not
-- modelled. Header and member names are compared as they are written.
pub mod Decoding
pub mod Answers
pub mod Login
pub mod Accounts
pub mod Admin
pub mod Router
pub mod Keeping
pub mod Sessions
pub mod Reading
use enterprise_kratos.Base.{ℕ, String, Bool, Option, List, [], ◌∷◌, Uuid, Json}
use enterprise_kratos.Flow.{ClientFlow}
use enterprise_kratos.Tenant.{Tenant}
use enterprise_kratos.Errors.{Error}
use enterprise_kratos.Store.{M}

pub record HttpRequest : Type 0 where
  -- `TenantFromContext`
  pub tenant : Option Tenant
  -- `chi.URLParam`, `URL.Query()` and the headers
  pub params : List (String × String)
  pub query : List (String × String)
  pub headers : List (String × String)
  -- the first JSON value of the body, if there is one
  pub body : Option Json

-- `providerResponse` of internal/sso/handler.go, which leaves the config out.
pub record ProviderView : Type 0 where
  pub id : Uuid
  pub kind : String
  pub provider : String
  pub enabled : Bool

-- A value of a `map[string]any` that is answered. `error_value` is `err.Error()`.
pub data Value : Type 0 where
  string_value : String → Value
  strings_value : List String → Value
  uuid_value : Uuid → Value
  time_value : ℕ → Value
  bool_value : Bool → Value
  error_value : Error → Value
  flow_value : ClientFlow → Value
  providers_value : List ProviderView → Value

pub data Body : Type 0 where
  no_body : Body
  fields_body : List (String × Value) → Body
  flow_body : ClientFlow → Body
  provider_body : ProviderView → Body

pub record Response : Type 0 where
  pub status : ℕ
  pub headers : List (String × String)
  pub body : Body

abbrev pub Handler : Type 0
Handler = HttpRequest → M Response

-- The Hydra client, if it is configured: `AcceptLoginRequest` by the number of the call, the
-- challenge, the identity, the tenant and the AAL, with `remember` false, answers where to
-- redirect.
pub record Hydra : Type 0 where
  pub accept_login : ℕ → String → Uuid → Uuid → String → Option String
