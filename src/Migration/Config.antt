-- ===== src/Migration/Config.antt =====
-- internal/migration/config.go: the part of a Kratos configuration that the migration reads, as
-- YAML gives it. The empty sections for login and settings are left out.
use enterprise_kratos.Base.{
  String, Bool, false, ◌||◌, Option, none, some, List, [], ◌∷◌, ◌++◌, str_eq, if◌then◌else◌,
}

pub record SchemaEntry : Type 0 where
  pub id : String
  pub url : String

pub record IdentityConfig : Type 0 where
  pub default_schema_id : String
  pub schemas : List SchemaEntry

pub record MethodEnabled : Type 0 where
  pub enabled : Bool

pub record OidcProvider : Type 0 where
  pub id : String
  pub provider : String
  pub client_id : String
  pub client_secret : String
  pub issuer_url : String
  pub scope : List String
  pub tenant : String
  pub mapper_url : String

pub record OidcMethodConfig : Type 0 where
  pub providers : List OidcProvider

pub record OidcMethod : Type 0 where
  pub enabled : Bool
  pub config : OidcMethodConfig

pub record Methods : Type 0 where
  pub password : MethodEnabled
  pub oidc : OidcMethod
  pub totp : MethodEnabled
  pub lookup : MethodEnabled
  pub webauthn : MethodEnabled

pub record Hook : Type 0 where
  pub hook : String

pub record Hooks : Type 0 where
  pub hooks : List Hook

pub record AfterFlow : Type 0 where
  pub password : Option Hooks
  pub oidc : Option Hooks

pub record RegistrationFlow : Type 0 where
  pub after : Option AfterFlow

pub record RecoveryFlow : Type 0 where
  pub enabled : Bool
  pub use_ : String

pub record VerificationFlow : Type 0 where
  pub enabled : Bool
  pub use_ : String

pub record FlowsConfig : Type 0 where
  pub registration : RegistrationFlow
  pub recovery : RecoveryFlow
  pub verification : VerificationFlow

pub record SelfService : Type 0 where
  pub methods : Methods
  pub flows : FlowsConfig

pub record KratosSessionConfig : Type 0 where
  pub lifespan : String

pub record KratosConfig : Type 0 where
  pub dsn : String
  pub identity : IdentityConfig
  pub self_service : SelfService
  pub session : KratosSessionConfig

abbrev has_verification : List Hook → Bool
has_verification [] = false
has_verification (h ∷ hs) = str_eq h.hook "verification" || has_verification hs

abbrev checked : Option Hooks → Bool
checked none = false
checked (some h) = has_verification h.hooks

abbrev after_checked : Option AfterFlow → Bool
after_checked none = false
after_checked (some a) = checked a.password || checked a.oidc

abbrev pub require_verification : KratosConfig → Bool
require_verification cfg = after_checked cfg.self_service.flows.registration.after

abbrev pub allowed_first_factors : KratosConfig → List String
allowed_first_factors cfg =
    (if cfg.self_service.methods.password.enabled then "password" ∷ [] else [])
    ++ (if cfg.self_service.methods.oidc.enabled then "oidc" ∷ [] else [])
