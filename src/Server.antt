-- ===== src/Server.antt =====
-- cmd/idpd/main.go: the registry and the Hydra client that the server is started with, by the
-- environment variables of the process. The URLs are given without a slash at the end, as rest.New
-- asks, so its TrimRight leaves them as they are. The stores and engines are wired to each other in
-- their own modules, and the routes are in Http/Router.antt.
pub mod Isolation
use enterprise_kratos.Base.{String, Option, none, some, List, [], ◌∷◌, str_eq, if◌then◌else◌}
use enterprise_kratos.External.{External}
use enterprise_kratos.Store.{Env}
use enterprise_kratos.Authenticator.{Authenticator, Factor, first_factor, second_factor}
use enterprise_kratos.Authenticator.Registry.{Registry, new, register}
use enterprise_kratos.Authenticator.Password
use enterprise_kratos.Authenticator.Password.{Bcrypt}
use enterprise_kratos.Authenticator.Oidc
use enterprise_kratos.Authenticator.Rest
use enterprise_kratos.Authenticator.Rest.{Service}
use enterprise_kratos.Http.{Hydra}
use enterprise_kratos.Hydra as HydraClient

-- `MustRegister`; `none` is the panic.
unfoldable pub must_register : Authenticator → Option Registry → Option Registry
must_register a none = none
must_register a (some reg) = register a reg

pub record RestConfig : Type 0 where
  pub env_key : String
  pub id : String
  pub kind : Factor

abbrev pub rest_configs : List RestConfig
rest_configs =
    record { env_key = "LDAP_SERVICE_URL"; id = "ldap"; kind = first_factor }
    ∷ record { env_key = "TOTP_SERVICE_URL"; id = "totp"; kind = second_factor }
    ∷ record { env_key = "OTP_SERVICE_URL"; id = "otp"; kind = second_factor }
    ∷ record { env_key = "PASSKEY_SERVICE_URL"; id = "passkey"; kind = second_factor }
    ∷ []

module _ (getenv : String → String) (ext : External) where
  module _ (service : Service) where
    abbrev pub rest_adapter : RestConfig → Authenticator
    rest_adapter c =
        Rest.adapter ext service
          (record { id = c.id; auth_type = c.kind; base_url = getenv c.env_key })

    -- The adapters whose URL is set.
    unfoldable pub with_services : List RestConfig → Option Registry → Option Registry
    with_services [] reg = reg
    with_services (c ∷ cs) reg =
        with_services cs
          (if str_eq (getenv c.env_key) "" then reg else must_register (rest_adapter c) reg)

  -- The client, where HYDRA_ADMIN_URL is set.
  abbrev pub hydra : HydraClient.Client → Option Hydra
  hydra c =
      if str_eq (getenv "HYDRA_ADMIN_URL") ""
      then none
      else some (HydraClient.client ext (record c { admin_url = getenv "HYDRA_ADMIN_URL" }))

module _ ⦃env : Env⦄ (getenv : String → String) (ext : External) (service : Service) where
  unfoldable pub registry : Bcrypt → Option Registry
  registry bcrypt =
      with_services getenv ext service rest_configs
        (must_register (Oidc.adapter ext) (must_register (Password.adapter bcrypt) (some new)))
