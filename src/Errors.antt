-- ===== src/Errors.antt =====
-- The errors of the packages below internal/, by the cause that `errors.Is` finds: `fmt.Errorf`
-- with %w keeps the cause, so wrapping is not modelled, nor is the text that it adds.
use enterprise_kratos.Base.{String, Uuid}
use enterprise_kratos.Flow.{FlowType, State}

pub data Error : Type 0 where
  -- a query or statement that the database did not complete
  db_failure : Error
  -- the sentinels of the stores and of the registry
  flow_not_found flow_expired : Error
  credential_not_found schema_not_found provider_not_found tenant_not_found : Error
  session_not_found session_expired session_revoked : Error
  authenticator_not_found : Error
  -- refusals of the engines
  flow_is : State → Error
  wrong_flow_type : FlowType → Error
  unknown_phase unknown_method method_not_allowed not_enrolled : String → Error
  missing_identifier invalid_credentials no_identity wrong_owner : Error
  registration_disabled recovery_disabled account_exists : Error
  wrong_phase no_token invalid_token invalid_identity_id : Error
  password_not_registered : Error
  -- refusals of the OIDC engine
  provider_disabled : Uuid → Error
  wrong_provider_type identity_is invalid_state : String → Error
  invalid_provider_config no_oidc_state invalid_provider_id : Error
  no_id_token nonce_mismatch invalid_claims : Error
  -- what the identity provider or the library that talks to it refuses
  oidc_failure : String → Error
  -- crypto/rand
  random_failure : Error
  -- refusals of the migration
  no_network unreadable_config unreadable_schema no_identifiers no_hashed_password : Error
  invalid_oidc_config : Error
  unsupported_scheme : String → Error
  -- what an authenticator answers
  authenticator_error : String → Error
