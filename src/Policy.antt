-- ===== src/Policy.antt =====
-- internal/policy/policy.go: the policy of a tenant. Its store is in Store/Policies.antt.
use enterprise_kratos.Base.{String, Bool, true, false, List, [], ◌∷◌}

pub record LoginPolicy : Type 0 where
  pub allowed_first_factors : List String
  pub allowed_second_factors : List String
  pub mfa_required : Bool
  pub sso_only : Bool

pub record RegistrationPolicy : Type 0 where
  pub enabled : Bool
  pub require_verification : Bool

pub record SessionPolicy : Type 0 where
  pub ttl : String
  pub required_aal : String
  pub inactivity_timeout : String

pub record RecoveryPolicy : Type 0 where
  pub enabled : Bool
  pub allowed_methods : List String

pub record FlowPolicy : Type 0 where
  pub login : LoginPolicy
  pub registration : RegistrationPolicy
  pub session : SessionPolicy
  pub recovery : RecoveryPolicy

abbrev pub default : FlowPolicy
default = record {
  login = record {
    allowed_first_factors = "password" ∷ [];
    allowed_second_factors = [];
    mfa_required = false;
    sso_only = false;
  };
  registration = record { enabled = true; require_verification = false };
  session = record { ttl = "24h"; required_aal = "aal1"; inactivity_timeout = "1h" };
  recovery = record { enabled = true; allowed_methods = "link" ∷ [] };
}
