-- ===== src/Tool.antt =====
-- cmd/idpctl/main.go: the command `idpctl migrate`, by its flags. The flag package has parsed them.
-- Which Kratos database a DSN opens and whether the target opens are parameters; the timeout and
-- the log are left out.
pub mod DryRun
use enterprise_kratos.Base.{
  ℕ, ◌+◌, String, Bool, true, false, Option, none, some, List, [], ◌∷◌, Uuid, ◌⊎◌, inl, inr, str_eq,
  if◌then◌else◌,
}
use enterprise_kratos.External.{External}
use enterprise_kratos.Errors.{Error}
use enterprise_kratos.Store.{Env, M, done, attempt, ◌>>=◌}
use enterprise_kratos.Migration.{migrate}
use enterprise_kratos.Migration.Config.{KratosConfig, require_verification, allowed_first_factors}
use enterprise_kratos.Migration.Kratos.{
  KratosTables, KratosIdentity, KratosCredential, Sources, parse_config, new_kratos_reader,
  identities, credentials,
}

pub record Flags : Type 0 where
  pub kratos_config : String
  pub kratos_db : String
  pub kratos_nid : String
  pub target_db : String
  pub target_tenant : String
  pub target_name : String
  pub include_sessions : Bool
  pub dry_run : Bool

pub record Databases : Type 0 where
  -- `pgxpool.ParseConfig` and `NewWithConfig` of the source and of the target
  pub open_kratos : String → Option KratosTables
  pub open_target : String → Bool

-- What a dry run prints.
pub record Report : Type 0 where
  pub identities : ℕ
  pub credentials : List (String × ℕ)
  pub providers : ℕ
  pub first_factors : List String
  pub verification : Bool
  pub session_ttl : String

-- How the process ends: with an exit status, or after a report that may be cut short.
pub data Ending : Type 0 where
  exited : ℕ → Ending
  reported : Option Report → Ending

abbrev pub length {ℓ} : {A : Type ℓ} → List A → ℕ
length [] = 0
length (x ∷ xs) = length xs + 1

abbrev pub counted_in : String → List (String × ℕ) → List (String × ℕ)
counted_in kind [] = (kind, 1) ∷ []
counted_in kind ((k, n) ∷ counts) =
    if str_eq k kind then (k, n + 1) ∷ counts else (k, n) ∷ counted_in kind counts

abbrev pub count_types : List KratosCredential → List (String × ℕ) → List (String × ℕ)
count_types [] counts = counts
count_types (c ∷ cs) counts = count_types cs (counted_in c.kind counts)

abbrev pub report_of : KratosConfig → List KratosIdentity → List KratosCredential → Report
report_of cfg is cs = record {
  identities = length is;
  credentials = count_types cs [];
  providers = length cfg.self_service.methods.oidc.config.providers;
  first_factors = allowed_first_factors cfg;
  verification = require_verification cfg;
  session_ttl = cfg.session.lifespan;
}

abbrev pub or_text : String → String → String
or_text fallback s = if str_eq s "" then fallback else s

-- A flag that is not given, and one that is no UUID.
abbrev pub nid_flag : External → String → Option (Option Uuid)
nid_flag ext s = if str_eq s "" then some none else given (ext.parse_uuid s)
  where
    given : Option Uuid → Option (Option Uuid)
    given none = none
    given (some id) = some (some id)

module _ ⦃env : Env⦄ (ext : External) (src : Sources) (dbs : Databases) (flags : Flags) where
  unfoldable pub credentials_reported :
      KratosConfig → List KratosIdentity → Error ⊎ List KratosCredential → M Ending
  credentials_reported cfg is (inl e) = done (reported none)
  credentials_reported cfg is (inr cs) = done (reported (some (report_of cfg is cs)))

  unfoldable pub identities_reported :
      KratosConfig → KratosTables → Uuid → Error ⊎ List KratosIdentity → M Ending
  identities_reported cfg k nid (inl e) = done (reported none)
  identities_reported cfg k nid (inr is) = do
    cs ← attempt (credentials k nid)
    credentials_reported cfg is cs

  unfoldable pub dry_run_report : KratosConfig → KratosTables → Uuid → M Ending
  dry_run_report cfg k nid = do is ← attempt (identities k nid); identities_reported cfg k nid is

  unfoldable pub ended : Error ⊎ Unit {0} → M Ending
  ended (inl e) = done (exited 1)
  ended (inr _) = done (exited 0)

  unfoldable pub run_migration : KratosConfig → KratosTables → Uuid → M Ending
  run_migration cfg k nid =
      if dbs.open_target flags.target_db
      then (do
        r ← attempt (
            migrate ext src k nid
              (record {
                target_tenant_slug = flags.target_tenant;
                target_tenant_name = flags.target_name;
                include_sessions = flags.include_sessions;
              })
              cfg)
        ended r)
      else done (exited 1)

  unfoldable pub with_reader : KratosConfig → KratosTables → Error ⊎ Uuid → M Ending
  with_reader cfg k (inl e) = done (exited 1)
  with_reader cfg k (inr nid) =
      if flags.dry_run then dry_run_report cfg k nid else run_migration cfg k nid

  unfoldable pub with_kratos : KratosConfig → Option Uuid → Option KratosTables → M Ending
  with_kratos cfg nid none = done (exited 1)
  with_kratos cfg nid (some k) = do r ← attempt (new_kratos_reader k nid); with_reader cfg k r

  unfoldable pub with_nid : KratosConfig → String → Option (Option Uuid) → M Ending
  with_nid cfg dsn none = done (exited 1)
  with_nid cfg dsn (some nid) = with_kratos cfg nid (dbs.open_kratos dsn)

  unfoldable pub with_config : Error ⊎ KratosConfig → M Ending
  with_config (inl e) = done (exited 1)
  with_config (inr cfg) =
      if str_eq (or_text cfg.dsn flags.kratos_db) ""
      then done (exited 1)
      else with_nid cfg (or_text cfg.dsn flags.kratos_db) (nid_flag ext flags.kratos_nid)

  unfoldable pub run_migrate : M Ending
  run_migrate =
      if str_eq flags.kratos_config ""
      then done (exited 1)
      else (if str_eq flags.target_tenant ""
          then done (exited 1)
          else (if str_eq flags.target_db ""
              then done (exited 1)
              else (do cfg ← attempt (parse_config src flags.kratos_config); with_config cfg)))
