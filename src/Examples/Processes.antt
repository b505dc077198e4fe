-- ===== src/Examples/Processes.antt =====
-- The server with one REST service, and the tool on the files of a dry run.
use enterprise_kratos.Base.{String, true, false, none, some, ◌≡◌, refl, str_eq, ◌==◌, if◌then◌else◌}
use enterprise_kratos.Store.{ok}
use enterprise_kratos.Authenticator.Registry.{Registry}
use enterprise_kratos.Isolation.{SameRows}
use enterprise_kratos.Http.Router
use enterprise_kratos.Http.Router.{Route}
use enterprise_kratos.Hydra.{Client}
use enterprise_kratos.Server
use enterprise_kratos.Server.Isolation.{registry-SameRows}
use enterprise_kratos.Migration.Kratos.{Sources}
use enterprise_kratos.Tool
use enterprise_kratos.Tool.{Flags, Databases, Report, reported}
use enterprise_kratos.Tool.DryRun.{
  run_migrate-Unwritten, run_migrate-reports, count, number, is_of_type,
}
use enterprise_kratos.Examples.Setting.{clock, clock-IsCalm, outside, google, plain_bcrypt}
use enterprise_kratos.Examples.Services.{totp_service}
use enterprise_kratos.Examples.Web.{site, requests, acme_only}
use enterprise_kratos.Examples.Imports.{config, old}

abbrev variables : String → String
variables key = if str_eq key "TOTP_SERVICE_URL" then "https://totp.example" else ""

abbrev no_hydra : Client
no_hydra = record { admin_url = ""; put = λ n url body. none }

registry-SameRows_example :
    (reg : Registry) × (Server.registry ⦃env = clock⦄ variables outside totp_service plain_bcrypt
      ≡ some reg)
    × SameRows 2 site.db
        (Router.handle_all ⦃env = clock⦄ outside google reg
          (Server.hydra variables outside no_hydra)
          requests
          site).db
registry-SameRows_example =
    registry-SameRows ⦃env = clock⦄ variables outside totp_service google no_hydra plain_bcrypt 2
      requests site (acme_only, (acme_only, tt))

abbrev flags : Flags
flags = record {
  kratos_config = "kratos.yml";
  kratos_db = "postgres://kratos";
  kratos_nid = "10";
  target_db = "postgres://idp";
  target_tenant = "acme";
  target_name = "";
  include_sessions = false;
  dry_run = true;
}

abbrev files : Sources
files = record {
  read_file = λ n path. some "yaml";
  decode_base64 = λ s. none;
  http_get = λ n url. none;
  parse_yaml = λ s. some config;
}

abbrev databases : Databases
databases = record { open_kratos = λ dsn. some old; open_target = λ dsn. true }

run_migrate-Unwritten_example :
    (Tool.run_migrate ⦃env = clock⦄ outside files databases flags site).1.db ≡ site.db
run_migrate-Unwritten_example =
    run_migrate-Unwritten ⦃env = clock⦄ outside files databases flags refl site

-- The Kratos database has one identity and one credential, a password, in its network.
run_migrate-reports_example :
    (report : Report) × ((Tool.run_migrate ⦃env = clock⦄ outside files databases flags site).0
      ≡ ok (reported (some report)))
    × (report.identities ≡ count (λ i. i.nid == 10) old.identities)
    × (report.providers ≡ count (λ p. true) config.self_service.methods.oidc.config.providers)
    × (number "password" report.credentials
        ≡ count (is_of_type 10 old.types "password") old.credentials)
run_migrate-reports_example =
    run_migrate-reports ⦃env = clock⦄ outside files databases flags refl site clock-IsCalm config
      old 10 "password"
      (record {
        text = "yaml";
        config_given = refl;
        tenant_given = refl;
        target_given = refl;
        reads = refl;
        parses = refl;
        dsn_given = refl;
        network = refl;
        opens = refl;
      })
