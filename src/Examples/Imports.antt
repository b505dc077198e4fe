-- ===== src/Examples/Imports.antt =====
-- A Kratos database with one account, one session and two providers of the same kind.
use enterprise_kratos.Base.{
  String, true, false, none, some, [], ◌∷◌, ◌++◌, inr, ◌≡◌, refl, arith, obj, end, find,
}
use enterprise_kratos.Flow.{login, in_phase}
use enterprise_kratos.Errors.{db_failure}
use enterprise_kratos.Store.{World, ok, err, panic, effects}
use enterprise_kratos.Store.Policies
use enterprise_kratos.Store.Providers
use enterprise_kratos.Store.Schemas.{new_schema, newest_active}
use enterprise_kratos.Store.Tenants.{has_slug}
use enterprise_kratos.Store.Identities.{new_credential, create_identity}
use enterprise_kratos.Store.Sessions.{new_session}
use enterprise_kratos.Authenticator.Password
use enterprise_kratos.Authenticator.Password.{encode_config}
use enterprise_kratos.Authenticator.Registry.{get}
use enterprise_kratos.Login
use enterprise_kratos.Isolation.Imports.{Spares, migrate-Spares}
use enterprise_kratos.Migration
use enterprise_kratos.Migration.{Options, policy_from, provider_config}
use enterprise_kratos.Migration.Config.{KratosConfig, MethodEnabled, OidcProvider}
use enterprise_kratos.Migration.Kratos
use enterprise_kratos.Migration.Kratos.{KratosTables, KratosCredential, Sources}
use enterprise_kratos.Migration.Accounts
use enterprise_kratos.Migration.Factors.{migrate_policy-panic}
use enterprise_kratos.Migration.ActiveSchema.{
  active_of, replace_schema-active, migrate_schema-broken,
}
use enterprise_kratos.Migration.Owners.{IsOwned, migrate_identities-IsOwned}
use enterprise_kratos.Migration.Mapping.{migrate_provider-again}
use enterprise_kratos.Migration.Passwords.{migrate_password_cred-login}
use enterprise_kratos.Examples.Setting.{
  clock, clock-IsCalm, outside, methods, plain_bcrypt, flow_of, with_flow, form,
}

abbrev options : Options
options = record { target_tenant_slug = "acme"; target_tenant_name = ""; include_sessions = true }

abbrev generic : String → OidcProvider
generic id = record {
  id = id;
  provider = "generic";
  client_id = id;
  client_secret = "s";
  issuer_url = "https://id.example";
  scope = [];
  tenant = "";
  mapper_url = "";
}

abbrev on : MethodEnabled
on = record { enabled = true }

abbrev off : MethodEnabled
off = record { enabled = false }

abbrev config_with : MethodEnabled → KratosConfig
config_with password = record {
  dsn = "";
  identity = record {
    default_schema_id = "default";
    schemas = record { id = "default"; url = "" } ∷ [];
  };
  self_service = record {
    methods = record {
      password = password;
      oidc = record {
        enabled = false;
        config = record { providers = generic "one" ∷ generic "two" ∷ [] };
      };
      totp = off;
      lookup = off;
      webauthn = off;
    };
    flows = record {
      registration = record { after = none };
      recovery = record { enabled = true; use_ = "" };
      verification = record { enabled = false; use_ = "" };
    };
  };
  session = record { lifespan = "" };
}

abbrev pub config : KratosConfig
config = config_with on

abbrev methodless : KratosConfig
methodless = config_with off

abbrev pub old : KratosTables
old = record {
  networks = 1 ∷ [];
  identities =
      record { id = 2; nid = 1; schema_id = "default"; traits = obj end; state = "active" } ∷ [];
  types = (3, "password") ∷ [];
  credentials =
      record { id = 4; nid = 1; identity_id = 2; type_id = 3; config = encode_config "secret" }
      ∷ [];
  identifiers = record { credential_id = 4; nid = 1; identifier = some "c@x.org" } ∷ [];
  sessions =
      record {
        id = 6;
        nid = 1;
        identity_id = 2;
        token = "t";
        expires_at = 1000;
        active = true;
        aal = "";
      }
      ∷ record {
        id = 6;
        nid = 1;
        identity_id = 2;
        token = "u";
        expires_at = 1;
        active = true;
        aal = "";
      }
      ∷ [];
}

abbrev offline : Sources
offline = record {
  read_file = λ n path. none;
  decode_base64 = λ s. none;
  http_get = λ n url. none;
  parse_yaml = λ s. none;
}

abbrev start : World
start = with_flow (flow_of login none (in_phase "first_factor"))

migrate-Spares_example :
    Spares 2 start.db
      (Migration.migrate ⦃env = clock⦄ outside offline old 1 options config start).1.db
    × (find
          (has_slug "other")
          (Migration.migrate ⦃env = clock⦄ outside offline old 1 options config start).1.db.tenants
        ≡ find (has_slug "other") start.db.tenants)
migrate-Spares_example =
    migrate-Spares ⦃env = clock⦄ options start outside offline old 1 config 2 "other"
      (λ p. ground arith) refl

migrate_identities-IsOwned_example :
    IsOwned 1 (Accounts.migrate_identities ⦃env = clock⦄ 1 outside old 1 5 [] start).1.db
migrate_identities-IsOwned_example =
    migrate_identities-IsOwned ⦃env = clock⦄ 1 outside old 1 5 [] start refl

abbrev with_policy : KratosConfig → World
with_policy cfg = (Migration.migrate_policy ⦃env = clock⦄ 1 cfg start).1

migrate_policy-panic_example :
    ((Login.init_flow ⦃env = clock⦄ outside methods 1 (with_policy methodless)).0 ≡ panic)
    × ((Login.init_flow ⦃env = clock⦄ outside methods 1 (with_policy methodless)).1.db
        ≡ (with_policy methodless).db)
migrate_policy-panic_example =
    migrate_policy-panic ⦃env = clock⦄ 1 methodless start clock-IsCalm outside methods
      (with_policy methodless) refl refl refl

schema_replaced : (Migration.replace_schema ⦃env = clock⦄ 1 (some (obj end)) start).0 ≡ ok 101
unfolding Migration.replace_schema Migration.insert_schema effects
schema_replaced = refl

replace_schema-active_example :
    (active_of 1 (Migration.replace_schema ⦃env = clock⦄ 1 (some (obj end)) start).1.db
      ≡ new_schema 101 1 (obj end) ∷ [])
    × (newest_active 1
          (Migration.replace_schema ⦃env = clock⦄ 1 (some (obj end)) start).1.db.schemas
        ≡ some (new_schema 101 1 (obj end)))
replace_schema-active_example =
    replace_schema-active ⦃env = clock⦄ 1 start (obj end) 101 schema_replaced

-- A tenant with an active schema.
abbrev schema_start : World
schema_start = record start { db = record (start.db) { schemas = new_schema 50 1 (obj end) ∷ [] } }

abbrev pointing : KratosConfig
pointing = record (config) {
  identity = record {
    default_schema_id = "default";
    schemas = record { id = "default"; url = "file:///schema.json" } ∷ [];
  };
}

-- Every file holds a text that is no JSON.
abbrev scribbled : Sources
scribbled = record offline { read_file = λ n path. some "{" }

schema_fetched : (Kratos.fetch_schema scribbled "file:///schema.json" schema_start).0 ≡ ok "{"
unfolding Kratos.fetch_schema Kratos.fetch_file Kratos.read_or effects
schema_fetched = refl

migrate_schema-broken_example :
    ((Migration.migrate_schema ⦃env = clock⦄ 1 outside scribbled pointing schema_start).0
      ≡ err db_failure)
    × (active_of 1
          (Migration.migrate_schema ⦃env = clock⦄ 1 outside scribbled pointing schema_start).1.db
        ≡ [])
    × (newest_active 1
          (Migration.migrate_schema ⦃env = clock⦄ 1 outside scribbled pointing
            schema_start).1.db.schemas
        ≡ none)
migrate_schema-broken_example =
    migrate_schema-broken ⦃env = clock⦄ 1 schema_start outside scribbled pointing
      "file:///schema.json" "{" clock-IsCalm refl refl schema_fetched refl

abbrev with_one : World
with_one = (Migration.migrate_provider ⦃env = clock⦄ 1 (generic "one") start).1

provider_created : (Migration.migrate_provider ⦃env = clock⦄ 1 (generic "one") start).0 ≡ ok 101
unfolding Migration.migrate_provider Migration.existing_or_created Providers.create effects
provider_created = refl

migrate_provider-again_example :
    ((Migration.migrate_provider ⦃env = clock⦄ 1 (generic "two") with_one).0 ≡ ok 101)
    × ((Migration.migrate_provider ⦃env = clock⦄ 1 (generic "two") with_one).1.db ≡ with_one.db)
migrate_provider-again_example =
    migrate_provider-again ⦃env = clock⦄ 1 (generic "one") (generic "two") start with_one 101
      clock-IsCalm provider_created refl refl

abbrev carol : KratosCredential
carol = record {
  id = 4;
  identity_id = 2;
  kind = "password";
  config = encode_config "secret";
  identifiers = "c@x.org" ∷ [];
}

abbrev migrated_carol : World
migrated_carol = (Accounts.migrate_password_cred ⦃env = clock⦄ 1 40 carol start).1

abbrev with_carol : World
with_carol = record start { db = record (start.db) { credentials = migrated_carol.db.credentials } }

registered : get "password" methods ≡ inr (Password.adapter plain_bcrypt)
unfolding get
registered = refl

migrate_password_cred-login_example :
    (r : Login.SubmitResult) × ((Login.submit_flow ⦃env = clock⦄ outside methods 1 10 "password"
        (form "c@x.org" "secret")
        with_carol).0
      ≡ ok r)
    × (r.completed ≡ true)
    × (r.identity_id ≡ 40)
    × (r.aal ≡ "aal1")
migrate_password_cred-login_example =
    migrate_password_cred-login ⦃env = clock⦄ 1 40 carol "c@x.org" "secret" start clock-IsCalm
      (record { known = refl; hashed = refl; not_empty = refl }) plain_bcrypt outside methods 10
      (form "c@x.org" "secret") with_carol (flow_of login none (in_phase "first_factor")) refl refl
      refl
      (record {
        stands = refl;
        waiting = refl;
        in_time = ground arith;
        phase = refl;
        allowed = refl;
        registered = registered;
        named = refl;
      })
      refl refl refl refl

-- The whole run: the identity, its password, the session that has not expired, and one provider.
migrate_runs :
    let after = Migration.migrate ⦃env = clock⦄ outside offline old 1 options config start in
    (after.0 ≡ ok tt)
    × (after.1.db.credentials
        ≡ start.db.credentials
          ++ new_credential 110 100 109 "password" ("c@x.org" ∷ []) (encode_config "secret") ∷ [])
    × (after.1.db.sessions ≡ new_session 112 100 109 "t" 1000 "aal1" [] ∷ [])
    × (after.1.db.providers
        ≡ Providers.new_provider 105 100 "oidc" "generic" (provider_config (generic "one")) ∷ [])
unfolding Migration.migrate Migration.ensure_tenant Migration.migrate_into Migration.migrate_schema
    Migration.schema_json Migration.replace_schema Migration.insert_schema Migration.migrate_policy
    Policies.upsert Migration.migrate_sso Migration.migrate_providers Migration.migrate_provider
    Migration.existing_or_created Providers.create Accounts.migrate_identities Kratos.identities
    Kratos.credentials Accounts.migrate_all Accounts.migrate_identity Accounts.noted create_identity
    Accounts.migrate_credentials Accounts.migrate_credential Accounts.migrate_password_cred
    Accounts.require_hash Accounts.insert_credential Accounts.migrate_sessions
    Kratos.active_sessions Accounts.migrate_each_session Accounts.migrate_session
    Accounts.insert_session Accounts.counted effects
migrate_runs = (refl, refl, refl, refl)
