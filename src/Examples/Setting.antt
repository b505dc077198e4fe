-- ===== src/Examples/Setting.antt =====
-- A tenant with one account, a clock that ticks at each call, and a password hash that is the
-- password itself.
use enterprise_kratos.Base.{
  ◌+◌, ℕ, ◌≡◌, arith, eq_refl, Uuid, String, true, Option, none, some, List, [], ◌∷◌, str, obj, end,
  member, refl, str_eq, ◌==◌, if◌then◌else◌, hour,
}
use enterprise_kratos.Flow.{Flow, FlowType, Ui, UiInternal, pending}
use enterprise_kratos.Identity.{Identity, Credential}
use enterprise_kratos.External.{External, positive}
use enterprise_kratos.Store.{Env, World}
use enterprise_kratos.Store.Calm.{IsCalm}
use enterprise_kratos.Store.Frame.{Unwritten, Unwritten-IsOrder}
use enterprise_kratos.Authenticator.Registry.{Registry}
use enterprise_kratos.Authenticator.Password
use enterprise_kratos.Authenticator.Password.{Bcrypt, same, mismatch, encode_config}
use enterprise_kratos.Authenticator.Keeping.{EachKeeps, password-KeepsAll}
use enterprise_kratos.Oidc.Client.{OidcClient}
use enterprise_kratos.Isolation.{SameRows, SameRows-IsOrder}

abbrev pub clock : Env
clock = record {
  now = λ n. n;
  fault = λ n. none;
  fresh_uuid = λ n. 100 + n;
  random_token = λ n. some "token";
  collation = λ s t. true;
}

pub clock-IsCalm : IsCalm clock
clock-IsCalm n = refl

abbrev pub outside : External
outside = record {
  parse_uuid = λ s.
      if str_eq s "20"
      then some 20
      else (if str_eq s "10" then some 10 else (if str_eq s "40" then some 40 else none));
  uuid_text = λ id. if id == 40 then "40" else (if id == 10 then "10" else "20");
  parse_duration = λ s. some (positive hour);
  parse_json = λ s. none;
}

-- An identity provider whose tokens carry the code as their nonce.
abbrev pub google : OidcClient
google = record {
  new_provider = λ n url. some 7;
  auth_code_url = λ cfg state params. state;
  exchange = λ n cfg code params. some (record { id_token = some code });
  verify = λ n remote client_id raw. some (record {
    nonce = raw;
    claims = some (record { sub = "sub"; email = "a@x.org"; name = "A" });
  });
  pkce_challenge = λ verifier. verifier;
}

abbrev pub plain_bcrypt : Bcrypt
plain_bcrypt = record {
  compare = λ hash plain. if str_eq hash plain then same else mismatch;
  generate = λ cost n plain. some plain;
}

pub plain-lawful :
    (n : ℕ) (plain hash : String)
    → plain_bcrypt.generate Password.cost n plain ≡ some hash
    → plain_bcrypt.compare hash plain ≡ Password.same
plain-lawful n plain hash h = ground (arith, eq_refl plain)

abbrev pub methods : Registry
methods = ("password", Password.adapter plain_bcrypt) ∷ []

pub methods-Unwritten : EachKeeps Unwritten methods
methods-Unwritten = (password-KeepsAll Unwritten-IsOrder plain_bcrypt, tt)

pub methods-SameRows : EachKeeps (SameRows 2) methods
methods-SameRows = (password-KeepsAll (SameRows-IsOrder 2) plain_bcrypt, tt)

abbrev pub ui_of : UiInternal → Ui
ui_of i = record { action = ""; method = "POST"; nodes = []; messages = []; internal = some i }

abbrev pub flow_of : FlowType → Option Uuid → UiInternal → Flow
flow_of kind identity i = record {
  id = 10;
  tenant_id = 1;
  kind = kind;
  state = pending;
  identity_id = identity;
  ui = ui_of i;
  expires_at = 1000;
}

abbrev pub alice : Identity
alice = record {
  id = 20;
  tenant_id = 1;
  schema_id = 5;
  traits = obj (member "email" (str "a@x.org") end);
  state = "pending_verification";
}

abbrev pub alice_password : Credential
alice_password = record {
  id = 30;
  tenant_id = 1;
  identity_id = 20;
  kind = "password";
  identifiers = "a@x.org" ∷ [];
  config = encode_config "secret";
}

abbrev pub with_flow : Flow → World
with_flow f = record {
  db = record {
    flows = f ∷ [];
    identities = alice ∷ [];
    credentials = alice_password ∷ [];
    sessions = [];
    policies = [];
    schemas = [];
    providers = [];
    tenants = [];
  };
  calls = 0;
  issuers = [];
}

abbrev pub form : String → String → List (String × String)
form identifier password = ("identifier", identifier) ∷ ("password", password) ∷ []
