-- ===== src/Migration/Kratos.antt =====
-- internal/migration/kratos.go: the queries of the Kratos database, and the schema behind a URL.
-- The migration does not write to that database, so its tables are a parameter; its calls fail as
-- any other call. GROUP BY takes the primary key of a credential, so one row comes of each.
use enterprise_kratos.Base.{
  ℕ, suc, String, Bool, ◌&&◌, Option, none, some, List, [], ◌∷◌, Uuid, Json, ltb, ◌==◌,
  if◌then◌else◌, find, select,
}
use Prim.Native.String.{len}
use text.Mathlib.Text.{starts_with, get?}
use enterprise_kratos.Errors.{
  Error, no_network, unreadable_config, unreadable_schema, unsupported_scheme,
}
use enterprise_kratos.Store.{Env, M, done, fail, found_or, query, time_now, ◌>>=◌, ◌>>◌}
use enterprise_kratos.Migration.Config.{KratosConfig}

pub record KratosIdentity : Type 0 where
  pub id : Uuid
  pub nid : Uuid
  pub schema_id : String
  pub traits : Json
  pub state : String

pub record CredentialRow : Type 0 where
  pub id : Uuid
  pub nid : Uuid
  pub identity_id : Uuid
  pub type_id : Uuid
  pub config : Json

pub record IdentifierRow : Type 0 where
  pub credential_id : Uuid
  pub nid : Uuid
  pub identifier : Option String

pub record KratosSession : Type 0 where
  pub id : Uuid
  pub nid : Uuid
  pub identity_id : Uuid
  pub token : String
  pub expires_at : ℕ
  pub active : Bool
  pub aal : String

-- The tables networks, identities, identity_credential_types, identity_credentials,
-- identity_credential_identifiers and sessions.
pub record KratosTables : Type 0 where
  pub networks : List Uuid
  pub identities : List KratosIdentity
  pub types : List (Uuid × String)
  pub credentials : List CredentialRow
  pub identifiers : List IdentifierRow
  pub sessions : List KratosSession

-- A joined row.
pub record KratosCredential : Type 0 where
  pub id : Uuid
  pub identity_id : Uuid
  pub kind : String
  pub config : Json
  pub identifiers : List String

-- Files, Base64, HTTP and YAML, each asked by the number of the call.
pub record Sources : Type 0 where
  pub read_file : ℕ → String → Option String
  pub decode_base64 : String → Option String
  pub http_get : ℕ → String → Option String
  pub parse_yaml : String → Option KratosConfig

abbrev not_null : List IdentifierRow → List String
not_null [] = []
not_null (r ∷ rs) = let rest = not_null rs in some_before r.identifier rest
  where
    some_before : Option String → List String → List String
    some_before none rest = rest
    some_before (some s) rest = s ∷ rest

module _ (nid : Uuid) (k : KratosTables) where
  abbrev identifiers_of : Uuid → List String
  identifiers_of id = not_null (select (λ r. r.credential_id == id && r.nid == nid) k.identifiers)

  abbrev joined :
      CredentialRow → Option (Uuid × String) → List KratosCredential → List KratosCredential
  joined c none rest = rest
  joined c (some t) rest =
      record {
        id = c.id;
        identity_id = c.identity_id;
        kind = t.1;
        config = c.config;
        identifiers = identifiers_of c.id;
      }
      ∷ rest

  -- The inner join with the types and the left join with the identifiers.
  abbrev pub join_credentials : List CredentialRow → List KratosCredential
  join_credentials [] = []
  join_credentials (c ∷ cs) =
      let rest = join_credentials cs in
      if c.nid == nid then joined c (find (λ t. t.0 == c.type_id) k.types) rest else rest

abbrev first_network : List Uuid → Option Uuid
first_network [] = none
first_network (n ∷ _) = some n

module _ ⦃env : Env⦄ (k : KratosTables) where
  -- `NewKratosReader`, once the pool is configured: a ping, then the network.
  unfoldable pub discover_nid : M Uuid
  discover_nid = do row ← query (λ _. first_network k.networks); found_or no_network row

  unfoldable pub given_or_discovered : Option Uuid → M Uuid
  given_or_discovered (some nid) = done nid
  given_or_discovered none = discover_nid

  unfoldable pub new_kratos_reader : Option Uuid → M Uuid
  new_kratos_reader nid = query (λ _. tt) >> given_or_discovered nid

  unfoldable pub identities : Uuid → M (List KratosIdentity)
  identities nid = query λ _. select (λ i. i.nid == nid) k.identities

  unfoldable pub credentials : Uuid → M (List KratosCredential)
  credentials nid = query λ _. join_credentials nid k k.credentials

  unfoldable pub active_sessions : Uuid → M (List KratosSession)
  active_sessions nid = do
    now ← time_now
    query λ _. select (λ s. s.nid == nid && (s.active && ltb now s.expires_at)) k.sessions

-- `strings.HasPrefix` and `strings.TrimPrefix`.
abbrev cut_prefix : String → String → Option String
cut_prefix p s = if starts_with s p then get? s (len p) (len s) else none

unfoldable pub read_or {ℓ} : {A : Type ℓ} → Error → (ℕ → Option A) → M A
unfolding found_or
read_or e f w = found_or e (f w.calls) (record w { calls = suc w.calls })

module _ (src : Sources) where
  unfoldable pub fetch_remote : String → M String
  fetch_remote url =
      if starts_with url "http://"
      then read_or unreadable_schema (λ n. src.http_get n url)
      else (if starts_with url "https://"
          then read_or unreadable_schema (λ n. src.http_get n url)
          else fail (unsupported_scheme url))

  unfoldable pub fetch_encoded : String → Option String → M String
  fetch_encoded url (some text) = found_or unreadable_schema (src.decode_base64 text)
  fetch_encoded url none = fetch_remote url

  unfoldable pub fetch_file : String → Option String → M String
  fetch_file url (some path) = read_or unreadable_schema (λ n. src.read_file n path)
  fetch_file url none = fetch_encoded url (cut_prefix "base64://" url)

  unfoldable pub fetch_schema : String → M String
  fetch_schema url = fetch_file url (cut_prefix "file://" url)

  unfoldable pub parse_config : String → M KratosConfig
  parse_config path = do
    text ← read_or unreadable_config λ n. src.read_file n path
    found_or unreadable_config (src.parse_yaml text)
