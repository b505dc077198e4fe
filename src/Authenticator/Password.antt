-- ===== src/Authenticator/Password.antt =====
-- internal/authenticator/adapters/password/adapter.go. bcrypt is a parameter: a hash is salted, so
-- it depends on the call. Member names of the JSON config are compared as they are written.
pub mod Laws
use enterprise_kratos.Base.{
  ℕ, suc, String, true, Option, none, some, [], ◌∷◌, Json, null, str, obj, Members, end, member,
  str_eq, if◌then◌else◌, value_of,
}
use enterprise_kratos.Flow.{input_node, message}
use enterprise_kratos.Errors.{authenticator_error}
use enterprise_kratos.Store.{World, M, Result, done, fail, ◌>>=◌}
use enterprise_kratos.Authenticator.{
  Authenticator, first_factor, FlowState, CompleteFlowRequest, AuthResult, EnrollRequest,
  EnrollResult, StartFlowRequest, UnenrollRequest,
}

pub data Comparison : Type 0 where
  same mismatch broken_hash : Comparison

pub record Bcrypt : Type 0 where
  -- `CompareHashAndPassword`
  pub compare : String → String → Comparison
  -- `GenerateFromPassword`, by the cost, the number of the call and the password
  pub generate : ℕ → ℕ → String → Option String

abbrev pub cost : ℕ
cost = 12

-- `json.Unmarshal` into `credentialConfig`.
abbrev text_or_fail : Json → Option String
text_or_fail null = some ""
text_or_fail (str s) = some s
text_or_fail _ = none

abbrev hash_member : Members → Option String
hash_member end = some ""
hash_member (member k v ms) = if str_eq k "hashed_password" then text_or_fail v else hash_member ms

abbrev pub decode_config : Json → Option String
decode_config null = some ""
decode_config (obj ms) = hash_member ms
decode_config _ = none

abbrev pub encode_config : String → Json
encode_config hash = obj (member "hashed_password" (str hash) end)

unfoldable pub or_error {ℓ} : {A : Type ℓ} → String → Option A → M A
or_error text none = fail (authenticator_error text)
or_error text (some a) = done a

unfoldable pub start_flow : StartFlowRequest → M FlowState
start_flow r = done (record {
  nodes =
      input_node "password" "password" "password" null true (message 1070001 "info" "Password")
      ∷ [];
  state = "";
})

unfoldable pub compared : CompleteFlowRequest → Comparison → M AuthResult
compared r same = done (record {
  identity_id = r.identity_id;
  aal = "aal1";
  amr = "pwd" ∷ [];
  credential_config = null;
})
compared r mismatch = fail (authenticator_error "password: invalid credentials")
compared r broken_hash = fail (authenticator_error "password: compare hash")

module _ (bcrypt : Bcrypt) where
  unfoldable pub complete_flow : CompleteFlowRequest → M AuthResult
  complete_flow r =
      if str_eq (value_of "password" r.values) ""
      then fail (authenticator_error "password: missing password value")
      else (do
        hash ← or_error "password: decode credential config" (decode_config r.credential_config)
        compared r (bcrypt.compare hash (value_of "password" r.values)))

  unfoldable pub hashed : String → World → Result String × World
  hashed plain w =
      or_error "password: hash password" (bcrypt.generate cost w.calls plain)
        (record w { calls = suc w.calls })

  unfoldable pub enroll : EnrollRequest → M EnrollResult
  enroll r =
      if str_eq (value_of "password" r.values) ""
      then fail (authenticator_error "password: missing password value for enrollment")
      else (do
        hash ← hashed (value_of "password" r.values)
        done (record {
          credential_type = "password";
          identifiers = [];
          credential_config = encode_config hash;
        }))

  unfoldable pub unenroll : UnenrollRequest → M (Unit {0})
  unenroll r = done tt

  unfoldable pub adapter : Authenticator
  adapter = record {
    id = "password";
    factor = first_factor;
    start_flow = start_flow;
    complete_flow = complete_flow;
    enroll = enroll;
    unenroll = unenroll;
  }
