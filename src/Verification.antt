-- ===== src/Verification.antt =====
-- internal/flow/verification/engine.go.
pub mod Keeping
pub mod Tokens
pub mod RoundTrip
use enterprise_kratos.Base.{
  String, not, ◌+◌, Option, none, some, [], Uuid, str_eq, if◌then◌else◌, hour, ℕ,
}
use enterprise_kratos.Flow.{
  Flow, Ui, UiInternal, in_phase, pending, success, failed, verification, same_type,
}
use enterprise_kratos.Identity.{state_active}
use enterprise_kratos.Errors.{wrong_flow_type, no_identity, no_token, invalid_token}
use enterprise_kratos.Store.{Env, M, done, fail, ignore, time_now, generate_token, ◌>>=◌, ◌>>◌}
use enterprise_kratos.Store.Flows
use enterprise_kratos.Store.Identities.{update_identity_state}
use enterprise_kratos.Engine.{require, require_pending, some_or}

abbrev pub flow_ttl : ℕ
flow_ttl = hour

abbrev pub verify_internal : String → UiInternal
verify_internal token = record (in_phase "verify") { verification_token = token }

abbrev pub verify_ui : String → Ui
verify_ui token = record {
  action = "";
  method = "POST";
  nodes = [];
  messages = [];
  internal = some (verify_internal token);
}

abbrev pub stored_token : Option UiInternal → String
stored_token none = ""
stored_token (some i) = i.verification_token

abbrev pub complete_ui : Ui → Ui
complete_ui ui = record ui { internal = some (in_phase "complete") }

module _ ⦃env : Env⦄ where
  unfoldable pub init_flow : Uuid → Uuid → M (Flow × String)
  init_flow tenant identity = do
    token ← generate_token
    now ← time_now
    f ← Flows.create tenant verification (verify_ui token) (now + flow_ttl)
    Flows.update tenant f.id pending (some identity) f.ui
    done (record f { identity_id = some identity }, token)

  unfoldable pub get_flow : Uuid → Uuid → M Flow
  get_flow tenant id = Flows.get tenant id

  -- The comparison of the tokens; a mismatch fails the flow.
  unfoldable pub check_token : Uuid → Uuid → String → String → M (Unit {0})
  check_token tenant id token stored =
      if str_eq token stored
      then done tt
      else (do ignore (Flows.update_state tenant id failed); fail invalid_token)

  unfoldable pub submit_flow : Uuid → Uuid → String → M (Unit {0})
  submit_flow tenant id token = do
    f ← Flows.get tenant id
    require_pending f
    require (same_type f.kind verification) (wrong_flow_type f.kind)
    identity ← some_or no_identity f.identity_id
    require (not (str_eq (stored_token f.ui.internal) "")) no_token
    check_token tenant id token (stored_token f.ui.internal)
    update_identity_state tenant identity state_active
    Flows.update tenant id success (some identity) (complete_ui f.ui)
