-- ===== src/Recovery.antt =====
-- internal/flow/recovery/engine.go.
pub mod Keeping
pub mod Link
pub mod Privacy
use enterprise_kratos.Base.{
  ℕ, String, Bool, true, false, not, ◌*◌, ◌+◌, ◌⊎◌, inl, inr, none, some, List, [], ◌∷◌, Uuid, null,
  str, str_eq, if◌then◌else◌, minute,
}
use enterprise_kratos.Flow.{
  Flow, FlowType, State, Ui, UiInternal, UiNode, UiMessage, input_node, message, in_phase, pending,
  success, failed, recovery, same_type,
}
use enterprise_kratos.Identity.{Session, state_active}
use enterprise_kratos.External.{External}
use enterprise_kratos.Errors.{
  Error, recovery_disabled, wrong_flow_type, wrong_phase, no_token, invalid_token,
  invalid_identity_id,
}
use enterprise_kratos.Store.{
  Env, M, done, fail, attempt, ignore, time_now, generate_token, ◌>>=◌, ◌>>◌,
}
use enterprise_kratos.Store.Flows
use enterprise_kratos.Store.Policies
use enterprise_kratos.Store.Sessions
use enterprise_kratos.Store.Identities.{update_identity_state, get_identity_id_by_identifier}
use enterprise_kratos.Engine.{require, require_pending, some_or}

abbrev pub flow_ttl : ℕ
flow_ttl = 30 * minute

abbrev pub recovery_session_ttl : ℕ
recovery_session_ttl = 15 * minute

abbrev pub email_node : UiNode
email_node = input_node "default" "email" "email" null true (message 1070007 "info" "Email")

abbrev pub link_node : UiNode
link_node =
    input_node "default" "method" "submit" (str "link") false (message 1060001 "info" "Submit")

abbrev pub request_ui : Ui
request_ui = record {
  action = "";
  method = "POST";
  nodes = email_node ∷ link_node ∷ [];
  messages = [];
  internal = some (in_phase "request");
}

abbrev pub sent : UiMessage
sent = message 1060003 "info" "If an account with that email exists, a recovery link has been sent."

-- `recovery_identity_id` is empty where no identity was found.
abbrev pub link_internal : String → String → UiInternal
link_internal token identity = record (in_phase "pending_link") {
  recovery_token = token;
  recovery_identity_id = identity;
}

abbrev pub link_ui : Ui → String → String → Ui
link_ui ui token identity = record ui {
  nodes = [];
  messages = sent ∷ [];
  internal = some (link_internal token identity);
}

abbrev pub complete_ui : Ui → Ui
complete_ui ui = record ui { internal = some (in_phase "complete") }

abbrev pub is_pending_link : UiInternal → Bool
is_pending_link i = str_eq i.phase "pending_link"

module _ ⦃env : Env⦄ where
  unfoldable pub init_flow : Uuid → M Flow
  init_flow tenant = do
    pol ← Policies.get tenant
    require pol.recovery.enabled recovery_disabled
    now ← time_now
    Flows.create tenant recovery request_ui (now + flow_ttl)

  unfoldable pub get_flow : Uuid → Uuid → M Flow
  get_flow tenant id = Flows.get tenant id

module _ ⦃env : Env⦄ (ext : External) where
  -- The flow moves on whether or not an account has that email.
  unfoldable pub advanced : Uuid → Flow → String → Error ⊎ Uuid → M String
  advanced tenant f token (inl _) = do
    ignore (Flows.update tenant f.id pending none (link_ui f.ui token ""))
    done token
  advanced tenant f token (inr identity) = do
    Flows.update tenant f.id pending (some identity) (link_ui f.ui token (ext.uuid_text identity))
    done token

  unfoldable pub request_recovery : Uuid → Uuid → String → M String
  request_recovery tenant id email = do
    f ← Flows.get tenant id
    require_pending f
    require (same_type f.kind recovery) (wrong_flow_type f.kind)
    pol ← Policies.get tenant
    require pol.recovery.enabled recovery_disabled
    looked_up ← attempt (get_identity_id_by_identifier tenant email)
    token ← generate_token
    advanced tenant f token looked_up

  -- `UpdateState` to failed, then the error.
  unfoldable pub reject_token {ℓ} : {A : Type ℓ} → Uuid → Uuid → M A
  reject_token tenant id = do ignore (Flows.update_state tenant id failed); fail invalid_token

  unfoldable pub check_token : Uuid → Uuid → String → UiInternal → M (Unit {0})
  check_token tenant id token i =
      if str_eq token i.recovery_token
      then (if str_eq i.recovery_identity_id "" then reject_token tenant id else done tt)
      else reject_token tenant id

  unfoldable pub use_token : Uuid → Uuid → String → M (Session × Uuid)
  use_token tenant id token = do
    f ← Flows.get tenant id
    require_pending f
    require (same_type f.kind recovery) (wrong_flow_type f.kind)
    internal ← some_or wrong_phase f.ui.internal
    require (is_pending_link internal) wrong_phase
    require (not (str_eq internal.recovery_token "")) no_token
    check_token tenant id token internal
    identity ← some_or invalid_identity_id (ext.parse_uuid internal.recovery_identity_id)
    update_identity_state tenant identity state_active
    s ← Sessions.create tenant identity "aal1" ("recovery" ∷ []) recovery_session_ttl
    ignore (Flows.update tenant id success (some identity) (complete_ui f.ui))
    done (s, identity)
