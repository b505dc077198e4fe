-- ===== src/Registration.antt =====
-- internal/flow/registration/engine.go.
pub mod Keeping
pub mod Accounts
pub mod Soundness
pub mod RoundTrip
use enterprise_kratos.Base.{
  ℕ, String, Bool, true, false, not, ◌*◌, ◌+◌, ◌⊎◌, inl, inr, some, List, [], ◌∷◌, ◌++◌, Uuid,
  uuid_nil, null, str, str_eq, if◌then◌else◌, contains_str, is_empty, minute,
}
use enterprise_kratos.Flow.{
  Flow, Ui, UiNode, input_node, message, in_phase, success, registration, same_type,
}
use enterprise_kratos.Policy.{FlowPolicy}
use enterprise_kratos.Identity.{Credential, state_active, state_pending_verification}
use enterprise_kratos.External.{External}
use enterprise_kratos.Errors.{
  Error, credential_not_found, wrong_flow_type, registration_disabled, method_not_allowed,
  missing_identifier, account_exists,
}
use enterprise_kratos.Store.{Env, M, done, fail, attempt, time_now, ◌>>=◌, ◌>>◌}
use enterprise_kratos.Store.Flows
use enterprise_kratos.Store.Policies
use enterprise_kratos.Store.Schemas.{ensure_default}
use enterprise_kratos.Store.Identities.{get_by_identifier, create_identity, create_credential}
use enterprise_kratos.Authenticator.{EnrollResult}
use enterprise_kratos.Authenticator.Registry.{Registry, get}
use enterprise_kratos.Engine.{require, require_pending, returned, parse_session_ttl}
use enterprise_kratos.Traits.{build_traits, extract_identifier}
use enterprise_kratos.Login.{start_all}
use enterprise_kratos.Verification

abbrev pub flow_ttl : ℕ
flow_ttl = 30 * minute

pub record SubmitResult : Type 0 where
  pub flow : Flow
  pub completed : Bool
  pub needs_verification : Bool
  pub identity_id : Uuid
  pub session_ttl : ℕ
  pub verification_flow_id : Uuid
  pub verification_token : String

abbrev pub email_node : UiNode
email_node = input_node "default" "traits.email" "email" null true (message 1070002 "info" "Email")

abbrev pub submit_node : String → UiNode
submit_node method =
    input_node "default" "method" "submit" (str method) false (message 1040001 "info" "Sign up")

abbrev pub first_or_empty : List String → String
first_or_empty [] = ""
first_or_empty (m ∷ _) = m

abbrev pub register_ui : List UiNode → Ui
register_ui nodes = record {
  action = "";
  method = "POST";
  nodes = nodes;
  messages = [];
  internal = some (in_phase "register");
}

abbrev pub complete_ui : Ui → Ui
complete_ui ui = record ui { nodes = []; messages = []; internal = some (in_phase "complete") }

abbrev pub is_credential_not_found : Error → Bool
is_credential_not_found credential_not_found = true
is_credential_not_found _ = false

-- The identifier must not be found.
unfoldable pub must_be_free : Error ⊎ Credential → M (Unit {0})
must_be_free (inr c) = fail account_exists
must_be_free (inl e) = if is_credential_not_found e then done tt else fail e

abbrev pub state_for : FlowPolicy → String
state_for pol =
    if pol.registration.require_verification then state_pending_verification else state_active

abbrev pub identifiers_or : String → List String → List String
identifiers_or identifier identifiers =
    if is_empty identifiers then identifier ∷ [] else identifiers

module _ ⦃env : Env⦄ (ext : External) (reg : Registry) where
  unfoldable pub init_flow : Uuid → M Flow
  init_flow tenant = do
    pol ← Policies.get tenant
    require pol.registration.enabled registration_disabled
    (nodes, _) ←
        start_all reg
          (record { tenant_id = tenant; identity_id = uuid_nil; flow_id = uuid_nil; params = [] })
          pol.login.allowed_first_factors (email_node ∷ []) []
    now ← time_now
    Flows.create tenant registration
        (register_ui (nodes ++ submit_node (first_or_empty pol.login.allowed_first_factors) ∷ []))
        (now + flow_ttl)

  unfoldable pub get_flow : Uuid → Uuid → M Flow
  get_flow tenant id = Flows.get tenant id

  -- The results of `SubmitFlow`, where verification is required and where it is not.
  abbrev pub awaiting : Flow → Uuid → Flow × String → SubmitResult
  awaiting f identity (vf, token) = record {
    flow = f;
    completed = false;
    needs_verification = true;
    identity_id = identity;
    session_ttl = 0;
    verification_flow_id = vf.id;
    verification_token = token;
  }

  abbrev pub registered : Flow → FlowPolicy → Uuid → SubmitResult
  registered f pol identity = record {
    flow = f;
    completed = true;
    needs_verification = false;
    identity_id = identity;
    session_ttl = parse_session_ttl ext pol;
    verification_flow_id = uuid_nil;
    verification_token = "";
  }

  -- What `SubmitFlow` returns once the account is created and the flow is successful.
  unfoldable pub finish : Uuid → Flow → FlowPolicy → Uuid → M SubmitResult
  finish tenant f pol identity =
      if pol.registration.require_verification
      then (do started ← Verification.init_flow tenant identity; done (awaiting f identity started))
      else done (registered f pol identity)

  -- From `EnsureDefault` on: the identity, its credential, and the end of the flow.
  unfoldable pub create_account :
      Uuid → Flow → FlowPolicy → List (String × String) → String → EnrollResult → M SubmitResult
  create_account tenant f pol values identifier enrolled = do
    schema ← ensure_default tenant
    i ← create_identity tenant schema.id (build_traits values identifier) (state_for pol)
    _ ←
        create_credential tenant i.id enrolled.credential_type
          (identifiers_or identifier enrolled.identifiers) enrolled.credential_config
    Flows.update tenant f.id success (some i.id) (complete_ui f.ui)
    finish tenant (record f { ui = complete_ui f.ui; state = success; identity_id = some i.id }) pol
        i.id

  unfoldable pub submit_flow : Uuid → Uuid → String → List (String × String) → M SubmitResult
  submit_flow tenant id method values = do
    f ← Flows.get tenant id
    require_pending f
    require (same_type f.kind registration) (wrong_flow_type f.kind)
    pol ← Policies.get tenant
    require pol.registration.enabled registration_disabled
    require (contains_str pol.login.allowed_first_factors method) (method_not_allowed method)
    require (not (str_eq (extract_identifier ext values) "")) missing_identifier
    looked_up ← attempt (get_by_identifier tenant method (extract_identifier ext values))
    must_be_free looked_up
    a ← returned (get method reg)
    enrolled ← a.enroll (record { tenant_id = tenant; identity_id = uuid_nil; values = values })
    create_account tenant f pol values (extract_identifier ext values) enrolled
