-- ===== src/Login.antt =====
-- internal/flow/login/engine.go. The engine's interfaces are the stores of Store/ and the registry,
-- as cmd/idpd/main.go wires them.
pub mod Keeping
pub mod Outcome
pub mod Completion
pub mod Soundness
pub mod FirstFactor
pub mod Refusals
use enterprise_kratos.Base.{
  ℕ, String, Bool, true, false, not, ◌&&◌, ◌*◌, ◌+◌, Option, none, some, List, [], ◌∷◌, ◌++◌, ◌⊎◌,
  inl, inr, Uuid, uuid_nil, Json, str, null, str_eq, if◌then◌else◌, value_of, put, contains_str,
  is_empty, minute,
}
use enterprise_kratos.Flow.{
  Flow, Ui, UiInternal, UiNode, input_node, message, in_phase, pending, success, login,
}
use enterprise_kratos.Policy.{FlowPolicy}
use enterprise_kratos.Identity.{Credential}
use enterprise_kratos.External.{External}
use enterprise_kratos.Errors.{
  Error, authenticator_not_found, credential_not_found, unknown_phase, method_not_allowed,
  missing_identifier, invalid_credentials, no_identity, not_enrolled,
}
use enterprise_kratos.Store.{Env, M, done, fail, panics, attempt, ignore, time_now, ◌>>=◌, ◌>>◌}
use enterprise_kratos.Store.Flows
use enterprise_kratos.Store.Policies
use enterprise_kratos.Store.Identities.{get_by_identifier, get_by_identity_and_type}
use enterprise_kratos.Authenticator.{
  CompleteFlowRequest, Authenticator, StartFlowRequest, AuthResult,
}
use enterprise_kratos.Authenticator.Registry.{Registry, get}
use enterprise_kratos.Engine.{require, require_pending, some_or, returned, parse_session_ttl}

abbrev pub flow_ttl : ℕ
flow_ttl = 30 * minute

pub record SubmitResult : Type 0 where
  pub flow : Flow
  pub completed : Bool
  pub identity_id : Uuid
  pub aal : String
  pub amr : List String
  pub session_ttl : ℕ

abbrev pub States : Type 0
States = List (String × String)

-- `if state.State != "" { authnStates[methodID] = state.State }`.
abbrev pub noted : String → String → States → States
noted method state states = if str_eq state "" then states else put method state states

abbrev pub is_not_registered : Error → Bool
is_not_registered authenticator_not_found = true
is_not_registered _ = false

-- One round of the loop over the allowed methods, then the rest of it.
unfoldable pub started :
    StartFlowRequest
    → String
    → (List UiNode → States → M (List UiNode × States))
    → List UiNode
    → States
    → Error ⊎ Authenticator
    → M (List UiNode × States)
started request method rest nodes states (inl e) =
    if is_not_registered e then rest nodes states else fail e
started request method rest nodes states (inr a) = do
  answer ← a.start_flow request
  rest (nodes ++ answer.nodes) (noted method answer.state states)

-- The loop of `InitFlow` and of `advanceToSecondFactor`.
unfoldable pub start_all :
    Registry → StartFlowRequest → List String → List UiNode → States → M (List UiNode × States)
start_all reg request [] nodes states = done (nodes, states)
start_all reg request (method ∷ methods) nodes states =
    started request method (start_all reg request methods) nodes states (get method reg)

abbrev pub identifier_node : UiNode
identifier_node = input_node "default" "identifier" "text" null true (message 1070022 "info" "ID")

abbrev pub submit_node : String → UiNode
submit_node method =
    input_node "default" "method" "submit" (str method) false (message 1010001 "info" "Sign in")

abbrev pub first_factor_internal : States → UiInternal
first_factor_internal states = record (in_phase "first_factor") { authn_states = states }

abbrev pub first_factor_ui : List UiNode → States → Ui
first_factor_ui nodes states = record {
  action = "";
  method = "POST";
  nodes = nodes;
  messages = [];
  internal = some (first_factor_internal states);
}

-- `pol.Login.AllowedFirstFactors[0]`.
unfoldable pub first_of_methods : List String → M String
first_of_methods [] = panics
first_of_methods (m ∷ _) = done m

abbrev pub phase_of : Option UiInternal → String
phase_of none = "first_factor"
phase_of (some i) = if str_eq i.phase "" then "first_factor" else i.phase

abbrev pub state_for : String → Option UiInternal → String
state_for method none = ""
state_for method (some i) = value_of method i.authn_states

-- What the authenticator is asked, in either factor.
abbrev pub factor_request :
    Flow → Uuid → String → List (String × String) → Json → CompleteFlowRequest
factor_request f identity method values config = record {
  tenant_id = f.tenant_id;
  identity_id = identity;
  flow_id = f.id;
  flow_state = state_for method f.ui.internal;
  values = values;
  credential_config = config;
}

abbrev pub prior_amr : Option UiInternal → List String
prior_amr none = []
prior_amr (some i) = i.completed_amr

abbrev pub completed_internal : String → List String → UiInternal
completed_internal aal amr = record (in_phase "complete") {
  completed_aal = aal;
  completed_amr = amr;
}

abbrev pub completed_ui : Ui → String → List String → Ui
completed_ui ui aal amr = record ui {
  nodes = [];
  messages = [];
  internal = some (completed_internal aal amr);
}

abbrev pub second_factor_internal : States → List String → UiInternal
second_factor_internal states amr = record (in_phase "second_factor") {
  authn_states = states;
  completed_aal = "aal1";
  completed_amr = amr;
}

abbrev pub second_factor_ui : Ui → List UiNode → States → List String → Ui
second_factor_ui ui nodes states amr = record ui {
  nodes = nodes;
  messages = [];
  internal = some (second_factor_internal states amr);
}

abbrev pub needs_second_factor : FlowPolicy → Bool
needs_second_factor pol = pol.login.mfa_required && not (is_empty pol.login.allowed_second_factors)

abbrev pub wrong_first : String
wrong_first =
    "The provided credentials are invalid. Check for spelling mistakes in your password or username, email address, or phone number."

abbrev pub wrong_second : String
wrong_second = "The provided credentials are invalid."

abbrev pub is_credential_not_found : Error → Bool
is_credential_not_found credential_not_found = true
is_credential_not_found _ = false

-- The failed lookup of a credential, with what it is reported as if there is none.
unfoldable pub credential_or : Error → Error ⊎ Credential → M Credential
credential_or unknown (inr c) = done c
credential_or unknown (inl e) = if is_credential_not_found e then fail unknown else fail e

module _ ⦃env : Env⦄ where
  pub append_flow_error : Flow → String → M (Unit {0})
  append_flow_error f text = ignore (
      Flows.update f.tenant_id f.id pending f.identity_id
        (record (f.ui) { messages = message 4000006 "error" text ∷ [] }))

  -- A refusal by the authenticator is shown in the flow.
  unfoldable pub accepted : Flow → String → Error ⊎ AuthResult → M AuthResult
  unfolding append_flow_error
  accepted f text (inr r) = done r
  accepted f text (inl e) = do append_flow_error f text; fail e

module _ ⦃env : Env⦄ (ext : External) (reg : Registry) where
  unfoldable pub init_flow : Uuid → M Flow
  unfolding start_all
  init_flow tenant = do
    pol ← Policies.get tenant
    (nodes, states) ←
        start_all reg
          (record { tenant_id = tenant; identity_id = uuid_nil; flow_id = uuid_nil; params = [] })
          pol.login.allowed_first_factors (identifier_node ∷ []) []
    method ← first_of_methods pol.login.allowed_first_factors
    now ← time_now
    Flows.create tenant login (first_factor_ui (nodes ++ submit_node method ∷ []) states)
        (now + flow_ttl)

  unfoldable pub get_flow : Uuid → Uuid → M Flow
  get_flow tenant id = Flows.get tenant id

  -- `&SubmitResult{Flow: f, Completed: false}`.
  abbrev pub announced_result : Flow → Uuid → Ui → SubmitResult
  announced_result f identity ui = record {
    flow = record f { ui = ui; identity_id = some identity };
    completed = false;
    identity_id = uuid_nil;
    aal = "";
    amr = [];
    session_ttl = 0;
  }

  -- What `advanceToSecondFactor` does with the nodes and states: the flow stays pending.
  unfoldable pub announced : Flow → Uuid → List String → List UiNode → States → M SubmitResult
  announced f identity amr nodes states = do
    Flows.update f.tenant_id f.id pending (some identity) (second_factor_ui f.ui nodes states amr)
    done (announced_result f identity (second_factor_ui f.ui nodes states amr))

  unfoldable pub advance_to_second_factor : Flow → FlowPolicy → Uuid → List String → M SubmitResult
  unfolding start_all
  advance_to_second_factor f pol identity amr = do
    (nodes, states) ←
        start_all reg
          (record { tenant_id = f.tenant_id; identity_id = identity; flow_id = f.id; params = [] })
          pol.login.allowed_second_factors [] []
    announced f identity amr nodes states

  abbrev pub completed_result : Flow → FlowPolicy → Uuid → String → List String → SubmitResult
  completed_result f pol identity aal amr = record {
    flow = record f {
      ui = completed_ui f.ui aal amr;
      identity_id = some identity;
      state = success;
    };
    completed = true;
    identity_id = identity;
    aal = aal;
    amr = amr;
    session_ttl = parse_session_ttl ext pol;
  }

  -- The end of both factors: the flow is marked successful.
  unfoldable pub complete : Flow → FlowPolicy → Uuid → String → List String → M SubmitResult
  complete f pol identity aal amr = do
    Flows.update f.tenant_id f.id success (some identity) (completed_ui f.ui aal amr)
    done (completed_result f pol identity aal amr)

  unfoldable pub first_factor_accepted : Flow → FlowPolicy → Uuid → List String → M SubmitResult
  first_factor_accepted f pol identity amr =
      if needs_second_factor pol
      then advance_to_second_factor f pol identity amr
      else complete f pol identity "aal1" amr

  unfoldable pub submit_first_factor :
      Flow → FlowPolicy → String → List (String × String) → M SubmitResult
  submit_first_factor f pol method values = do
    require (contains_str pol.login.allowed_first_factors method) (method_not_allowed method)
    a ← returned (get method reg)
    require (not (str_eq (value_of "identifier" values) "")) missing_identifier
    looked_up ← attempt (get_by_identifier f.tenant_id method (value_of "identifier" values))
    cred ← credential_or invalid_credentials looked_up
    answer ← attempt (a.complete_flow (factor_request f cred.identity_id method values cred.config))
    result ← accepted f wrong_first answer
    first_factor_accepted f pol cred.identity_id result.amr

  unfoldable pub submit_second_factor :
      Flow → FlowPolicy → String → List (String × String) → M SubmitResult
  submit_second_factor f pol method values = do
    require (contains_str pol.login.allowed_second_factors method) (method_not_allowed method)
    identity ← some_or no_identity f.identity_id
    a ← returned (get method reg)
    looked_up ← attempt (get_by_identity_and_type f.tenant_id identity method)
    cred ← credential_or (not_enrolled method) looked_up
    answer ← attempt (a.complete_flow (factor_request f identity method values cred.config))
    result ← accepted f wrong_second answer
    complete f pol identity "aal2" (prior_amr f.ui.internal ++ result.amr)

  unfoldable pub submit_in_phase :
      String → Flow → FlowPolicy → String → List (String × String) → M SubmitResult
  submit_in_phase phase f pol method values =
      if str_eq phase "first_factor"
      then submit_first_factor f pol method values
      else if str_eq phase "second_factor"
      then submit_second_factor f pol method values
      else fail (unknown_phase phase)

  unfoldable pub submit_flow : Uuid → Uuid → String → List (String × String) → M SubmitResult
  submit_flow tenant id method values = do
    f ← Flows.get tenant id
    require_pending f
    pol ← Policies.get tenant
    submit_in_phase (phase_of f.ui.internal) f pol method values
