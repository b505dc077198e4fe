-- ===== src/Flow.antt =====
-- internal/flow/flow.go, and the nodes and messages of internal/authenticator/authenticator.go
-- that a flow shows. Slices are lists, so a nil slice and an empty one are the same.
use enterprise_kratos.Base.{ℕ, String, Bool, true, false, Option, List, [], Uuid, Json}

pub record UiMessage : Type 0 where
  pub id : ℕ
  pub kind : String
  pub text : String

-- `any` values are JSON; `null` is the nil that `omitempty` drops.
pub record UiNodeAttrs : Type 0 where
  pub name : String
  pub kind : String
  pub value : Json
  pub required : Bool
  pub disabled : Bool

pub record UiNode : Type 0 where
  pub kind : String
  pub group : String
  pub attributes : UiNodeAttrs
  pub messages : List UiMessage
  pub label : Option UiMessage

-- An input node with its label, as the engines and adapters write them.
abbrev pub input_node : String → String → String → Json → Bool → UiMessage → UiNode
input_node group name kind value required label = record {
  kind = "input";
  group = group;
  attributes = record {
    name = name;
    kind = kind;
    value = value;
    required = required;
    disabled = false;
  };
  messages = [];
  label = Option.some label;
}

abbrev pub message : ℕ → String → String → UiMessage
message id kind text = record { id = id; kind = kind; text = text }

pub data FlowType : Type 0 where
  login registration recovery settings verification : FlowType

pub data State : Type 0 where
  pending success failed expired : State

abbrev pub is_pending : State → Bool
is_pending pending = true
is_pending _ = false

abbrev pub same_type : FlowType → FlowType → Bool
same_type login login = true
same_type registration registration = true
same_type recovery recovery = true
same_type settings settings = true
same_type verification verification = true
same_type _ _ = false

pub record UiInternal : Type 0 where
  pub phase : String
  pub authn_states : List (String × String)
  pub completed_aal : String
  pub completed_amr : List String
  pub verification_token : String
  pub oidc_provider_id : String
  pub oidc_nonce : String
  pub oidc_code_verifier : String
  pub recovery_token : String
  pub recovery_identity_id : String

-- `&flow.UIInternal{Phase: p}`.
abbrev pub in_phase : String → UiInternal
in_phase p = record {
  phase = p;
  authn_states = [];
  completed_aal = "";
  completed_amr = [];
  verification_token = "";
  oidc_provider_id = "";
  oidc_nonce = "";
  oidc_code_verifier = "";
  recovery_token = "";
  recovery_identity_id = "";
}

pub record Ui : Type 0 where
  pub action : String
  pub method : String
  pub nodes : List UiNode
  pub messages : List UiMessage
  pub internal : Option UiInternal

pub record Flow : Type 0 where
  pub id : Uuid
  pub tenant_id : Uuid
  pub kind : FlowType
  pub state : State
  pub identity_id : Option Uuid
  pub ui : Ui
  pub expires_at : ℕ

-- What `toResponse` of the handlers (internal/flow/login/handler.go and three others) shows of a
-- flow: its `UI.Internal` and its identity stay inside.
pub record ClientFlow : Type 0 where
  pub id : Uuid
  pub kind : FlowType
  pub state : State
  pub action : String
  pub method : String
  pub nodes : List UiNode
  pub messages : List UiMessage

abbrev pub to_response : Flow → ClientFlow
to_response f = record {
  id = f.id;
  kind = f.kind;
  state = f.state;
  action = f.ui.action;
  method = f.ui.method;
  nodes = f.ui.nodes;
  messages = f.ui.messages;
}
