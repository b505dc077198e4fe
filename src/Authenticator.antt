-- ===== src/Authenticator.antt =====
-- internal/authenticator/authenticator.go: the interface that every authentication method
-- implements, as a record of operations.
pub mod Registry
pub mod Password
pub mod Oidc
pub mod Rest
pub mod Keeping
use enterprise_kratos.Base.{String, Bool, true, false, List, Uuid, Json, ◌≡◌}
use enterprise_kratos.Flow.{UiNode}
use enterprise_kratos.Store.{Tables, World, M}

pub data Factor : Type 0 where
  first_factor second_factor either : Factor

pub record StartFlowRequest : Type 0 where
  pub tenant_id : Uuid
  pub identity_id : Uuid
  pub flow_id : Uuid
  pub params : List (String × String)

pub record FlowState : Type 0 where
  pub nodes : List UiNode
  pub state : String

pub record CompleteFlowRequest : Type 0 where
  pub tenant_id : Uuid
  pub identity_id : Uuid
  pub flow_id : Uuid
  pub flow_state : String
  pub values : List (String × String)
  pub credential_config : Json

pub record AuthResult : Type 0 where
  pub identity_id : Uuid
  pub aal : String
  pub amr : List String
  pub credential_config : Json

pub record EnrollRequest : Type 0 where
  pub tenant_id : Uuid
  pub identity_id : Uuid
  pub values : List (String × String)

pub record EnrollResult : Type 0 where
  pub credential_type : String
  pub identifiers : List String
  pub credential_config : Json

pub record UnenrollRequest : Type 0 where
  pub tenant_id : Uuid
  pub identity_id : Uuid
  pub credential_id : Uuid

pub record Authenticator : Type 0 where
  pub id : String
  pub factor : Factor
  pub start_flow : StartFlowRequest → M FlowState
  pub complete_flow : CompleteFlowRequest → M AuthResult
  pub enroll : EnrollRequest → M EnrollResult
  pub unenroll : UnenrollRequest → M (Unit {0})
