-- ===== src/Authenticator/Rest.antt =====
-- internal/authenticator/adapters/rest/adapter.go: an authenticator behind a REST service. The HTTP
-- client and the service are a parameter, and so is the decoding of UI nodes. Member names are
-- compared as they are written, and the members of a map are sent in the order of the list.
pub mod Soundness
use enterprise_kratos.Base.{
  ℕ, suc, String, Bool, true, false, ◌&&◌, Option, none, some, List, [], ◌∷◌, Json, null, bool, str,
  obj, Members, end, member, not, ltb, str_eq, if◌then◌else◌, text_member, is_empty,
}
use Prim.Native.String.{◌++◌ as text_append}
use enterprise_kratos.Flow.{UiNode}
use enterprise_kratos.Sso.{text_value, texts_value, member_or_null}
use enterprise_kratos.External.{External}
use enterprise_kratos.Errors.{authenticator_error}
use enterprise_kratos.Store.{World, Result, M, ok, err, done, fail, ◌>>=◌, ◌>>◌}
use enterprise_kratos.Authenticator.{
  Authenticator, Factor, FlowState, CompleteFlowRequest, AuthResult, EnrollRequest, EnrollResult,
  StartFlowRequest, UnenrollRequest,
}

-- An answer of the service; the body is none where it is not JSON.
pub record Reply : Type 0 where
  pub status : ℕ
  pub body : Option Json

pub record Service : Type 0 where
  -- `client.Do` of a POST, by the number of the call, the URL and the body
  pub post : ℕ → String → Json → Option Reply
  -- `json.Unmarshal` into `[]authenticator.UINode`
  pub decode_nodes : Json → Option (List UiNode)

pub record Adapter : Type 0 where
  pub id : String
  pub auth_type : Factor
  pub base_url : String

pub record CompleteFlowResp : Type 0 where
  pub success : Bool
  pub aal : String
  pub amr : List String

abbrev text_members : List (String × String) → Members
text_members [] = end
text_members ((k, v) ∷ m) = member k (str v) (text_members m)

-- A map, left out where it is empty.
abbrev unless_empty : String → List (String × String) → Members
unless_empty k m = if is_empty m then end else member k (obj (text_members m)) end

abbrev bool_value : Json → Option Bool
bool_value null = some false
bool_value (bool b) = some b
bool_value _ = none

abbrev members_of : Json → Option Members
members_of null = some end
members_of (obj ms) = some ms
members_of _ = none

abbrev flow_state_of : Option (List UiNode) → Option String → Option FlowState
flow_state_of (some nodes) (some state) = some (record { nodes = nodes; state = state })
flow_state_of _ _ = none

abbrev complete_resp_of :
    Option Bool → Option String → Option (List String) → Option CompleteFlowResp
complete_resp_of (some success) (some aal) (some amr) =
    some (record { success = success; aal = aal; amr = amr })
complete_resp_of _ _ _ = none

abbrev enroll_result_of : Option String → Option (List String) → Json → Option EnrollResult
enroll_result_of (some kind) (some identifiers) config =
    some (record { credential_type = kind; identifiers = identifiers; credential_config = config })
enroll_result_of _ _ _ = none

abbrev then_members {ℓ} : {A : Type ℓ} → (Members → Option A) → Option Members → Option A
then_members f none = none
then_members f (some ms) = f ms

abbrev pub decode_complete : Json → Option CompleteFlowResp
decode_complete j =
    then_members
      (λ ms.
        complete_resp_of (bool_value (member_or_null "success" ms))
          (text_value (member_or_null "aal" ms)) (texts_value (member_or_null "amr" ms)))
      (members_of j)

abbrev pub decode_enroll : Json → Option EnrollResult
decode_enroll j =
    then_members
      (λ ms.
        enroll_result_of (text_value (member_or_null "credential_type" ms))
          (texts_value (member_or_null "identifiers" ms)) (member_or_null "credential_config" ms))
      (members_of j)

abbrev error_member : Option Json → String
error_member (some (obj ms)) = or_empty (text_member "error" ms)
  where
    or_empty : Option String → String
    or_empty none = ""
    or_empty (some s) = s
error_member _ = ""

-- The error of a status that is not 2xx, without the number.
abbrev upstream_error : String → String
upstream_error text =
    if str_eq text "" then "upstream responded with an error" else text_append "upstream: " text

abbrev pub is_success : ℕ → Bool
is_success status = not (ltb status 200) && ltb status 300

unfoldable pub received : Option Reply → M (Option Json)
received none = fail (authenticator_error "do request")
received (some r) =
    if is_success r.status
    then done r.body
    else fail (authenticator_error (upstream_error (error_member r.body)))

unfoldable pub decoded {ℓ} : {A : Type ℓ} → Option A → M A
decoded none = fail (authenticator_error "decode response")
decoded (some a) = done a

abbrev bind_json {ℓ} : {A : Type ℓ} → (Json → Option A) → Option Json → Option A
bind_json f none = none
bind_json f (some j) = f j

module _ (ext : External) (service : Service) (a : Adapter) where
  unfoldable pub post : String → Json → World → Result (Option Json) × World
  unfolding received
  post path body w =
      received (service.post w.calls (text_append a.base_url path) body)
        (record w { calls = suc w.calls })

  abbrev decode_start : Json → Option FlowState
  decode_start j =
      then_members
        (λ ms.
          flow_state_of (service.decode_nodes (member_or_null "nodes" ms))
            (text_value (member_or_null "state" ms)))
        (members_of j)

  abbrev pub start_body : StartFlowRequest → Json
  start_body r = obj (
      member "tenant_id" (str (ext.uuid_text r.tenant_id)) (
        member "identity_id" (str (ext.uuid_text r.identity_id))
          (member "flow_id" (str (ext.uuid_text r.flow_id)) (unless_empty "params" r.params))))

  abbrev pub complete_body : CompleteFlowRequest → Json
  complete_body r = obj (
      member "tenant_id" (str (ext.uuid_text r.tenant_id)) (
        member "identity_id" (str (ext.uuid_text r.identity_id)) (
          member "flow_id" (str (ext.uuid_text r.flow_id)) (
            member "flow_state" (str r.flow_state)
              (member "values" (obj (text_members r.values)) end)))))

  abbrev pub enroll_body : EnrollRequest → Json
  enroll_body r = obj (
      member "tenant_id" (str (ext.uuid_text r.tenant_id))
        (member "identity_id" (str (ext.uuid_text r.identity_id)) (unless_empty "values" r.values)))

  abbrev pub unenroll_body : UnenrollRequest → Json
  unenroll_body r = obj (
      member "tenant_id" (str (ext.uuid_text r.tenant_id)) (
        member "identity_id" (str (ext.uuid_text r.identity_id))
          (member "credential_id" (str (ext.uuid_text r.credential_id)) end)))

  unfoldable pub start_flow : StartFlowRequest → M FlowState
  start_flow r = do
    answer ← post "/flows/start" (start_body r)
    decoded (bind_json decode_start answer)

  unfoldable pub accepted : CompleteFlowRequest → CompleteFlowResp → M AuthResult
  accepted r resp =
      if resp.success
      then done (record {
        identity_id = r.identity_id;
        aal = resp.aal;
        amr = resp.amr;
        credential_config = null;
      })
      else fail (authenticator_error "upstream rejected credentials")

  unfoldable pub complete_flow : CompleteFlowRequest → M AuthResult
  complete_flow r = do
    answer ← post "/flows/complete" (complete_body r)
    resp ← decoded (bind_json decode_complete answer)
    accepted r resp

  unfoldable pub enroll : EnrollRequest → M EnrollResult
  enroll r = do
    answer ← post "/credentials/enroll" (enroll_body r)
    decoded (bind_json decode_enroll answer)

  unfoldable pub unenroll : UnenrollRequest → M (Unit {0})
  unenroll r = do _ ← post "/credentials/unenroll" (unenroll_body r); done tt

  unfoldable pub adapter : Authenticator
  adapter = record {
    id = a.id;
    factor = a.auth_type;
    start_flow = start_flow;
    complete_flow = complete_flow;
    enroll = enroll;
    unenroll = unenroll;
  }
