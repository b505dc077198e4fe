-- ===== src/Authenticator/Oidc.antt =====
-- internal/authenticator/adapters/oidc/adapter.go: one button for each enabled provider. The
-- callback of the OIDC engine completes a login, and the interface's other operations refuse.
use enterprise_kratos.Base.{map, false, str}
use Prim.Native.String.{◌++◌ as text_append}
use enterprise_kratos.Flow.{UiNode, input_node, message}
use enterprise_kratos.Sso.{Provider}
use enterprise_kratos.External.{External}
use enterprise_kratos.Errors.{authenticator_error}
use enterprise_kratos.Store.{Env, M, done, fail, ◌>>=◌}
use enterprise_kratos.Store.Providers
use enterprise_kratos.Authenticator.{
  Authenticator, first_factor, FlowState, CompleteFlowRequest, AuthResult, EnrollRequest,
  EnrollResult, StartFlowRequest, UnenrollRequest,
}

module _ ⦃env : Env⦄ (ext : External) where
  abbrev pub button : Provider → UiNode
  button p =
      input_node "oidc" "provider_id" "submit" (str (ext.uuid_text p.id)) false
        (message 1070010 "info" (text_append "Sign in with " p.provider))

  unfoldable pub start_flow : StartFlowRequest → M FlowState
  start_flow r = do
    providers ← Providers.list_by_type r.tenant_id "oidc"
    done (record { nodes = map button providers; state = "" })

  unfoldable pub complete_flow : CompleteFlowRequest → M AuthResult
  complete_flow r =
      fail (authenticator_error "oidc: use the OIDC callback endpoint to complete authentication")

  unfoldable pub enroll : EnrollRequest → M EnrollResult
  enroll r =
      fail (authenticator_error "oidc: enrollment is handled implicitly via the callback flow")

  unfoldable pub unenroll : UnenrollRequest → M (Unit {0})
  unenroll r = done tt

  unfoldable pub adapter : Authenticator
  adapter = record {
    id = "oidc";
    factor = first_factor;
    start_flow = start_flow;
    complete_flow = complete_flow;
    enroll = enroll;
    unenroll = unenroll;
  }
