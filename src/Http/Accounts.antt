-- ===== src/Http/Accounts.antt =====
-- The handlers of an account: internal/flow/recovery/handler.go,
-- internal/flow/verification/handler.go, internal/flow/settings/handler.go and
-- internal/session/handler.go.
use enterprise_kratos.Base.{String, [], ◌∷◌, Uuid, str_eq, if◌then◌else◌, value_of}
use enterprise_kratos.Flow.{Flow, ClientFlow}
use enterprise_kratos.Identity.{Session}
use enterprise_kratos.Tenant.{Tenant}
use enterprise_kratos.External.{External}
use enterprise_kratos.Errors.{Error, session_not_found, session_revoked, session_expired}
use enterprise_kratos.Store.{Env, M, done}
use enterprise_kratos.Store.Sessions
use enterprise_kratos.Authenticator.Registry.{Registry}
use enterprise_kratos.Recovery
use enterprise_kratos.Verification
use enterprise_kratos.Settings
use enterprise_kratos.Http.{
  HttpRequest, Response, Handler, string_value, strings_value, uuid_value, time_value, bool_value,
  fields_body, flow_body,
}
use enterprise_kratos.Http.Decoding.{extract_token}
use enterprise_kratos.Http.Answers.{
  write_json, no_content, refusal, refusal_of, for_tenant, for_param, given, answering,
  flow_refusal, reading_refusal, submit_refusal, show_flow,
}
use enterprise_kratos.Http.Login.{action_url, for_form}

abbrev pub state_body : String → Response
state_body state = write_json 200 (fields_body (("state", string_value state) ∷ []))

module _ ⦃env : Env⦄ (ext : External) where
  unfoldable pub recovery_init : Handler
  recovery_init r = for_tenant r λ t.
      answering (Recovery.init_flow t.id) (refusal_of 500)
        (λ f. done (show_flow (action_url ext "recovery" t f.id) f))

  abbrev pub recovered_body : Session × Uuid → Response
  recovered_body (s, identity) = write_json 200 (
      fields_body (
        ("session_token", string_value s.token)
        ∷ ("session_id", uuid_value s.id)
        ∷ ("identity_id", uuid_value identity)
        ∷ ("expires_at", time_value s.expires_at)
        ∷ ("next", string_value "set_password")
        ∷ []))

  -- With a token in the query, the recovery link is used at once.
  unfoldable pub recovery_get : Handler
  recovery_get r = for_tenant r λ t. for_param ext r "flowId" "invalid flow id" λ id.
      if str_eq (value_of "token" r.query) ""
      then answering (Recovery.get_flow t.id id) reading_refusal
          (λ f. done (show_flow (action_url ext "recovery" t f.id) f))
      else answering (Recovery.use_token ext t.id id (value_of "token" r.query))
          (flow_refusal "recovery link expired" (refusal_of 400))
          (λ found. done (recovered_body found))

  abbrev pub link_body : String → Response
  link_body token = write_json 200 (
      fields_body
        (("state", string_value "pending_link") ∷ ("recovery_token", string_value token) ∷ []))

  unfoldable pub recovery_submit : Handler
  recovery_submit r = for_tenant r λ t. for_param ext r "flowId" "invalid flow id" λ id.
      for_form r λ form. given (value_of "email" form) "email is required" (
        answering (Recovery.request_recovery ext t.id id (value_of "email" form)) submit_refusal
          (λ token. done (link_body token)))

  -- `toResponse` of the verification handler, which shows no nodes and no messages.
  abbrev pub verification_view : Tenant → Flow → ClientFlow
  verification_view t f = record {
    id = f.id;
    kind = f.kind;
    state = f.state;
    action = action_url ext "verification" t f.id;
    method = "POST";
    nodes = [];
    messages = [];
  }

  unfoldable pub verification_get : Handler
  verification_get r = for_tenant r λ t. for_param ext r "flowId" "invalid flow id" λ id.
      if str_eq (value_of "token" r.query) ""
      then answering (Verification.get_flow t.id id) reading_refusal
          (λ f. done (write_json 200 (flow_body (verification_view t f))))
      else answering (Verification.submit_flow t.id id (value_of "token" r.query))
          (flow_refusal "verification link expired" (refusal_of 400))
          (λ _. done (state_body "success"))

  unfoldable pub verification_submit : Handler
  verification_submit r = for_tenant r λ t. for_param ext r "flowId" "invalid flow id" λ id.
      for_form r λ form. given (value_of "token" form) "token is required" (
        answering (Verification.submit_flow t.id id (value_of "token" form)) submit_refusal
          (λ _. done (state_body "success")))

  abbrev pub session_refusal : Error → Response
  session_refusal session_not_found = refusal 401 "invalid or revoked session"
  session_refusal session_revoked = refusal 401 "invalid or revoked session"
  session_refusal session_expired = refusal 401 "session expired"
  session_refusal e = refusal 500 "internal error"

  abbrev pub session_body : Session → Response
  session_body s = write_json 200 (
      fields_body (
        ("id", uuid_value s.id)
        ∷ ("identity_id", uuid_value s.identity_id)
        ∷ ("tenant_id", uuid_value s.tenant_id)
        ∷ ("aal", string_value s.aal)
        ∷ ("amr", strings_value s.amr)
        ∷ ("expires_at", time_value s.expires_at)
        ∷ ("active", bool_value s.active)
        ∷ []))

  abbrev pub no_token : Response
  no_token = refusal 401 "no session token provided"

  unfoldable pub whoami : Handler
  whoami r = for_tenant r λ t.
      if str_eq (extract_token r) ""
      then done no_token
      else answering (Sessions.get_by_token t.id (extract_token r)) session_refusal
          (λ s. done (session_body s))

  abbrev pub logout_refusal : Error → Response
  logout_refusal session_not_found = refusal 404 "session not found"
  logout_refusal e = refusal 500 "internal error"

  unfoldable pub logout : Handler
  logout r = for_tenant r λ t.
      if str_eq (extract_token r) ""
      then done no_token
      else answering (Sessions.revoke_by_token t.id (extract_token r)) logout_refusal
          (λ _. done no_content)

  -- `requireSession`: the settings need a session that is valid.
  unfoldable pub with_session : HttpRequest → Tenant → (Session → M Response) → M Response
  with_session r t k =
      if str_eq (extract_token r) ""
      then done
          (refusal 401 "authentication required: provide X-Session-Token or Authorization: Bearer")
      else answering (Sessions.get_by_token t.id (extract_token r)) (refusal_of 401) k

  module _ (reg : Registry) where
    unfoldable pub settings_init : Handler
    settings_init r = for_tenant r λ t. with_session r t λ s.
        answering (Settings.init_flow t.id s.identity_id) (refusal_of 500)
          (λ f. done (show_flow (action_url ext "settings" t f.id) f))

    unfoldable pub settings_get : Handler
    settings_get r = for_tenant r λ t. for_param ext r "flowId" "invalid flow id" λ id.
        answering (Settings.get_flow t.id id) reading_refusal
          (λ f. done (show_flow (action_url ext "settings" t f.id) f))

    unfoldable pub settings_submit : Handler
    settings_submit r = for_tenant r λ t. with_session r t λ s.
        for_param ext r "flowId" "invalid flow id" λ id. for_form r λ form.
          given (value_of "method" form) "method is required" (
            answering (Settings.submit_flow reg t.id id s.identity_id (value_of "method" form) form)
              submit_refusal (λ _. done (state_body "success")))
