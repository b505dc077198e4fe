-- ===== src/Http/Login.antt =====
-- internal/flow/login/handler.go and internal/flow/registration/handler.go: the flows of a visitor
-- who has no session yet.
use enterprise_kratos.Base.{
  suc, String, true, Option, none, some, List, [], ◌∷◌, Uuid, str_eq, if◌then◌else◌, value_of,
}
use Prim.Native.String.{◌++◌ as text_append}
use enterprise_kratos.Flow.{Flow, to_response}
use enterprise_kratos.Identity.{Session}
use enterprise_kratos.Tenant.{Tenant}
use enterprise_kratos.External.{External}
use enterprise_kratos.Store.{Env, ok, M, done}
use enterprise_kratos.Store.Sessions
use enterprise_kratos.Authenticator.Registry.{Registry}
use enterprise_kratos.Login as LoginEngine
use enterprise_kratos.Registration as RegistrationEngine
use enterprise_kratos.Http.{
  HttpRequest, Response, Handler, Hydra, string_value, strings_value, uuid_value, time_value,
  bool_value, flow_value, no_body, fields_body,
}
use enterprise_kratos.Http.Decoding.{text_map}
use enterprise_kratos.Http.Answers.{
  write_json, refusal, refusal_of, for_tenant, for_param, some_or_refusal, given, answering,
  reading_refusal, submit_refusal, show_flow,
}

-- `actionURL` of the handler for this kind of flow.
abbrev pub action_url : External → String → Tenant → Uuid → String
action_url ext kind t id = text_append "/t/" (
    text_append t.slug
      (text_append "/self-service/" (text_append kind (text_append "/flows/" (ext.uuid_text id)))))

-- `result.Flow.UI.Action = action; toResponse(result.Flow)`.
abbrev pub acted : String → Flow → Flow
acted action f = record f { ui = record (f.ui) { action = action } }

-- `json.NewDecoder(r.Body).Decode(&body)` into a map of strings.
abbrev pub for_form : HttpRequest → (List (String × String) → M Response) → M Response
for_form r k =
    some_or_refusal (refusal 400 "invalid request body") k
      (elim r.body [ none ↦ none | some j ↦ text_map j ])

module _ (ext : External) where
  abbrev pub login_body : LoginEngine.SubmitResult → Session → Response
  login_body result s = write_json 200 (
      fields_body (
        ("session_token", string_value s.token)
        ∷ ("session_id", uuid_value s.id)
        ∷ ("identity_id", uuid_value result.identity_id)
        ∷ ("aal", string_value result.aal)
        ∷ ("amr", strings_value result.amr)
        ∷ ("expires_at", time_value s.expires_at)
        ∷ []))

  -- `http.Redirect`, to an absolute URL.
  abbrev pub redirect_body : Session → String → Response
  redirect_body s url = record {
    status = 302;
    headers = ("X-Session-Token", s.token) ∷ ("Location", url) ∷ [];
    body = no_body;
  }

  abbrev pub redirected : Session → Option String → Response
  redirected s none = refusal 500 "hydra accept failed"
  redirected s (some url) = redirect_body s url

  -- The request to Hydra, known by the number of the call.
  unfoldable pub accepted_by :
      Hydra → String → Tenant → LoginEngine.SubmitResult → Session → M Response
  accepted_by hydra challenge t result s w = (
    ok (redirected s (hydra.accept_login w.calls challenge result.identity_id t.id result.aal)),
    record w { calls = suc w.calls },
  )

  -- After the session is created: a login challenge is accepted where Hydra is configured.
  unfoldable pub signed_in :
      Option Hydra → HttpRequest → Tenant → LoginEngine.SubmitResult → Session → M Response
  signed_in none r t result s = done (login_body result s)
  signed_in (some hydra) r t result s =
      if str_eq (value_of "login_challenge" r.query) ""
      then done (login_body result s)
      else accepted_by hydra (value_of "login_challenge" r.query) t result s

module _ ⦃env : Env⦄ (ext : External) (reg : Registry) where
  unfoldable pub login_init : Handler
  login_init r = for_tenant r λ t.
      answering (LoginEngine.init_flow ext reg t.id)
        (λ e. refusal 500 "failed to create login flow")
        (λ f. done (show_flow (action_url ext "login" t f.id) f))

  unfoldable pub login_get : Handler
  login_get r = for_tenant r λ t. for_param ext r "flowId" "invalid flow id" λ id.
      answering (LoginEngine.get_flow ext reg t.id id) reading_refusal
        (λ f. done (show_flow (action_url ext "login" t f.id) f))

  -- A completed login gets a session, and any other shows the flow.
  unfoldable pub login_submitted :
      Option Hydra → HttpRequest → Tenant → LoginEngine.SubmitResult → M Response
  login_submitted hydra r t result =
      if result.completed
      then answering
          (Sessions.create t.id result.identity_id result.aal result.amr result.session_ttl)
          (λ e. refusal 500 "failed to create session") (signed_in ext hydra r t result)
      else done (show_flow (action_url ext "login" t result.flow.id) result.flow)

  unfoldable pub login_submit : Option Hydra → Handler
  login_submit hydra r = for_tenant r λ t. for_param ext r "flowId" "invalid flow id" λ id.
      for_form r λ form. given (value_of "method" form) "method is required" (
        answering (LoginEngine.submit_flow ext reg t.id id (value_of "method" form) form)
          submit_refusal (login_submitted hydra r t))

  unfoldable pub registration_init : Handler
  registration_init r = for_tenant r λ t.
      answering (RegistrationEngine.init_flow ext reg t.id) (refusal_of 500)
        (λ f. done (show_flow (action_url ext "registration" t f.id) f))

  unfoldable pub registration_get : Handler
  registration_get r = for_tenant r λ t. for_param ext r "flowId" "invalid flow id" λ id.
      answering (RegistrationEngine.get_flow ext reg t.id id) reading_refusal
        (λ f. done (show_flow (action_url ext "registration" t f.id) f))

  abbrev pub pending_body : Tenant → RegistrationEngine.SubmitResult → Response
  pending_body t result = write_json 200 (
      fields_body (
        (
          "flow",
          flow_value
              (to_response (acted (action_url ext "registration" t result.flow.id) result.flow)),
        )
        ∷ ("identity_id", uuid_value result.identity_id)
        ∷ ("verification_pending", bool_value true)
        ∷ ("verification_flow_id", uuid_value result.verification_flow_id)
        ∷ ("verification_token", string_value result.verification_token)
        ∷ []))

  abbrev pub registered_body : RegistrationEngine.SubmitResult → Session → Response
  registered_body result s = write_json 200 (
      fields_body (
        ("session_token", string_value s.token)
        ∷ ("session_id", uuid_value s.id)
        ∷ ("identity_id", uuid_value result.identity_id)
        ∷ ("aal", string_value "aal1")
        ∷ ("expires_at", time_value s.expires_at)
        ∷ []))

  -- A registration awaits its verification, or gets a session of AAL 1.
  unfoldable pub registration_submitted : Tenant → RegistrationEngine.SubmitResult → M Response
  registration_submitted t result =
      if result.needs_verification
      then done (pending_body t result)
      else (if result.completed
          then answering (Sessions.create t.id result.identity_id "aal1" [] result.session_ttl)
              (λ e. refusal 500 "failed to create session") (λ s. done (registered_body result s))
          else done (show_flow (action_url ext "registration" t result.flow.id) result.flow))

  unfoldable pub registration_submit : Handler
  registration_submit r = for_tenant r λ t. for_param ext r "flowId" "invalid flow id" λ id.
      for_form r λ form. given (value_of "method" form) "method is required" (
        answering (RegistrationEngine.submit_flow ext reg t.id id (value_of "method" form) form)
          submit_refusal (registration_submitted t))
