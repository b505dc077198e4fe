-- ===== src/Http/Answers.antt =====
-- What the handlers share: `writeJSON`, the early returns, and the answers to the errors of a flow.
use enterprise_kratos.Base.{
  ℕ, String, Option, none, some, [], ◌∷◌, ◌⊎◌, inl, inr, Uuid, str_eq, if◌then◌else◌, value_of,
}
use enterprise_kratos.External.{External}
use enterprise_kratos.Tenant.{Tenant}
use enterprise_kratos.Flow.{Flow, to_response}
use enterprise_kratos.Errors.{Error, flow_not_found, flow_expired}
use enterprise_kratos.Store.{M, done, attempt, ◌>>=◌}
use enterprise_kratos.Http.{
  HttpRequest, Response, Body, string_value, error_value, no_body, fields_body, flow_body,
}

abbrev pub write_json : ℕ → Body → Response
write_json status body = record {
  status = status;
  headers = ("Content-Type", "application/json") ∷ [];
  body = body;
}

-- `w.WriteHeader(http.StatusNoContent)`.
abbrev pub no_content : Response
no_content = record { status = 204; headers = []; body = no_body }

abbrev pub refusal : ℕ → String → Response
refusal status message = write_json status (fields_body (("error", string_value message) ∷ []))

-- `errBody(err.Error())`.
abbrev pub refusal_of : ℕ → Error → Response
refusal_of status e = write_json status (fields_body (("error", error_value e) ∷ []))

abbrev pub tenant_or_refusal : (Tenant → M Response) → Option Tenant → M Response
tenant_or_refusal k none = done (refusal 401 "tenant not resolved")
tenant_or_refusal k (some t) = k t

-- `t := TenantFromContext(r.Context())`.
abbrev pub for_tenant : HttpRequest → (Tenant → M Response) → M Response
for_tenant r k = tenant_or_refusal k r.tenant

abbrev pub some_or_refusal {ℓ} : {A : Type ℓ} → Response → (A → M Response) → Option A → M Response
some_or_refusal refused k none = done refused
some_or_refusal refused k (some a) = k a

-- `uuid.Parse(chi.URLParam(r, name))`.
abbrev pub for_param : External → HttpRequest → String → String → (Uuid → M Response) → M Response
for_param ext r name message k =
    some_or_refusal (refusal 400 message) k (ext.parse_uuid (value_of name r.params))

abbrev pub given : String → String → M Response → M Response
given value message k = if str_eq value "" then done (refusal 400 message) else k

abbrev pub answer {ℓ} :
    {A : Type ℓ} → (Error → Response) → (A → M Response) → Error ⊎ A → M Response
answer refused k (inl e) = done (refused e)
answer refused k (inr a) = k a

-- `x, err := m; if err != nil { … return }`.
unfoldable pub answering {ℓ} :
    {A : Type ℓ} → M A → (Error → Response) → (A → M Response) → M Response
answering m refused k = attempt m >>= answer refused k

-- `errors.Is(err, flow.ErrNotFound)`, `errors.Is(err, flow.ErrExpired)`, and any other error.
abbrev pub flow_refusal : String → (Error → Response) → Error → Response
flow_refusal gone other flow_not_found = refusal 404 "flow not found"
flow_refusal gone other flow_expired = refusal 410 gone
flow_refusal gone other e = other e

abbrev pub reading_refusal : Error → Response
reading_refusal e = flow_refusal "flow expired" (λ _. refusal 500 "internal error") e

abbrev pub submit_refusal : Error → Response
submit_refusal e = flow_refusal "flow expired" (refusal_of 400) e

-- `f.UI.Action = action; writeJSON(w, http.StatusOK, toResponse(f))`.
abbrev pub show_flow : String → Flow → Response
show_flow action f =
    write_json 200 (flow_body (to_response (record f { ui = record (f.ui) { action = action } })))
