-- ===== src/Http/Admin.antt =====
-- internal/sso/handler.go and internal/oidc/handler.go, and internal/tenant/middleware.go, which
-- resolves the tenant before any of the handlers.
use enterprise_kratos.Base.{
  ◌||◌, Option, none, some, [], ◌∷◌, map, Json, str_eq, if◌then◌else◌, value_of,
}
use enterprise_kratos.Sso.{Provider}
use enterprise_kratos.External.{External}
use enterprise_kratos.Errors.{Error, provider_not_found, tenant_not_found}
use enterprise_kratos.Store.{Env, done}
use enterprise_kratos.Store.Providers
use enterprise_kratos.Store.Tenants
use enterprise_kratos.Oidc
use enterprise_kratos.Oidc.{CallbackResult}
use enterprise_kratos.Oidc.Client.{OidcClient}
use enterprise_kratos.Http.{
  HttpRequest, Response, Handler, ProviderView, string_value, uuid_value, time_value, bool_value,
  providers_value, fields_body, provider_body,
}
use enterprise_kratos.Http.Decoding.{text_field, bool_field, raw_field}
use enterprise_kratos.Http.Answers.{
  write_json, no_content, refusal, for_tenant, for_param, some_or_refusal, given, answering,
  submit_refusal,
}

-- `toResponse`, which leaves the config with its secret out.
abbrev pub provider_view : Provider → ProviderView
provider_view p = record { id = p.id; kind = p.kind; provider = p.provider; enabled = p.enabled }

abbrev pub provider_refusal : Error → Response
provider_refusal provider_not_found = refusal 404 "provider not found"
provider_refusal e = refusal 500 "internal error"

abbrev invalid_body : Response
invalid_body = refusal 400 "invalid request body"

-- A value decoded from the body.
abbrev decoded {ℓ} : {A : Type ℓ} → HttpRequest → (Json → Option A) → Option A
decoded r f = elim r.body [ none ↦ none | some j ↦ f j ]

-- The config of a request that decodes.
abbrev config_in : HttpRequest → Option Json
config_in r = decoded r (raw_field "config")

module _ ⦃env : Env⦄ (ext : External) where
  unfoldable pub provider_create : Handler
  provider_create r = for_tenant r λ t.
      some_or_refusal invalid_body
        (λ kind.
          some_or_refusal invalid_body
            (λ name.
              if str_eq kind "oidc" || str_eq kind "saml"
              then given name "provider is required" (
                  some_or_refusal (refusal 400 "config is required")
                    (λ config.
                      answering (Providers.create t.id kind name config)
                        (λ e. refusal 500 "failed to create SSO provider")
                        (λ p. done (write_json 201 (provider_body (provider_view p)))))
                    (config_in r))
              else done (refusal 400 "type must be oidc or saml"))
            (decoded r (text_field "provider")))
        (decoded r (text_field "type"))

  unfoldable pub provider_list : Handler
  provider_list r = for_tenant r λ t.
      answering (Providers.list t.id) (λ e. refusal 500 "internal error")
        (λ ps. done (
          write_json 200
            (fields_body (("providers", providers_value (map provider_view ps)) ∷ []))))

  unfoldable pub provider_get : Handler
  provider_get r = for_tenant r λ t. for_param ext r "providerId" "invalid provider id" λ id.
      answering (Providers.get t.id id) provider_refusal
        (λ p. done (write_json 200 (provider_body (provider_view p))))

  unfoldable pub provider_delete : Handler
  provider_delete r = for_tenant r λ t.
      for_param ext r "providerId" "invalid provider id"
        λ id. answering (Providers.delete t.id id) provider_refusal (λ _. done no_content)

  unfoldable pub provider_set_enabled : Handler
  provider_set_enabled r = for_tenant r λ t.
      for_param ext r "providerId" "invalid provider id" λ id.
        some_or_refusal invalid_body
          (λ enabled.
            answering (Providers.set_enabled t.id id enabled) provider_refusal
              (λ _. done no_content))
          (decoded r (bool_field "enabled"))

  module _ (client : OidcClient) where
    unfoldable pub oidc_initiate : Handler
    oidc_initiate r = for_tenant r λ t. for_param ext r "flowId" "invalid flow id" λ id.
        some_or_refusal invalid_body
          (λ text.
            some_or_refusal (refusal 400 "invalid provider_id")
              (λ provider.
                answering (Oidc.initiate_login ext client t.id id provider) submit_refusal (λ url.
                  done (write_json 200 (fields_body (("redirect_to", string_value url) ∷ [])))))
              (ext.parse_uuid text))
          (decoded r (text_field "provider_id"))

    abbrev pub callback_body : CallbackResult → Response
    callback_body result = write_json 200 (
        fields_body (
          ("session_token", string_value result.session.token)
          ∷ ("session_id", uuid_value result.session.id)
          ∷ ("identity_id", uuid_value result.identity_id)
          ∷ ("aal", string_value result.session.aal)
          ∷ ("is_new", bool_value result.is_new)
          ∷ ("expires_at", time_value result.session.expires_at)
          ∷ []))

    abbrev pub provider_error : HttpRequest → Response
    provider_error r = write_json 400 (
        fields_body (
          ("error", string_value (value_of "error" r.query))
          ∷ ("error_description", string_value (value_of "error_description" r.query))
          ∷ []))

    unfoldable pub oidc_callback : Handler
    oidc_callback r = for_tenant r λ t.
        if str_eq (value_of "error" r.query) ""
        then (if str_eq (value_of "state" r.query) "" || str_eq (value_of "code" r.query) ""
            then done (refusal 400 "state and code are required")
            else answering
                (Oidc.handle_callback ext client t.id (value_of "state" r.query)
                  (value_of "code" r.query))
                submit_refusal (λ result. done (callback_body result)))
        else done (provider_error r)

abbrev pub tenant_refusal : Error → Response
tenant_refusal tenant_not_found = refusal 404 "tenant not found"
tenant_refusal e = refusal 503 "service unavailable"

-- `Resolver.Handler`: the handler runs with the tenant of the slug in its context.
unfoldable pub resolver : ⦃env : Env⦄ → Handler → Handler
resolver next r =
    answering (Tenants.get_by_slug (value_of "tenant-slug" r.params)) tenant_refusal
      (λ t. next (record r { tenant = some t }))
