-- ===== src/Hydra.antt =====
-- internal/hydra/client.go: the request with which a login challenge of Ory Hydra is accepted. The
-- HTTP client and the service are a parameter. The challenge goes into the URL as it is.
use enterprise_kratos.Base.{
  ℕ, String, false, Bool, Option, none, some, Json, null, bool, num, str, obj, end, member, ◌==◌,
  if◌then◌else◌, Uuid,
}
use Prim.Native.String.{◌++◌ as text_append}
use enterprise_kratos.Sso.{text_value, member_or_null}
use enterprise_kratos.External.{External}
use enterprise_kratos.Http.{Hydra}

-- An answer of the service; the body is none where it is not JSON.
pub record Reply : Type 0 where
  pub status : ℕ
  pub body : Option Json

pub record Client : Type 0 where
  pub admin_url : String
  -- `httpClient.Do` of a PUT, by the number of the call, the URL and the body
  pub put : ℕ → String → Json → Option Reply

abbrev accept_body : External → Uuid → Uuid → String → Bool → Json
accept_body ext identity tenant aal remember = obj (
    member "subject" (str (ext.uuid_text identity)) (
      member "remember" (bool remember) (
        member "remember_for" (num "3600") (
          member "context"
            (obj (member "aal" (str aal) (member "tenant_id" (str (ext.uuid_text tenant)) end)))
            end))))

abbrev accept_url : Client → String → String
accept_url c challenge =
    text_append c.admin_url
      (text_append "/admin/oauth2/auth/requests/login/accept?login_challenge=" challenge)

-- `json.Unmarshal` into `acceptLoginResponse`.
abbrev redirect_to : Json → Option String
redirect_to null = some ""
redirect_to (obj ms) = text_value (member_or_null "redirect_to" ms)
redirect_to _ = none

abbrev body_redirect : Option Json → Option String
body_redirect none = none
body_redirect (some j) = redirect_to j

abbrev redirected : Option Reply → Option String
redirected none = none
redirected (some r) = if r.status == 200 then body_redirect r.body else none

-- The answer is none on an error; its text is logged and not shown.
abbrev pub accept_login_request :
    External → Client → ℕ → String → Uuid → Uuid → String → Bool → Option String
accept_login_request ext c n challenge identity tenant aal remember =
    redirected (c.put n (accept_url c challenge) (accept_body ext identity tenant aal remember))

-- What the login handler is given.
abbrev pub client : External → Client → Hydra
client ext c = record {
  accept_login = λ n challenge identity tenant aal.
      accept_login_request ext c n challenge identity tenant aal false;
}
