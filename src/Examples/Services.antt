-- ===== src/Examples/Services.antt =====
-- A REST service that accepts every code.
use enterprise_kratos.Base.{
  true, some, [], ◌∷◌, null, bool, str, arr, obj, cons, nil, end, member, ◌≡◌, refl,
}
use enterprise_kratos.Store.{World, ok, effects}
use enterprise_kratos.Flow.{login, in_phase}
use enterprise_kratos.Authenticator.{CompleteFlowRequest, AuthResult, second_factor}
use enterprise_kratos.Authenticator.Rest
use enterprise_kratos.Authenticator.Rest.{Service, Adapter}
use enterprise_kratos.Authenticator.Rest.Soundness.{Accepted, complete_flow-Accepted}
use enterprise_kratos.Examples.Setting.{outside, flow_of, with_flow}

abbrev pub totp_service : Service
totp_service = record {
  post = λ n url body. some (record {
    status = 200;
    body = some (
        obj (
          member "success" (bool true)
            (member "aal" (str "aal2") (member "amr" (arr (cons (str "totp") nil)) end))));
  });
  decode_nodes = λ j. some [];
}

abbrev totp : Adapter
totp = record { id = "totp"; auth_type = second_factor; base_url = "https://totp.example" }

abbrev code : CompleteFlowRequest
code = record {
  tenant_id = 1;
  identity_id = 20;
  flow_id = 10;
  flow_state = "";
  values = ("code", "123456") ∷ [];
  credential_config = null;
}

abbrev start : World
start = with_flow (flow_of login (some 20) (in_phase "second_factor"))

abbrev by_totp : AuthResult
by_totp = record { identity_id = 20; aal = "aal2"; amr = "totp" ∷ []; credential_config = null }

totp_accepts : (Rest.complete_flow outside totp_service totp code start).0 ≡ ok by_totp
unfolding Rest.complete_flow Rest.post Rest.received Rest.decoded Rest.accepted effects
totp_accepts = refl

complete_flow-Accepted_example :
    Accepted outside totp_service totp code start by_totp
    × ((Rest.complete_flow outside totp_service totp code start).1.calls ≡ 1)
    × ((Rest.complete_flow outside totp_service totp code start).1.db ≡ start.db)
complete_flow-Accepted_example =
    complete_flow-Accepted outside totp_service totp code start by_totp totp_accepts
