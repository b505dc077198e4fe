-- ===== src/Examples/Logins.antt =====
-- Logins to the account of the setting.
use enterprise_kratos.Base.{
  List, true, false, none, some, [], ◌∷◌, ◌⊎◌, inr, ◌≡◌, refl, arith, null, String, str_eq,
}
use enterprise_kratos.Flow.{
  UiNode, input_node, message, pending, Flow, in_phase, login, success, expired,
}
use enterprise_kratos.Policy.{FlowPolicy, default}
use enterprise_kratos.Errors.{invalid_credentials, flow_is, db_failure, flow_expired}
use enterprise_kratos.Store.{World, ok, err, effects}
use enterprise_kratos.Store.Flows
use enterprise_kratos.Store.Policies
use enterprise_kratos.Store.Identities.{get_by_identifier}
use enterprise_kratos.Engine.{require, require_pending, returned, parse_session_ttl}
use enterprise_kratos.Authenticator.{AuthResult}
use enterprise_kratos.Authenticator.Registry.{get}
use enterprise_kratos.Authenticator.Password
use enterprise_kratos.Login
use enterprise_kratos.Login.Soundness.{Sound, submit_flow-Sound}
use enterprise_kratos.Login.FirstFactor.{
  AwaitsFirst, submit_flow-unknown, submit_flow-accepted, submit_flow-second_factor,
}
use enterprise_kratos.Login.Refusals.{submit_flow-finished}
use enterprise_kratos.Store.Flows.Expiry.{get-expired_twice}
use enterprise_kratos.Examples.Setting.{
  clock, clock-IsCalm, outside, methods, methods-Unwritten, plain_bcrypt, flow_of, with_flow, form,
  alice_password,
}

abbrev login_flow : Flow
login_flow = flow_of login none (in_phase "first_factor")

abbrev start : World
start = with_flow login_flow

abbrev logged_in : Login.SubmitResult
logged_in =
    Login.completed_result ⦃env = clock⦄ outside methods login_flow default 20 "aal1" ("pwd" ∷ [])

login_runs :
    (Login.submit_flow ⦃env = clock⦄ outside methods 1 10 "password"
      (form "a@x.org" "secret")
      start).0
    ≡ ok logged_in
unfolding Login.submit_flow Login.submit_in_phase Login.submit_first_factor Login.credential_or
    Login.accepted Login.first_factor_accepted Login.complete Password.adapter
    Password.complete_flow Password.compared Password.or_error Flows.update Flows.affected
    Policies.get get_by_identifier Flows.get Flows.check_expiry require_pending require returned get
    parse_session_ttl effects
login_runs = refl

submit_flow-Sound_example :
    Sound 1 methods outside 1 10 "password"
      (form "a@x.org" "secret")
      start.db
      (Login.submit_flow ⦃env = clock⦄ outside methods 1 10 "password"
        (form "a@x.org" "secret")
        start).1.db
      logged_in
submit_flow-Sound_example =
    submit_flow-Sound ⦃env = clock⦄ outside methods methods-Unwritten 1 10 "password"
      (form "a@x.org" "secret") start logged_in login_runs refl

password_registered : get "password" methods ≡ inr (Password.adapter plain_bcrypt)
unfolding get
password_registered = refl

awaiting :
    (identifier password : String)
    → str_eq identifier "" ≡ false
    → AwaitsFirst 1 methods 1 10 "password"
        (form identifier password)
        start.db
        login_flow
        (Password.adapter plain_bcrypt)
awaiting identifier password named = record {
  stands = refl;
  waiting = refl;
  in_time = ground arith;
  phase = refl;
  allowed = refl;
  registered = password_registered;
  named = named;
}

submit_flow-unknown_example :
    ((Login.submit_flow ⦃env = clock⦄ outside methods 1 10 "password"
        (form "b@x.org" "secret")
        start).0
      ≡ err invalid_credentials)
    × ((Login.submit_flow ⦃env = clock⦄ outside methods 1 10 "password"
          (form "b@x.org" "secret")
          start).1.db
        ≡ start.db)
submit_flow-unknown_example =
    submit_flow-unknown ⦃env = clock⦄ outside methods 1 10 "password" (form "b@x.org" "secret")
      start login_flow (Password.adapter plain_bcrypt) clock-IsCalm
      (awaiting "b@x.org" "secret" refl) refl

abbrev by_password : AuthResult
by_password = record { identity_id = 20; aal = "aal1"; amr = "pwd" ∷ []; credential_config = null }

abbrev asked : World
asked = record start { calls = 3 }

password_accepts :
    (Password.adapter plain_bcrypt).complete_flow
      (Login.factor_request login_flow 20 "password"
        (form "a@x.org" "secret")
        alice_password.config)
      asked
    ≡ (ok by_password, asked)
unfolding Password.adapter Password.complete_flow Password.compared Password.or_error effects
password_accepts = refl

submit_flow-accepted_example :
    (r : Login.SubmitResult) × ((Login.submit_flow ⦃env = clock⦄ outside methods 1 10 "password"
        (form "a@x.org" "secret")
        start).0
      ≡ ok r)
    × (r.completed ≡ true)
    × (r.identity_id ≡ 20)
    × (r.aal ≡ "aal1")
    × ((Login.submit_flow ⦃env = clock⦄ outside methods 1 10 "password"
          (form "a@x.org" "secret")
          start).1.db
        ≡ Flows.with_update 1 10
            (Flows.set_columns success
              (some 20)
              (Login.completed_ui login_flow.ui "aal1" ("pwd" ∷ [])))
            asked.db)
submit_flow-accepted_example =
    submit_flow-accepted ⦃env = clock⦄ outside methods 1 10 "password" (form "a@x.org" "secret")
      start login_flow (Password.adapter plain_bcrypt) clock-IsCalm
      (awaiting "a@x.org" "secret" refl) alice_password by_password asked refl password_accepts refl
      refl

abbrev finished : Flow
finished = record login_flow { state = success }

submit_flow-finished_example :
    (((Login.submit_flow ⦃env = clock⦄ outside methods 1 10 "password"
          (form "a@x.org" "secret")
          (with_flow finished)).0
        ≡ err (flow_is success))
      ⊎ ((Login.submit_flow ⦃env = clock⦄ outside methods 1 10 "password"
            (form "a@x.org" "secret")
            (with_flow finished)).0
          ≡ err db_failure))
    × ((Login.submit_flow ⦃env = clock⦄ outside methods 1 10 "password"
          (form "a@x.org" "secret")
          (with_flow finished)).1.db
        ≡ (with_flow finished).db)
submit_flow-finished_example =
    submit_flow-finished ⦃env = clock⦄ outside methods 1 (with_flow finished) 10 "password"
      (form "a@x.org" "secret") finished refl refl

abbrev overdue : Flow
overdue = record login_flow { expires_at = 0 }

get-expired_twice_example :
    ((Flows.get ⦃env = clock⦄ 1 10 (with_flow overdue)).0 ≡ err flow_expired)
    × ((Flows.get ⦃env = clock⦄ 1 10 (Flows.get ⦃env = clock⦄ 1 10 (with_flow overdue)).1).0
        ≡ ok (Flows.set_state expired overdue))
get-expired_twice_example =
    get-expired_twice ⦃env = clock⦄ 1 10 (with_flow overdue) clock-IsCalm overdue refl refl
      (ground arith)

-- The password again as the second factor.
abbrev strict : FlowPolicy
strict = record default {
  login = record (default.login) { allowed_second_factors = "password" ∷ []; mfa_required = true };
}

abbrev strict_start : World
strict_start = record start { db = record (start.db) { policies = (1, strict) ∷ [] } }

abbrev strict_asked : World
strict_asked = record strict_start { calls = 3 }

strict_accepts :
    (Password.adapter plain_bcrypt).complete_flow
      (Login.factor_request login_flow 20 "password"
        (form "a@x.org" "secret")
        alice_password.config)
      strict_asked
    ≡ (ok by_password, strict_asked)
unfolding Password.adapter Password.complete_flow Password.compared Password.or_error effects
strict_accepts = refl

abbrev password_nodes : List UiNode
password_nodes =
    input_node "password" "password" "password" null true (message 1070001 "info" "Password") ∷ []

second_starts :
    Login.start_all methods
      (record { tenant_id = 1; identity_id = 20; flow_id = 10; params = [] })
      ("password" ∷ [])
      []
      []
      strict_asked
    ≡ (ok (password_nodes, []), strict_asked)
unfolding Login.start_all Login.started Password.adapter Password.start_flow get effects
second_starts = refl

strict_awaiting :
    AwaitsFirst 1 methods 1 10 "password"
      (form "a@x.org" "secret")
      strict_start.db
      login_flow
      (Password.adapter plain_bcrypt)
strict_awaiting = record {
  stands = refl;
  waiting = refl;
  in_time = ground arith;
  phase = refl;
  allowed = refl;
  registered = password_registered;
  named = refl;
}

submit_flow-second_factor_example :
    (r : Login.SubmitResult) × ((Login.submit_flow ⦃env = clock⦄ outside methods 1 10 "password"
        (form "a@x.org" "secret")
        strict_start).0
      ≡ ok r)
    × (r.completed ≡ false)
    × (r.identity_id ≡ 0)
    × ((Login.submit_flow ⦃env = clock⦄ outside methods 1 10 "password"
          (form "a@x.org" "secret")
          strict_start).1.db
        ≡ Flows.with_update 1 10
            (Flows.set_columns pending
              (some 20)
              (Login.second_factor_ui login_flow.ui password_nodes [] ("pwd" ∷ [])))
            strict_asked.db)
submit_flow-second_factor_example =
    submit_flow-second_factor ⦃env = clock⦄ outside methods 1 10 "password"
      (form "a@x.org" "secret") strict_start login_flow (Password.adapter plain_bcrypt) clock-IsCalm
      strict_awaiting alice_password by_password strict_asked strict_asked password_nodes [] refl
      strict_accepts refl second_starts refl
