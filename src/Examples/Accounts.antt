-- ===== src/Examples/Accounts.antt =====
-- Registrations, verifications, recoveries and settings of the account of the setting.
use enterprise_kratos.Base.{none, some, ◌≡◌, refl, arith, true, inr}
use enterprise_kratos.Flow.{Flow, in_phase, login, registration, verification, failed, success}
use enterprise_kratos.Policy.{default}
use enterprise_kratos.Errors.{account_exists, invalid_token}
use enterprise_kratos.Store.{World, ok, err, effects}
use enterprise_kratos.Store.Flows
use enterprise_kratos.Store.Policies
use enterprise_kratos.Store.Schemas
use enterprise_kratos.Store.Identities
use enterprise_kratos.Engine.{require, require_pending, returned, some_or, parse_session_ttl}
use enterprise_kratos.Authenticator.Registry.{get}
use enterprise_kratos.Authenticator.Password
use enterprise_kratos.Traits.{extract_identifier}
use enterprise_kratos.Registration
use enterprise_kratos.Registration.Soundness.{Registered, submit_flow-Registered, submit_flow-taken}
use enterprise_kratos.Registration.RoundTrip.{registration-login}
use enterprise_kratos.Login
use enterprise_kratos.Verification
use enterprise_kratos.Verification.Tokens.{Verified, submit_flow-Verified, submit_flow-wrong_token}
use enterprise_kratos.Examples.Setting.{
  clock, clock-IsCalm, outside, methods, methods-Unwritten, flow_of, with_flow, form,
  alice_password, plain_bcrypt, plain-lawful,
}

abbrev sign_up : Flow
sign_up = flow_of registration none (in_phase "register")

abbrev new_account : Registration.SubmitResult
new_account =
    Registration.registered ⦃env = clock⦄ outside methods
      (record sign_up {
        ui = Registration.complete_ui sign_up.ui;
        state = success;
        identity_id = some 106;
      })
      default 106

registration_runs :
    (Registration.submit_flow ⦃env = clock⦄ outside methods 1 10 "password"
      (form "b@x.org" "hunter")
      (with_flow sign_up)).0
    ≡ ok new_account
unfolding Registration.submit_flow Registration.must_be_free Registration.create_account
    Registration.finish Password.adapter Password.enroll Password.hashed Password.or_error
    Schemas.ensure_default Schemas.ensured Schemas.get_active Schemas.insert_default
    Schemas.created_or_refetched Identities.create_identity Identities.create_credential
    Identities.get_by_identifier Flows.update Flows.affected Policies.get Flows.get
    Flows.check_expiry require_pending require returned get parse_session_ttl extract_identifier
    effects
registration_runs = refl

submit_flow-Registered_example :
    Registered outside methods 1 10 "password"
      (form "b@x.org" "hunter")
      (with_flow sign_up).db
      (Registration.submit_flow ⦃env = clock⦄ outside methods 1 10 "password"
        (form "b@x.org" "hunter")
        (with_flow sign_up)).1.db
      new_account
submit_flow-Registered_example =
    submit_flow-Registered ⦃env = clock⦄ outside methods methods-Unwritten 1 10 "password"
      (form "b@x.org" "hunter") (with_flow sign_up) new_account registration_runs

abbrev returning : World
returning = record (with_flow (flow_of login none (in_phase "first_factor"))) {
  db = record ((with_flow (flow_of login none (in_phase "first_factor"))).db) {
    credentials =
        (Registration.submit_flow ⦃env = clock⦄ outside methods 1 10 "password"
          (form "b@x.org" "hunter") (with_flow sign_up)).1.db.credentials;
  };
}

asked_method : get "password" methods ≡ inr (Password.adapter plain_bcrypt)
unfolding get
asked_method = refl

registration-login_example :
    (result : Login.SubmitResult) × ((Login.submit_flow ⦃env = clock⦄ outside methods 1 10
        "password"
        (form "b@x.org" "hunter")
        returning).0
      ≡ ok result)
    × (result.completed ≡ true)
    × (result.identity_id ≡ 106)
    × (result.aal ≡ "aal1")
unfolding extract_identifier
registration-login_example =
    registration-login ⦃env = clock⦄ outside methods plain_bcrypt plain-lawful clock-IsCalm
      methods-Unwritten 1 10 (form "b@x.org" "hunter") (with_flow sign_up) new_account
      registration_runs 10 (form "b@x.org" "hunter") returning
      (flow_of login none (in_phase "first_factor")) refl
      (record {
        stands = refl;
        waiting = refl;
        in_time = ground arith;
        phase = refl;
        allowed = refl;
        registered = asked_method;
        named = refl;
      })
      refl refl refl

submit_flow-taken_example :
    ((Registration.submit_flow ⦃env = clock⦄ outside methods 1 10 "password"
        (form "a@x.org" "hunter")
        (with_flow sign_up)).0
      ≡ err account_exists)
    × ((Registration.submit_flow ⦃env = clock⦄ outside methods 1 10 "password"
          (form "a@x.org" "hunter")
          (with_flow sign_up)).1.db
        ≡ (with_flow sign_up).db)
unfolding extract_identifier
submit_flow-taken_example =
    submit_flow-taken ⦃env = clock⦄ outside methods 1 10 "password" (form "a@x.org" "hunter")
      sign_up alice_password (with_flow sign_up) clock-IsCalm refl refl (ground arith) refl refl
      refl refl refl

abbrev confirm : Flow
confirm = flow_of verification (some 20) (Verification.verify_internal "token")

verification_runs :
    (Verification.submit_flow ⦃env = clock⦄ 1 10 "token" (with_flow confirm)).0 ≡ ok tt
unfolding Verification.submit_flow Verification.check_token Identities.update_identity_state
    Identities.affected Flows.update Flows.affected Flows.get Flows.check_expiry require_pending
    require some_or effects
verification_runs = refl

submit_flow-Verified_example :
    Verified 1 10 "token"
      (with_flow confirm).db
      (Verification.submit_flow ⦃env = clock⦄ 1 10 "token" (with_flow confirm)).1.db
submit_flow-Verified_example =
    submit_flow-Verified ⦃env = clock⦄ 1 10 "token" (with_flow confirm) verification_runs

submit_flow-wrong_token_example :
    ((Verification.submit_flow ⦃env = clock⦄ 1 10 "guess" (with_flow confirm)).0
      ≡ err invalid_token)
    × ((Verification.submit_flow ⦃env = clock⦄ 1 10 "guess" (with_flow confirm)).1.db
        ≡ Flows.with_update 1 10 (Flows.set_state failed) (with_flow confirm).db)
submit_flow-wrong_token_example =
    submit_flow-wrong_token ⦃env = clock⦄ 1 10 20 "guess" confirm (with_flow confirm) clock-IsCalm
      refl refl (ground arith) refl refl refl refl
