-- ===== src/Examples/Changes.antt =====
-- Recoveries and changes of settings of the account of the setting.
use enterprise_kratos.Base.{
  null, hour, ◌+◌, true, false, none, some, [], ◌∷◌, inr, ◌≡◌, refl, find, arith,
}
use enterprise_kratos.Flow.{pending, verification, Flow, in_phase, recovery, settings}
use enterprise_kratos.Identity.{Identity, Session}
use enterprise_kratos.Store.{World, ok, effects, is_ok}
use enterprise_kratos.Store.Flows
use enterprise_kratos.Store.Sessions
use enterprise_kratos.Store.Identities
use enterprise_kratos.Engine.{require, require_pending, some_or}
use enterprise_kratos.Authenticator.{CompleteFlowRequest, EnrollRequest, EnrollResult}
use enterprise_kratos.Authenticator.Registry.{get}
use enterprise_kratos.Authenticator.Password
use enterprise_kratos.Traits.{email_of}
use enterprise_kratos.Recovery
use enterprise_kratos.Recovery.Link.{Recovered, use_token-Recovered}
use enterprise_kratos.Recovery.Privacy.{notice, shown, request_recovery-shown}
use enterprise_kratos.Settings
use enterprise_kratos.Verification
use enterprise_kratos.Verification.RoundTrip.{init_flow-submit_flow}
use enterprise_kratos.Authenticator.Password.Laws.{enroll-complete_flow}
use enterprise_kratos.Settings.Ownership.{submit_flow-not_owner}
use enterprise_kratos.Settings.Takeover.{submit_password-overwrites}
use enterprise_kratos.Examples.Setting.{
  plain-lawful, clock, clock-IsCalm, outside, methods, plain_bcrypt, flow_of, with_flow, form,
  alice, alice_password,
}

abbrev link : Flow
link = flow_of recovery (some 20) (Recovery.link_internal "token" "20")

abbrev recovered : Session
recovered = record {
  id = 103;
  tenant_id = 1;
  identity_id = 20;
  token = "token";
  expires_at = 3 + Recovery.recovery_session_ttl;
  aal = "aal1";
  amr = "recovery" ∷ [];
  active = true;
}

recovery_runs :
    (Recovery.use_token ⦃env = clock⦄ outside 1 10 "token" (with_flow link)).0 ≡ ok (recovered, 20)
unfolding Recovery.use_token Recovery.check_token Identities.update_identity_state
    Identities.affected Sessions.create Flows.update Flows.affected Flows.get Flows.check_expiry
    require_pending require some_or effects
recovery_runs = refl

use_token-Recovered_example :
    Recovered clock.now outside 1 10 "token" (with_flow link).db recovered 20
use_token-Recovered_example =
    use_token-Recovered ⦃env = clock⦄ outside 1 10 "token" (with_flow link) recovered 20
      recovery_runs

abbrev request : Flow
request = flow_of recovery none (in_phase "request")

request_recovery-shown_example :
    ((Recovery.request_recovery ⦃env = clock⦄ outside 1 10 "nobody@x.org" (with_flow request)).0
      ≡ ok "token")
    × (shown 1 10
          (Recovery.request_recovery ⦃env = clock⦄ outside 1 10 "nobody@x.org"
            (with_flow request)).1.db
        ≡ some (notice request))
request_recovery-shown_example =
    request_recovery-shown ⦃env = clock⦄ outside 1 10 request clock-IsCalm "nobody@x.org" "token"
      (with_flow request) refl refl (ground arith) refl refl refl

-- Mallory has no password yet, and the traits name the email of Alice.
abbrev mallory : Identity
mallory = record alice { id = 21 }

abbrev change : Flow
change = flow_of settings (some 21) (in_phase "settings")

abbrev both : World
both = record (with_flow change) {
  db = record ((with_flow change).db) { identities = alice ∷ mallory ∷ [] };
}

abbrev enrolled : EnrollResult
enrolled = record {
  credential_type = "password";
  identifiers = [];
  credential_config = Password.encode_config "mine";
}

enrolls :
    (Password.adapter plain_bcrypt).enroll
      (record { tenant_id = 1; identity_id = 21; values = form "" "mine" })
      both
    ≡ (ok enrolled, record both { calls = 1 })
unfolding Password.adapter Password.enroll Password.hashed Password.or_error effects
enrolls = refl

password_registered : get "password" methods ≡ inr (Password.adapter plain_bcrypt)
unfolding get
password_registered = refl

email_named : email_of mallory.traits ≡ some "a@x.org"
email_named = refl

submit_password-overwrites_example :
    ((Settings.submit_password ⦃env = clock⦄ methods 1 10 21 change (form "" "mine") both).0
      ≡ ok tt)
    × (find
          (Identities.same_key 1 "password" ("a@x.org" ∷ []))
          (Settings.submit_password ⦃env = clock⦄ methods 1 10 21 change
            (form "" "mine")
            both).1.db.credentials
        ≡ some (record alice_password { config = Password.encode_config "mine" }))
submit_password-overwrites_example =
    submit_password-overwrites ⦃env = clock⦄ clock-IsCalm methods (Password.adapter plain_bcrypt) 1
      10 21 change (form "" "mine") enrolled mallory "a@x.org" alice_password both
      (record both { calls = 1 }) password_registered enrolls refl refl refl email_named refl

submit_flow-not_owner_example :
    (is_ok (Settings.submit_flow ⦃env = clock⦄ methods 1 10 20 "password" (form "" "x") both).0
      ≡ false)
    × ((Settings.submit_flow ⦃env = clock⦄ methods 1 10 20 "password"
          (form "" "x")
          both).1.db.identities
        ≡ both.db.identities)
    × ((Settings.submit_flow ⦃env = clock⦄ methods 1 10 20 "password"
          (form "" "x")
          both).1.db.credentials
        ≡ both.db.credentials)
    × ((Settings.submit_flow ⦃env = clock⦄ methods 1 10 20 "password"
          (form "" "x")
          both).1.db.sessions
        ≡ both.db.sessions)
submit_flow-not_owner_example =
    submit_flow-not_owner ⦃env = clock⦄ methods 1 10 20 "password" (form "" "x") change both refl
      refl

-- A password that is enrolled and then submitted.
abbrev enrolment : EnrollRequest
enrolment = record { tenant_id = 1; identity_id = 21; values = form "" "mine" }

abbrev completion : CompleteFlowRequest
completion = record {
  tenant_id = 1;
  identity_id = 21;
  flow_id = 10;
  flow_state = "";
  values = form "m@x.org" "mine";
  credential_config = Password.encode_config "mine";
}

enrolment_runs : (Password.enroll plain_bcrypt enrolment both).0 ≡ ok enrolled
unfolding Password.enroll Password.hashed Password.or_error effects
enrolment_runs = refl

enroll-complete_flow_example :
    (Password.complete_flow plain_bcrypt completion both).0
    ≡ ok (record { identity_id = 21; aal = "aal1"; amr = "pwd" ∷ []; credential_config = null })
enroll-complete_flow_example =
    enroll-complete_flow plain_bcrypt plain-lawful enrolment both enrolled completion both
      enrolment_runs refl refl

-- A verification from its start to its end.
abbrev verifying : Flow
verifying = record {
  id = 101;
  tenant_id = 1;
  kind = verification;
  state = pending;
  identity_id = some 20;
  ui = Verification.verify_ui "token";
  expires_at = 1 + hour;
}

abbrev later : World
later = record both { db = record (both.db) { flows = change ∷ verifying ∷ [] }; calls = 7 }

started_runs : (Verification.init_flow ⦃env = clock⦄ 1 20 both).0 ≡ ok (verifying, "token")
unfolding Verification.init_flow Flows.create Flows.update Flows.affected effects
started_runs = refl

started_rows : later.db.flows ≡ (Verification.init_flow ⦃env = clock⦄ 1 20 both).1.db.flows
unfolding Verification.init_flow Flows.create Flows.update Flows.affected effects
started_rows = refl

init_flow-submit_flow_example :
    (Verification.submit_flow ⦃env = clock⦄ 1 101 "token" later).0 ≡ ok tt
init_flow-submit_flow_example =
    init_flow-submit_flow ⦃env = clock⦄ 1 20 both verifying "token" later clock-IsCalm started_runs
      started_rows refl refl (ground arith)
