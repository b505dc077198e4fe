-- ===== src/Examples/Sessions.antt =====
-- A session, and calls for another tenant.
use enterprise_kratos.Base.{
  true, none, some, List, [], ◌∷◌, ◌≡◌, refl, ltb, arith, Uuid, if◌then◌else◌,
}
use enterprise_kratos.Flow.{in_phase, login}
use enterprise_kratos.Identity.{Session}
use enterprise_kratos.Errors.{db_failure, session_not_found, session_expired, session_revoked}
use enterprise_kratos.Store.{World, ok, err, effects}
use enterprise_kratos.Store.Sessions
use enterprise_kratos.Store.Sessions.Directory.{
  Command, issue, look_up, withdraw, directory, serve, serve_commands, promises,
}
use enterprise_kratos.Store.Sessions.Directory.Refinement.{serve_commands-promises}
use enterprise_kratos.Store.Sessions.Laws.{create-get_by_token, revoke_by_token-get_by_token}
use enterprise_kratos.Requests.{Request, login_submit, session_create, registration_init, serve_all}
use enterprise_kratos.Isolation.{SameRows}
use enterprise_kratos.Isolation.Engines.{NoneFor, serve_all-SameRows}
use enterprise_kratos.Authenticator.Keeping.{EachKeeps, password-KeepsAll}
use enterprise_kratos.Lifetimes.{Later, Later-IsOrder}
use enterprise_kratos.Lifetimes.Histories.{serve_all-Later}
use enterprise_kratos.Examples.Setting.{
  google, plain_bcrypt, clock, clock-IsCalm, outside, methods, methods-SameRows, flow_of, with_flow,
  form,
}

abbrev start : World
start = with_flow (flow_of login none (in_phase "first_factor"))

abbrev session : Session
session = record {
  id = 101;
  tenant_id = 1;
  identity_id = 20;
  token = "token";
  expires_at = 61;
  aal = "aal1";
  amr = "pwd" ∷ [];
  active = true;
}

session_runs : (Sessions.create ⦃env = clock⦄ 1 20 "aal1" ("pwd" ∷ []) 60 start).0 ≡ ok session
unfolding Sessions.create effects
session_runs = refl

abbrev created : World
created = record start { db = record (start.db) { sessions = session ∷ [] }; calls = 9 }

session_rows :
    created.db.sessions
    ≡ (Sessions.create ⦃env = clock⦄ 1 20 "aal1" ("pwd" ∷ []) 60 start).1.db.sessions
unfolding Sessions.create effects
session_rows = refl

create-get_by_token_example :
    (Sessions.get_by_token ⦃env = clock⦄ 1 "token" created).0
    ≡ (if ltb 61 10 then err session_expired else ok session)
create-get_by_token_example =
    create-get_by_token ⦃env = clock⦄ 1 20 "aal1" ("pwd" ∷ []) 60 start session created clock-IsCalm
      session_runs session_rows

revoke_by_token-get_by_token_example :
    ((Sessions.revoke_by_token ⦃env = clock⦄ 1 "token" created).0 ≡ ok tt)
    × ((Sessions.get_by_token ⦃env = clock⦄ 1 "token"
          (Sessions.revoke_by_token ⦃env = clock⦄ 1 "token" created).1).0
        ≡ err session_revoked)
revoke_by_token-get_by_token_example =
    revoke_by_token-get_by_token ⦃env = clock⦄ 1 "token" session created
      (Sessions.revoke_by_token ⦃env = clock⦄ 1 "token" created).1 clock-IsCalm refl refl

abbrev calls : List (Uuid × Request)
calls =
    (1, login_submit 10 "password" (form "a@x.org" "secret"))
    ∷ (1, session_create 20 "aal1" ("pwd" ∷ []) 60)
    ∷ (3, registration_init)
    ∷ []

others : NoneFor 2 calls
others = (λ h. ground arith, (λ h. ground arith, (λ h. ground arith, tt)))

serve_all-SameRows_example :
    SameRows 2 start.db (serve_all ⦃env = clock⦄ outside google methods calls start).db
serve_all-SameRows_example =
    serve_all-SameRows ⦃env = clock⦄ outside google methods 2 methods-SameRows calls others start

methods-Later : EachKeeps Later methods
methods-Later = (password-KeepsAll Later-IsOrder plain_bcrypt, tt)

serve_all-Later_example :
    Later created.db (serve_all ⦃env = clock⦄ outside google methods calls created).db
serve_all-Later_example =
    serve_all-Later ⦃env = clock⦄ outside google methods methods-Later calls created

abbrev commands : List Command
commands =
    issue 20 "aal1" ("pwd" ∷ []) 60
    ∷ look_up "token"
    ∷ issue 20 "aal1" ("pwd" ∷ []) 60
    ∷ withdraw "token"
    ∷ look_up "token"
    ∷ look_up "other"
    ∷ []

-- The second session would have the same token.
commands_run :
    (serve_commands ⦃env = clock⦄ 1 commands start).0
    ≡ ok (some session)
      ∷ ok (some session)
      ∷ err db_failure
      ∷ ok none
      ∷ err session_revoked
      ∷ err session_not_found
      ∷ []
unfolding serve_commands serve Sessions.create Sessions.get_by_token Sessions.check_session
    Sessions.revoke_by_token Sessions.affected effects
commands_run = refl

serve_commands-promises_example :
    ((serve_commands ⦃env = clock⦄ 1 commands start).0
      ≡ (promises ⦃env = clock⦄ 1 commands (directory 1 start.db) 0).0)
    × (directory 1 (serve_commands ⦃env = clock⦄ 1 commands start).1.db
        ≡ (promises ⦃env = clock⦄ 1 commands (directory 1 start.db) 0).1)
serve_commands-promises_example =
    serve_commands-promises ⦃env = clock⦄ 1 clock-IsCalm commands start
