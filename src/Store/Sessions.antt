-- ===== src/Store/Sessions.antt =====
-- internal/session/store.go, over the table sessions.
pub mod Laws
pub mod Directory
use enterprise_kratos.Base.{
  ℕ, String, Bool, true, false, ◌&&◌, List, [], ◌∷◌, ◌++◌, ◌+◌, Uuid, ltb, ◌==◌, str_eq,
  if◌then◌else◌, find, update, any,
}
use enterprise_kratos.Identity.{Session}
use enterprise_kratos.Errors.{db_failure, session_not_found, session_expired, session_revoked}
use enterprise_kratos.Store.{
  Tables, Env, M, done, fail, found_or, run, query, time_now, next_uuid, generate_token, ◌>>=◌,
}

abbrev pub is_session : Uuid → Uuid → Session → Bool
is_session tenant id s = s.tenant_id == tenant && s.id == id

abbrev pub has_token : Uuid → String → Session → Bool
has_token tenant token s = s.tenant_id == tenant && str_eq s.token token

abbrev pub new_session : Uuid → Uuid → Uuid → String → ℕ → String → List String → Session
new_session id tenant identity token expires_at aal amr = record {
  id = id;
  tenant_id = tenant;
  identity_id = identity;
  token = token;
  expires_at = expires_at;
  aal = aal;
  amr = amr;
  active = true;
}

-- The primary key (tenant_id, id) and the unique index (tenant_id, token).
abbrev pub session_refused : Session → Tables → Bool
session_refused s db =
    if any (is_session s.tenant_id s.id) db.sessions
    then true
    else any (has_token s.tenant_id s.token) db.sessions

abbrev pub with_session : Session → Tables → Tables
with_session s db =
    if session_refused s db then db else record db { sessions = db.sessions ++ s ∷ [] }

abbrev pub deactivate : Session → Session
deactivate s = record s { active = false }

abbrev pub with_revoked : (Session → Bool) → Tables → Tables
with_revoked p db = record db { sessions = update p deactivate db.sessions }

unfoldable pub check_session : Session → ℕ → M Session
check_session s now =
    if s.active
    then (if ltb s.expires_at now then fail session_expired else done s)
    else fail session_revoked

module _ ⦃env : Env⦄ where
  unfoldable pub create : Uuid → Uuid → String → List String → ℕ → M Session
  create tenant identity aal amr ttl = do
    token ← generate_token
    now ← time_now
    id ← next_uuid
    refused ←
        run (session_refused (new_session id tenant identity token (now + ttl) aal amr))
          (with_session (new_session id tenant identity token (now + ttl) aal amr))
    if refused
        then fail db_failure
        else done (new_session id tenant identity token (now + ttl) aal amr)

  unfoldable pub get_by_token : Uuid → String → M Session
  get_by_token tenant token = do
    row ← query (λ db. find (has_token tenant token) db.sessions)
    s ← found_or session_not_found row
    now ← time_now
    check_session s now

  unfoldable pub affected : Bool → M (Unit {0})
  affected hit = if hit then done tt else fail session_not_found

  unfoldable pub revoke : Uuid → Uuid → M (Unit {0})
  revoke tenant id = do
    hit ← run (λ db. any (is_session tenant id) db.sessions) (with_revoked (is_session tenant id))
    affected hit

  unfoldable pub revoke_by_token : Uuid → String → M (Unit {0})
  revoke_by_token tenant token = do
    hit ←
        run (λ db. any (has_token tenant token) db.sessions) (with_revoked (has_token tenant token))
    affected hit
