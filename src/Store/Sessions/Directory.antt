-- ===== src/Store/Sessions/Directory.antt =====
-- The session store of one tenant as a directory of tokens: what the three operations that the
-- sessions of a tenant go through promise, without rows, order or tables.
pub mod Refinement
use enterprise_kratos.Base.{
  ℕ, suc, ◌+◌, String, Bool, true, false, ◌&&◌, Option, none, some, List, [], ◌∷◌, ◌++◌, Uuid, ltb,
  ◌==◌, ◌≡◌, refl, ◌∙◌, ap, arith, str_eq, if◌then◌else◌, find, update, any, find-insert,
  find-insert_other, find-update, find-update_other, eq_iff, eq_refl, subst, sym,
}
use mathlib.Core.Option
use mathlib.Core.Path.{ap₂, fun_ext}
use enterprise_kratos.Identity.{Session}
use enterprise_kratos.Errors.{
  Error, db_failure, session_not_found, session_expired, session_revoked, random_failure,
}
use enterprise_kratos.Store.{
  Tables, Env, World, Result, ok, err, panic, M, done, ◌>>=◌, ◌>>◌, effects,
}
use enterprise_kratos.Store.Calm.{IsCalm}
use enterprise_kratos.Store.Sessions
use enterprise_kratos.Store.Sessions.{
  has_token, is_session, new_session, deactivate, session_refused, with_session, with_revoked,
}

-- Which session a token stands for, and which IDs are taken.
pub record Directory : Type 0 where
  pub session_of : String → Option Session
  pub taken : Uuid → Bool

pub data Command : Type 0 where
  issue : Uuid → String → List String → ℕ → Command
  look_up : String → Command
  withdraw : String → Command

abbrev pub put_session : Session → Directory → Directory
put_session s d = record {
  session_of = λ t. if str_eq s.token t then some s else d.session_of t;
  taken = λ id. if s.id == id then true else d.taken id;
}

abbrev pub withdraw_token : String → Directory → Directory
withdraw_token token d = record d {
  session_of =
      λ t. if str_eq token t then Option.map deactivate (d.session_of t) else d.session_of t;
}

abbrev pub is_some {ℓ} : {A : Type ℓ} → Option A → Bool
is_some none = false
is_some (some a) = true

-- A valid session is active and has not expired.
abbrev pub valid_at : ℕ → Option Session → Result Session
valid_at now none = err session_not_found
valid_at now (some s) =
    if s.active
    then (if ltb s.expires_at now then err session_expired else ok s)
    else err session_revoked

-- The directory that the sessions of a tenant are.
abbrev pub directory : Uuid → Tables → Directory
directory tenant db = record {
  session_of = λ t. find (has_token tenant t) db.sessions;
  taken = λ id. any (is_session tenant id) db.sessions;
}

-- The answer, the directory, and the number of calls of the database afterwards.
pub record Outcome : Type 0 where
  pub answer : Result (Option Session)
  pub directory : Directory
  pub calls : ℕ

abbrev pub shown : Result Session → Result (Option Session)
shown (ok s) = ok (some s)
shown (err e) = err e
shown panic = panic

module _ ⦃env : Env⦄ (tenant : Uuid) where
  -- The operations of the store.
  unfoldable pub serve : Command → M (Option Session)
  serve (issue identity aal amr ttl) = do
    s ← Sessions.create tenant identity aal amr ttl
    done (some s)
  serve (look_up token) = do s ← Sessions.get_by_token tenant token; done (some s)
  serve (withdraw token) = Sessions.revoke_by_token tenant token >> done none

  abbrev pub added : Session → Directory → ℕ → Outcome
  added s d n =
      if d.taken s.id
      then record { answer = err db_failure; directory = d; calls = suc n }
      else (if is_some (d.session_of s.token)
          then record { answer = err db_failure; directory = d; calls = suc n }
          else record { answer = ok (some s); directory = put_session s d; calls = suc n })

  -- A session for the drawn token, which expires after `ttl`.
  abbrev pub issued : Uuid → String → List String → ℕ → Directory → ℕ → Option String → Outcome
  issued identity aal amr ttl d n none = record {
    answer = err random_failure;
    directory = d;
    calls = n;
  }
  issued identity aal amr ttl d n (some token) =
      added (new_session (env.fresh_uuid n) tenant identity token (env.now n + ttl) aal amr) d n

  -- What the directory promises.
  abbrev pub promise : Command → Directory → ℕ → Outcome
  promise (issue identity aal amr ttl) d n =
      issued identity aal amr ttl d (suc n) (env.random_token n)
  promise (look_up token) d n = record {
    answer = shown (valid_at (env.now (suc n)) (d.session_of token));
    directory = d;
    calls = suc n;
  }
  promise (withdraw token) d n = record {
    answer = if is_some (d.session_of token) then ok none else err session_not_found;
    directory = withdraw_token token d;
    calls = suc n;
  }

  -- What the store does, seen as a directory.
  abbrev pub observed : Result (Option Session) × World → Outcome
  observed (r, w) = record { answer = r; directory = directory tenant w.db; calls = w.calls }

  -- A history of operations, with the answers.
  unfoldable pub serve_commands : List Command → World → List (Result (Option Session)) × World
  serve_commands [] w = ([], w)
  serve_commands (c ∷ cs) w =
      let rest = serve_commands cs (serve c w).1 in ((serve c w).0 ∷ rest.0, rest.1)

  unfoldable pub promises :
      List Command → Directory → ℕ → List (Result (Option Session)) × Directory
  promises [] d n = ([], d)
  promises (c ∷ cs) d n =
      let o = promise c d n in
      let rest = promises cs o.directory o.calls in (o.answer ∷ rest.0, rest.1)
