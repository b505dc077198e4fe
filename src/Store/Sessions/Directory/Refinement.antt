-- ===== src/Store/Sessions/Directory/Refinement.antt =====
-- The session store refines the directory of tokens.
use enterprise_kratos.Base.{
  ℕ, suc, ◌+◌, String, true, false, Option, none, some, List, [], ◌∷◌, ◌++◌, Uuid, ◌==◌, ◌≡◌, refl,
  ◌∙◌, ap, arith, str_eq, if◌then◌else◌, find, update, any, eq_iff, subst, sym,
}
use mathlib.Core.Option
use mathlib.Core.Path.{ap₂, fun_ext}
use enterprise_kratos.Identity.{Session}
use enterprise_kratos.Store.{Tables, Env, World, effects}
use enterprise_kratos.Store.Calm.{IsCalm}
use enterprise_kratos.Store.Sessions
use enterprise_kratos.Store.Sessions.{
  has_token, is_session, new_session, deactivate, session_refused, with_session, with_revoked,
}
use enterprise_kratos.Store.Sessions.Directory.{
  Directory, Command, issue, look_up, withdraw, put_session, withdraw_token, is_some, directory,
  Outcome, serve, issued, promise, observed, serve_commands, promises,
}

find_or_any :
    (tenant : Uuid) (t : String) (rows : List Session)
    → any (has_token tenant t) rows ≡ is_some (find (has_token tenant t) rows)
find_or_any tenant t [] = refl
find_or_any tenant t (s ∷ rows) = ground (arith, find_or_any tenant t rows)

same_tokens :
    (tenant : Uuid) (token t : String) (s : Session)
    → str_eq token t ≡ true
    → has_token tenant t s ≡ has_token tenant token s
same_tokens tenant token t s h = ap (λ x. has_token tenant x s) (sym ((eq_iff token t).0 h))

-- A session has one token.
other_token :
    (tenant : Uuid) (token t : String) (s : Session)
    → str_eq token t ≡ false
    → has_token tenant token s ≡ true
    → has_token tenant t s ≡ false
other_token tenant token t s h k =
    let own : (str_eq s.token token ≡ true) = ground arith in
    let apart = subst (λ x. str_eq x t ≡ false) (sym ((eq_iff s.token token).0 own)) h in
    ground (arith, apart)

added_token :
    (tenant : Uuid) (s : Session) (t : String) (rows : List Session)
    → s.tenant_id ≡ tenant
    → any (has_token tenant s.token) rows ≡ false
    → find (has_token tenant t) (rows ++ s ∷ [])
      ≡ (if str_eq s.token t then some s else find (has_token tenant t) rows)
added_token tenant s t [] own free = ground arith
added_token tenant s t (r ∷ rows) own free =
    ground (arith, same_tokens tenant s.token t r, added_token tenant s t rows own)

added_id :
    (tenant : Uuid) (s : Session) (id : Uuid) (rows : List Session)
    → s.tenant_id ≡ tenant
    → any (is_session tenant id) (rows ++ s ∷ [])
      ≡ (if s.id == id then true else any (is_session tenant id) rows)
added_id tenant s id [] own = ground arith
added_id tenant s id (r ∷ rows) own = ground (arith, added_id tenant s id rows own)

revoked_token :
    (tenant : Uuid) (token t : String) (rows : List Session)
    → find (has_token tenant t) (update (has_token tenant token) deactivate rows) ≡ (
        if str_eq token t
        then Option.map deactivate (find (has_token tenant t) rows)
        else find (has_token tenant t) rows)
revoked_token tenant token t [] = ground arith
revoked_token tenant token t (s ∷ rows) = ground (
  arith,
  same_tokens tenant token t s,
  other_token tenant token t s,
  revoked_token tenant token t rows,
)

revoked_id :
    (tenant : Uuid) (token : String) (id : Uuid) (rows : List Session)
    → any (is_session tenant id) (update (has_token tenant token) deactivate rows)
      ≡ any (is_session tenant id) rows
revoked_id tenant token id [] = refl
revoked_id tenant token id (s ∷ rows) = ground (arith, revoked_id tenant token id rows)

same_directory : {d e : Directory} → d.session_of ≡ e.session_of → d.taken ≡ e.taken → d ≡ e
same_directory h k = ap₂ (λ f g. record { session_of = f; taken = g }) h k

module _ ⦃env : Env⦄ (tenant : Uuid) where
  revoked_directory :
      (token : String) (db : Tables)
      → directory tenant (with_revoked (has_token tenant token) db)
        ≡ withdraw_token token (directory tenant db)
  revoked_directory token db =
      same_directory (fun_ext (λ t. revoked_token tenant token t db.sessions))
        (fun_ext (λ id. revoked_id tenant token id db.sessions))

  added_directory :
      (s : Session) (db : Tables)
      → s.tenant_id ≡ tenant
      → any (has_token tenant s.token) db.sessions ≡ false
      → directory tenant (record db { sessions = db.sessions ++ s ∷ [] })
        ≡ put_session s (directory tenant db)
  added_directory s db own free =
      same_directory (fun_ext (λ t. added_token tenant s t db.sessions own free))
        (fun_ext (λ id. added_id tenant s id db.sessions own))

  module _ (calm : IsCalm env) (w : World) where
    look_up-keeps_promise :
        (token : String)
        → observed tenant (serve tenant (look_up token) w)
          ≡ promise tenant (look_up token) (directory tenant w.db) w.calls
    unfolding serve Sessions.get_by_token Sessions.check_session effects
    look_up-keeps_promise token = ground (arith, calm w.calls)

    withdraw-keeps_promise :
        (token : String)
        → observed tenant (serve tenant (withdraw token) w)
          ≡ promise tenant (withdraw token) (directory tenant w.db) w.calls
    unfolding serve Sessions.revoke_by_token Sessions.affected effects
    withdraw-keeps_promise token =
        ground (
          arith,
          calm w.calls,
          find_or_any tenant token w.db.sessions,
          revoked_directory token w.db,
        )

    module _ (identity : Uuid) (aal : String) (amr : List String) (ttl : ℕ) where
      issue-drawn :
          (x : Option String)
          → env.random_token w.calls ≡ x
          → observed tenant (serve tenant (issue identity aal amr ttl) w)
            ≡ issued tenant identity aal amr ttl (directory tenant w.db) (suc w.calls) x
      unfolding serve Sessions.create effects
      issue-drawn none h = ground arith
      issue-drawn (some token) h =
          let s =
            new_session (env.fresh_uuid (suc w.calls)) tenant identity token
              (env.now (suc w.calls) + ttl) aal amr in
          ground (
            arith,
            h,
            calm (suc w.calls),
            find_or_any tenant token w.db.sessions,
            added_directory s w.db refl,
          )

    serve-keeps_promise :
        (c : Command)
        → observed tenant (serve tenant c w) ≡ promise tenant c (directory tenant w.db) w.calls
    serve-keeps_promise (issue identity aal amr ttl) =
        issue-drawn identity aal amr ttl (env.random_token w.calls) refl
    serve-keeps_promise (look_up token) = look_up-keeps_promise token
    serve-keeps_promise (withdraw token) = withdraw-keeps_promise token

  -- Where the database does not fail, the store refines the directory: for every history of issued,
  -- looked up and withdrawn sessions of the tenant, from every database, the answers are those that
  -- the directory of the tenant promises for the same history, and afterwards the sessions of the
  -- tenant are the directory that is promised.
  pub serve_commands-promises :
      (calm : IsCalm env) (cs : List Command) (w : World)
      → ((serve_commands tenant cs w).0 ≡ (promises tenant cs (directory tenant w.db) w.calls).0)
        × (directory tenant (serve_commands tenant cs w).1.db
            ≡ (promises tenant cs (directory tenant w.db) w.calls).1)
  unfolding serve_commands promises
  serve_commands-promises calm [] w = (refl, refl)
  serve_commands-promises calm (c ∷ cs) w =
      let kept = serve-keeps_promise calm w c in
      let (answers, left) = serve_commands-promises calm cs (serve tenant c w).1 in
      (
        ap₂ (λ x xs. x ∷ xs) (ap (λ o. o.answer) kept)
            (answers ∙ ap (λ (o : Outcome). (promises tenant cs o.directory o.calls).0) kept),
        left ∙ ap (λ (o : Outcome). (promises tenant cs o.directory o.calls).1) kept,
      )
