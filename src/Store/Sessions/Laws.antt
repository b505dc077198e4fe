-- ===== src/Store/Sessions/Laws.antt =====
-- The life of a session: created, found by its token while it lasts, and refused once it is
-- revoked.
use enterprise_kratos.Base.{
  ℕ, suc, ◌+◌, Uuid, String, true, false, List, [], ◌∷◌, ◌++◌, ◌≡◌, refl, any_of_find, ◌∙◌, ap,
  some, none, arith, ltb, find, find-insert, any, find-update, if◌then◌else◌, eq_refl,
}
use mathlib.Core.Option
use enterprise_kratos.Identity.{Session}
use enterprise_kratos.Errors.{session_expired, session_revoked}
use enterprise_kratos.Store.{Env, World, ok, err, effects}
use enterprise_kratos.Store.Calm.{IsCalm}
use enterprise_kratos.Store.Sessions

has_token-deactivate :
    (tenant : Uuid) (token : String) (s : Session)
    → Sessions.has_token tenant token (Sessions.deactivate s) ≡ Sessions.has_token tenant token s
has_token-deactivate tenant token s = refl

find-missing :
    (tenant : Uuid) (token : String) (sessions : List Session)
    → any (Sessions.has_token tenant token) sessions ≡ false
    → find (Sessions.has_token tenant token) sessions ≡ none
find-missing tenant token [] h = refl
find-missing tenant token (s ∷ sessions) h = ground (arith, find-missing tenant token sessions)

module _ ⦃env : Env⦄ (tenant : Uuid) where
  -- What a created session is.
  pub created :
      (identity : Uuid) (aal : String) (amr : List String) (ttl : ℕ) (w : World) (s : Session)
      → (Sessions.create tenant identity aal amr ttl w).0 ≡ ok s
      → (s.tenant_id ≡ tenant)
        × (s.identity_id ≡ identity)
        × (s.aal ≡ aal)
        × (s.amr ≡ amr)
        × (s.active ≡ true)
        × (s.expires_at ≡ env.now (suc w.calls) + ttl)
        × (any (Sessions.has_token tenant s.token) w.db.sessions ≡ false)
        × ((Sessions.create tenant identity aal amr ttl w).1.db.sessions ≡ w.db.sessions ++ s ∷ [])
  unfolding Sessions.create effects
  created identity aal amr ttl w s h = ground arith

  checked :
      (s : Session) (now : ℕ) (w : World)
      → s.active ≡ true
      → (Sessions.check_session s now w).0
        ≡ (if ltb s.expires_at now then err session_expired else ok s)
  unfolding Sessions.check_session effects
  checked s now w active = ground arith

  inactive :
      (s : Session) (now : ℕ) (w : World)
      → (Sessions.check_session (Sessions.deactivate s) now w).0 ≡ err session_revoked
  unfolding Sessions.check_session effects
  inactive s now w = refl

  has_own_token : (s : Session) → s.tenant_id ≡ tenant → Sessions.has_token tenant s.token s ≡ true
  has_own_token s own = ground (arith, eq_refl s.token)

  revoked :
      (token : String) (w : World)
      → IsCalm env
      → (s : Session) → find (Sessions.has_token tenant token) w.db.sessions ≡ some s
      → Sessions.revoke_by_token tenant token w ≡ (
        ok tt,
        record w {
          db = Sessions.with_revoked (Sessions.has_token tenant token) w.db;
          calls = suc w.calls;
        },
      )
  unfolding Sessions.revoke_by_token Sessions.affected effects
  revoked token w calm s h =
      ground (arith, calm w.calls, any_of_find (Sessions.has_token tenant token) w.db.sessions s)

  get-row :
      (token : String) (s : Session) (w : World)
      → IsCalm env
      → find (Sessions.has_token tenant token) w.db.sessions ≡ some s
      → Sessions.get_by_token tenant token w
        ≡ Sessions.check_session s (env.now (suc w.calls)) (record w { calls = suc w.calls })
  unfolding Sessions.get_by_token effects
  get-row token s w calm h = ground (arith, calm w.calls)

  -- Where the database does not fail, a session that was created is found by its token in any state
  -- of the database that has the sessions that the creation left, as long as it has not expired;
  -- after that the answer is that it expired.
  pub create-get_by_token :
      (identity : Uuid) (aal : String) (amr : List String) (ttl : ℕ) (w : World) (s : Session)
      (later : World)
      → IsCalm env
      → (Sessions.create tenant identity aal amr ttl w).0 ≡ ok s
      → later.db.sessions ≡ (Sessions.create tenant identity aal amr ttl w).1.db.sessions
      → (Sessions.get_by_token tenant s.token later).0 ≡ (
          if ltb (env.now (suc w.calls) + ttl) (env.now (suc later.calls))
          then err session_expired
          else ok s)
  create-get_by_token identity aal amr ttl w s later calm h same =
      let (own, _, _, _, active, expires, fresh, rows) = created identity aal amr ttl w s h in
      let stands =
        ap (find (Sessions.has_token tenant s.token)) (same ∙ rows)
        ∙ find-insert (Sessions.has_token tenant s.token) s _ (find-missing tenant s.token _ fresh)
            (has_own_token s own) in
      let row = get-row s.token s later calm stands in
      ap (λ x. x.0) row
      ∙ checked s _ _ active
      ∙ ap (λ e. if ltb e (env.now (suc later.calls)) then err session_expired else ok s) expires

  -- Where the database does not fail, the revocation of a session's token answers without an error,
  -- and from then on the token is refused as revoked at any time by a database that has the
  -- sessions that the revocation left.
  pub revoke_by_token-get_by_token :
      (token : String) (s : Session) (w later : World)
      → IsCalm env
      → find (Sessions.has_token tenant token) w.db.sessions ≡ some s
      → later.db.sessions ≡ (Sessions.revoke_by_token tenant token w).1.db.sessions
      → ((Sessions.revoke_by_token tenant token w).0 ≡ ok tt)
        × ((Sessions.get_by_token tenant token later).0 ≡ err session_revoked)
  revoke_by_token-get_by_token token s w later calm h same =
      let row =
        ap (find (Sessions.has_token tenant token))
          (same ∙ ap (λ x. x.1.db.sessions) (revoked token w calm s h))
        ∙ find-update (Sessions.has_token tenant token) Sessions.deactivate
            (has_token-deactivate tenant token) w.db.sessions
        ∙ ap (Option.map Sessions.deactivate) h in
      (
        ap (λ x. x.0) (revoked token w calm s h),
        ap (λ x. x.0) (get-row token (Sessions.deactivate s) later calm row) ∙ inactive s _ _,
      )
