-- ===== src/Recovery/Link.antt =====
-- What a used recovery link rests on.
use enterprise_kratos.Base.{
  ℕ, suc, ◌+◌, Uuid, String, Bool, true, false, not, [], ◌∷◌, some, ◌≡◌, refl, sym, subst, ap, ◌∙◌,
  arith, find, any, str_eq, eq_iff, if◌then◌else◌,
}
use enterprise_kratos.Flow.{Flow, UiInternal, recovery, is_pending, same_type}
use enterprise_kratos.Identity.{Session, state_active}
use enterprise_kratos.External.{External}
use enterprise_kratos.Store.{Tables, Env, World, ok, M, done, ignore, effects, ◌>>=◌, ◌>>◌}
use enterprise_kratos.Store.Flows
use enterprise_kratos.Store.Sessions
use enterprise_kratos.Store.Identities
use enterprise_kratos.Store.Lookup.{get-Got}
use enterprise_kratos.Store.Sessions.Laws.{created}
use enterprise_kratos.Store.Outcome.{>>=-eq-ok, >>-eq-ok, update_identity_state-eq-ok}
use enterprise_kratos.Engine.Outcome.{require_pending-eq-ok, require-eq-ok, some_or-eq-ok}
use enterprise_kratos.Recovery

-- A session of the identity, issued at some point of the clock, for the recovery's time to live.
pub record Issued (clock : ℕ → ℕ) (identity : Uuid) (s : Session) : Type 0 where
  pub for_identity : s.identity_id ≡ identity
  pub issued : ℕ
  pub expires : s.expires_at ≡ clock issued + Recovery.recovery_session_ttl
  pub aal : s.aal ≡ "aal1"
  pub amr : s.amr ≡ "recovery" ∷ []

-- A recovered account: the session that is answered, and what it rests on.
pub record Recovered (clock : ℕ → ℕ) (ext : External) (tenant id : Uuid) (token : String)
    (db : Tables) (s : Session) (identity : Uuid) : Type 0 where
  pub f : Flow
  pub internal : UiInternal
  pub stands : find (Flows.is_flow tenant id) db.flows ≡ some f
  pub waiting : is_pending f.state ≡ true
  pub kind : same_type f.kind recovery ≡ true
  pub sent : f.ui.internal ≡ some internal
  pub phase : Recovery.is_pending_link internal ≡ true
  pub matches : token ≡ internal.recovery_token
  pub not_empty : not (str_eq internal.recovery_token "") ≡ true
  pub names : ext.parse_uuid internal.recovery_identity_id ≡ some identity
  pub known : any (Identities.is_identity tenant identity) db.identities ≡ true
  pub session : Issued clock identity s

module _ ⦃env : Env⦄ (ext : External) where
  rejected {ℓ} :
      {A B : Type ℓ} (tenant id : Uuid) (k : A → M B) (w : World) (b : B)
      → ((Recovery.reject_token ext tenant id >>= k) w).0 ≡ ok b
      → ⊥
  unfolding Recovery.reject_token Flows.update_state effects
  rejected tenant id k w b h = ground arith

  named_case :
      (unnamed : Bool) (tenant id : Uuid) (k : M (Session × Uuid)) (w : World) {r : Session × Uuid}
      → let checked = if unnamed then Recovery.reject_token ext tenant id else done tt in
        ((checked >> k) w).0 ≡ ok r → ((k w).0 ≡ ok r) × ((checked >> k) w ≡ k w)
  unfolding done ◌>>◌ ◌>>=◌
  named_case true tenant id k w h = absurd (rejected tenant id (λ _. k) w _ h)
  named_case false tenant id k w h = (h, refl)

  token_case :
      (same unnamed : Bool) (tenant id : Uuid) (k : M (Session × Uuid)) (w : World)
      {r : Session × Uuid}
      → let checked =
          if same
          then (if unnamed then Recovery.reject_token ext tenant id else done tt)
          else Recovery.reject_token ext tenant id in
        ((checked >> k) w).0 ≡ ok r → (same ≡ true) × ((k w).0 ≡ ok r) × ((checked >> k) w ≡ k w)
  unfolding ◌>>◌
  token_case true unnamed tenant id k w h =
      let named = named_case unnamed tenant id k w h in (refl, named.0, named.1)
  token_case false unnamed tenant id k w h = absurd (rejected tenant id (λ _. k) w _ h)

  token-eq-ok :
      (tenant id : Uuid) (token : String) (i : UiInternal) (k : M (Session × Uuid)) (w : World)
      {r : Session × Uuid}
      → ((Recovery.check_token ext tenant id token i >> k) w).0 ≡ ok r
      → (token ≡ i.recovery_token)
        × ((k w).0 ≡ ok r)
        × ((Recovery.check_token ext tenant id token i >> k) w ≡ k w)
  unfolding Recovery.check_token
  token-eq-ok tenant id token i k w h =
      let t =
        token_case (str_eq token i.recovery_token) (str_eq i.recovery_identity_id "") tenant id k w
          h in
      ((eq_iff token i.recovery_token).0 t.0, t.1, t.2)

  abbrev answer : Session → Uuid → M (Session × Uuid)
  answer s identity = done (s, identity)

  answer-eq-ok :
      (s : Session) (identity : Uuid) (w : World) (r : Session × Uuid)
      → (done (s, identity) w).0 ≡ ok r
      → (s ≡ r.0) × (identity ≡ r.1)
  unfolding done
  answer-eq-ok s identity w (t, i) h = (cc, cc)

  -- From the identity's activation on.
  issued-eq-ok :
      (tenant i : Uuid) (m : M (Unit {0})) (v : World) (s : Session) (identity : Uuid)
      → ((Identities.update_identity_state tenant i state_active
            >> (Sessions.create tenant i "aal1" ("recovery" ∷ []) Recovery.recovery_session_ttl
                >>= λ t. ignore m >> answer t i))
          v).0
        ≡ ok (s, identity)
      → (i ≡ identity)
        × (any (Identities.is_identity tenant i) v.db.identities ≡ true)
        × (Issued env.now i s)
  issued-eq-ok tenant i m v s identity h =
      let (_, updated, h1, e1) = >>-eq-ok _ _ v h in
      let (_, known) = update_identity_state-eq-ok tenant v i state_active updated in
      let v' = (Identities.update_identity_state tenant i state_active v).1 in
      let (t, opened, h2, e2) = >>=-eq-ok _ _ v' h1 in
      let (_, for_identity, aal, amr, _, expires, _, _) = created tenant i _ _ _ v' t opened in
      let (_, _, h3, e3) = >>-eq-ok _ _ _ h2 in
      let (same_s, same_i) = answer-eq-ok t i _ (s, identity) h3 in
      (
        same_i,
        known,
        subst (Issued env.now i) same_s (record {
          for_identity = for_identity;
          issued = suc v'.calls;
          expires = expires;
          aal = aal;
          amr = amr;
        }),
      )

  -- A recovery link that answers a session, in any environment, was used on a pending recovery flow
  -- in the phase of the link, with the token stored in it, which is not empty; the flow names an
  -- identity that exists, and the session is that identity's, at the level aal1, for 15 minutes.
  pub use_token-Recovered :
      (tenant id : Uuid) (token : String) (w : World) (s : Session) (identity : Uuid)
      → (Recovery.use_token ext tenant id token w).0 ≡ ok (s, identity)
      → Recovered env.now ext tenant id token w.db s identity
  unfolding Recovery.use_token
  use_token-Recovered tenant id token w s identity h =
      let (f, read, h1, e1) = >>=-eq-ok _ _ w h in
      let got = get-Got tenant id w f read in
      let v = (Flows.get tenant id w).1 in
      let (waiting, h2, e2) = require_pending-eq-ok v f _ h1 in
      let (kind, h3, e3) = require-eq-ok v _ _ _ h2 in
      let (internal, sent, h4, e4) = some_or-eq-ok v _ _ _ h3 in
      let (phase, h5, e5) = require-eq-ok v _ _ _ h4 in
      let (not_empty, h6, e6) = require-eq-ok v _ _ _ h5 in
      let (matches, h7, e7) = token-eq-ok tenant id token internal _ v h6 in
      let (i, names, h8, e8) = some_or-eq-ok v _ _ _ h7 in
      let (same, known, session) = issued-eq-ok tenant i _ v s identity h8 in
      record {
        f = f;
        internal = internal;
        stands = got.stands;
        waiting = waiting;
        kind = kind;
        sent = sent;
        phase = phase;
        matches = matches;
        not_empty = not_empty;
        names = names ∙ ap some same;
        known =
            ap (λ db. any (Identities.is_identity tenant identity) db.identities)
              (sym got.unwritten)
            ∙ ap (λ j. any (Identities.is_identity tenant j) v.db.identities) (sym same)
            ∙ known;
        session = subst (λ j. Issued env.now j s) same session;
      }
