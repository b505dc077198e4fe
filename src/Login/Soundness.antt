-- ===== src/Login/Soundness.antt =====
-- The whole of `SubmitFlow`: what a completed login rests on.
use enterprise_kratos.Base.{
  ℕ, ◌≤◌, List, Uuid, String, Bool, true, false, some, ◌⊎◌, inl, inr, ◌≡◌, refl, ◌∙◌, subst, sym,
  ap, find, str_eq, ltb, suc, eq_iff, if◌then◌else◌, arith, ◌&&◌,
}
use enterprise_kratos.Flow.{Flow, is_pending}
use enterprise_kratos.Policy.{FlowPolicy}
use enterprise_kratos.Errors.{unknown_phase}
use enterprise_kratos.External.{External}
use enterprise_kratos.Store.{Tables, Env, World, ok, fail}
use enterprise_kratos.Engine.{parse_session_ttl}
use enterprise_kratos.Store.Frame.{Unwritten}
use enterprise_kratos.Store.Flows
use enterprise_kratos.Store.Policies
use enterprise_kratos.Store.Lookup.{get-Got}
use enterprise_kratos.Store.Outcome.{>>=-eq-ok, policies-get-eq-ok}
use enterprise_kratos.Authenticator.Registry.{Registry}
use enterprise_kratos.Authenticator.Keeping.{EachKeeps}
use enterprise_kratos.Engine.Outcome.{require_pending-eq-ok}
use enterprise_kratos.Login.Completion.{
  ByFirstFactor, BySecondFactor, LeftSuccessful, submit_first_factor-completed,
  submit_second_factor-completed,
}
use enterprise_kratos.Login

-- The factor that the flow's phase asks for.
abbrev pub ByFactor :
    Registry
    → Tables
    → Flow
    → FlowPolicy
    → String
    → List (String × String)
    → Login.SubmitResult
    → Type 0
ByFactor reg db f pol method values r =
    ((Login.phase_of f.ui.internal ≡ "first_factor") × ByFirstFactor reg db f pol method values r)
    ⊎ ((Login.phase_of f.ui.internal ≡ "second_factor")
        × BySecondFactor reg db f pol method values r)

-- A login that was completed by a submission to a flow.
pub record Sound (now : ℕ) (reg : Registry) (ext : External) (tenant id : Uuid) (method : String)
    (values : List (String × String)) (db after : Tables) (r : Login.SubmitResult) : Type 0 where
  pub f : Flow
  pub stands : find (Flows.is_flow tenant id) db.flows ≡ some f
  pub waiting : is_pending f.state ≡ true
  pub in_time : now ≤ f.expires_at
  pub factor :
      ByFactor reg db f
        (Policies.or_default (Policies.policy_of tenant db.policies))
        method
        values
        r
  pub ttl :
      r.session_ttl
      ≡ parse_session_ttl ext (Policies.or_default (Policies.policy_of tenant db.policies))
  pub left : LeftSuccessful f db after r

moved :
    (f : Flow) {r : Login.SubmitResult} {db db' after after' : Tables}
    → after ≡ after'
    → db ≡ db'
    → LeftSuccessful f db after r
    → LeftSuccessful f db' after' r
moved f {r} {db'} {after} p q h =
    subst (λ x. LeftSuccessful f db' x r) p (subst (λ x. LeftSuccessful f x after r) q h)

in_time_of :
    (f : Flow) (now : ℕ)
    → is_pending f.state ≡ true
    → (is_pending f.state && ltb f.expires_at now) ≡ false
    → now ≤ f.expires_at
in_time_of f now h k = ground arith

module _ ⦃env : Env⦄ (ext : External) (reg : Registry) (each : EachKeeps Unwritten reg) where
  phase_case :
      (first second : Bool) (f : Flow) (pol : FlowPolicy) (method : String)
      (values : List (String × String)) (w : World) {r : Login.SubmitResult}
      → let phase = Login.phase_of f.ui.internal in
        let answer =
          if first
          then Login.submit_first_factor ext reg f pol method values
          else if second
          then Login.submit_second_factor ext reg f pol method values
          else fail (unknown_phase phase) in
        str_eq phase "first_factor" ≡ first
        → str_eq phase "second_factor" ≡ second
        → (answer w).0 ≡ ok r
        → r.completed ≡ true
        → ByFactor reg w.db f pol method values r
          × (r.session_ttl ≡ parse_session_ttl ext pol)
          × LeftSuccessful f w.db (answer w).1.db r
  unfolding fail
  phase_case true second f pol method values w e1 e2 h c =
      let factor = submit_first_factor-completed ext reg each f pol method values w h c in
      (inl ((eq_iff _ "first_factor").0 e1, factor.0), factor.1, factor.2)
  phase_case false true f pol method values w e1 e2 h c =
      let factor = submit_second_factor-completed ext reg each f pol method values w h in
      (inr ((eq_iff _ "second_factor").0 e2, factor.0), factor.1, factor.2)
  phase_case false false f pol method values w e1 e2 h c = cc

  submit_in_phase-completed :
      (f : Flow) (pol : FlowPolicy) (method : String) (values : List (String × String)) (w : World)
      {r : Login.SubmitResult}
      → let answer =
          Login.submit_in_phase ext reg (Login.phase_of f.ui.internal) f pol method values in
        (answer w).0 ≡ ok r
        → r.completed ≡ true
        → ByFactor reg w.db f pol method values r
          × (r.session_ttl ≡ parse_session_ttl ext pol)
          × LeftSuccessful f w.db (answer w).1.db r
  unfolding Login.submit_in_phase
  submit_in_phase-completed f pol method values w h c =
      phase_case _ _ f pol method values w refl refl h c

  -- A submission that completes a login was made to a pending flow of the tenant that had not
  -- expired when it was read, and the policy stored for the tenant, or the default one, was in
  -- force. In the first phase, the method is an allowed first factor, the tenant has a credential
  -- of that method with the submitted identifier, whose identity is logged in, the registered
  -- authenticator accepted the submitted values for it, and no second factor is needed; the level
  -- is aal1. In the second phase, the method is an allowed second factor, the identity is the one
  -- that the flow remembers, it has a credential of that method, and the authenticator accepted;
  -- the level is aal2. The session's lifetime is the policy's, and nothing but the flow, which is
  -- now successful for that identity, has changed. The authenticators write nothing themselves.
  pub submit_flow-Sound :
      (tenant id : Uuid) (method : String) (values : List (String × String)) (w : World)
      (r : Login.SubmitResult)
      → (Login.submit_flow ext reg tenant id method values w).0 ≡ ok r
      → r.completed ≡ true
      → Sound
          (env.now (suc w.calls))
          reg
          ext
          tenant
          id
          method
          values
          w.db
          (Login.submit_flow ext reg tenant id method values w).1.db
          r
  unfolding Login.submit_flow
  submit_flow-Sound tenant id method values w r h c =
      let (f, read, h1, e1) = >>=-eq-ok _ _ w h in
      let got = get-Got tenant id w f read in
      let v = (Flows.get tenant id w).1 in
      let (waiting, h2, e2) = require_pending-eq-ok v f _ h1 in
      let (pol, asked, h3, e3) = >>=-eq-ok _ _ v h2 in
      let (same_policy, same1) = policies-get-eq-ok tenant v asked in
      let v' = (Policies.get tenant v).1 in
      let (factor, ttl, left) = submit_in_phase-completed f pol method values v' h3 c in
      let same = same1 ∙ got.unwritten in
      let policy =
        same_policy
        ∙ ap (λ db. Policies.or_default (Policies.policy_of tenant db.policies)) got.unwritten in
      record {
        f = f;
        stands = got.stands;
        waiting = waiting;
        in_time = in_time_of f _ waiting got.alive;
        factor =
            subst (λ p. ByFactor reg w.db f p method values r) policy
              (subst (λ db. ByFactor reg db f pol method values r) same factor);
        ttl = ttl ∙ ap (parse_session_ttl ext) policy;
        left = moved f (sym (ap (λ x. x.1.db) (e1 ∙ e2 ∙ e3))) same left;
      }
