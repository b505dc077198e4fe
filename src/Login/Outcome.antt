-- ===== src/Login/Outcome.antt =====
-- What a successful login submission says of the flow, the policy, the credential and the
-- authenticator, for authenticators that write nothing.
use enterprise_kratos.Base.{
  Uuid, String, Bool, true, false, some, List, ◌≡◌, refl, arith, if◌then◌else◌,
}
use enterprise_kratos.Flow.{Flow, UiNode, success, pending}
use enterprise_kratos.Policy.{FlowPolicy}
use enterprise_kratos.Identity.{Credential}
use enterprise_kratos.Errors.{Error}
use enterprise_kratos.External.{External}
use enterprise_kratos.Store.{
  Env, World, Result, ok, M, effects, attempt, attempted, continue, err, panic, ◌>>=◌,
}
use enterprise_kratos.Engine.{parse_session_ttl}
use enterprise_kratos.Store.Flows
use enterprise_kratos.Store.Outcome.{>>=-eq-ok}
use enterprise_kratos.Authenticator.{AuthResult}
use enterprise_kratos.Authenticator.Registry.{Registry}
use enterprise_kratos.Login

-- A lookup whose failure is an error of the engine.
credential_case :
    (unknown : Error) (k : Credential → M Login.SubmitResult) (x : Result Credential) (w : World)
    {r : Login.SubmitResult}
    → (continue (λ y. Login.credential_or unknown y >>= k) (attempted x) w).0 ≡ ok r
    → (c : Credential) × (x ≡ ok c)
      × ((k c w).0 ≡ ok r)
      × (continue (λ y. Login.credential_or unknown y >>= k) (attempted x) w ≡ k c w)
unfolding Login.credential_or effects
credential_case unknown k (ok c) w h = (c, refl, h, refl)
credential_case unknown k (err e) w h = absurd (ground arith)
credential_case unknown k panic w h = cc

pub credential_or-eq-ok :
    (m : M Credential) (unknown : Error) (k : Credential → M Login.SubmitResult) (w : World)
    {r : Login.SubmitResult}
    → ((attempt m >>= λ x. Login.credential_or unknown x >>= k) w).0 ≡ ok r
    → (c : Credential) × ((m w).0 ≡ ok c)
      × ((k c (m w).1).0 ≡ ok r)
      × ((attempt m >>= λ x. Login.credential_or unknown x >>= k) w ≡ k c (m w).1)
unfolding effects
credential_or-eq-ok m unknown k w h = credential_case unknown k (m w).0 (m w).1 h

module _ ⦃env : Env⦄ where
  accepted_case :
      (f : Flow) (text : String) (k : AuthResult → M Login.SubmitResult) (x : Result AuthResult)
      (w : World) {r : Login.SubmitResult}
      → (continue (λ y. Login.accepted f text y >>= k) (attempted x) w).0 ≡ ok r
      → (a : AuthResult) × (x ≡ ok a)
        × ((k a w).0 ≡ ok r)
        × (continue (λ y. Login.accepted f text y >>= k) (attempted x) w ≡ k a w)
  unfolding Login.accepted effects
  accepted_case f text k (ok a) w h = (a, refl, h, refl)
  accepted_case f text k (err e) w h = absurd (ground arith)
  accepted_case f text k panic w h = cc

  pub accepted-eq-ok :
      (f : Flow) (text : String) (m : M AuthResult) (k : AuthResult → M Login.SubmitResult)
      (w : World) {r : Login.SubmitResult}
      → ((attempt m >>= λ x. Login.accepted f text x >>= k) w).0 ≡ ok r
      → (a : AuthResult) × ((m w).0 ≡ ok a)
        × ((k a (m w).1).0 ≡ ok r)
        × ((attempt m >>= λ x. Login.accepted f text x >>= k) w ≡ k a (m w).1)
  unfolding effects
  accepted-eq-ok f text m k w h = accepted_case f text k (m w).0 (m w).1 h

module _ ⦃env : Env⦄ (ext : External) (reg : Registry) where
  pub complete-eq-ok :
      (f : Flow) (pol : FlowPolicy) (identity : Uuid) (aal : String) (amr : List String) (w : World)
      {r : Login.SubmitResult}
      → (Login.complete ext reg f pol identity aal amr w).0 ≡ ok r
      → (r.completed ≡ true)
        × (r.identity_id ≡ identity)
        × (r.aal ≡ aal)
        × (r.amr ≡ amr)
        × (r.session_ttl ≡ parse_session_ttl ext pol)
        × ((Login.complete ext reg f pol identity aal amr w).1.db
            ≡ Flows.with_update f.tenant_id f.id
                (Flows.set_columns success (some identity) (Login.completed_ui f.ui aal amr))
                w.db)
  unfolding Login.complete Flows.update Flows.affected effects
  complete-eq-ok f pol identity aal amr w h = ground arith

  pub announced-eq-ok :
      (f : Flow) (identity : Uuid) (amr : List String) (nodes : List UiNode) (states : Login.States)
      (w : World) {r : Login.SubmitResult}
      → (Login.announced ext reg f identity amr nodes states w).0 ≡ ok r
      → (r.completed ≡ false)
        × ((Login.announced ext reg f identity amr nodes states w).1.db
            ≡ Flows.with_update f.tenant_id f.id
                (Flows.set_columns pending
                  (some identity)
                  (Login.second_factor_ui f.ui nodes states amr))
                w.db)
  unfolding Login.announced Flows.update Flows.affected effects
  announced-eq-ok f identity amr nodes states w h = ground arith

  advance-ne-completed :
      (f : Flow) (pol : FlowPolicy) (identity : Uuid) (amr : List String) (w : World)
      {r : Login.SubmitResult}
      → (Login.advance_to_second_factor ext reg f pol identity amr w).0 ≡ ok r
      → r.completed ≡ false
  unfolding Login.advance_to_second_factor
  advance-ne-completed f pol identity amr w h =
      let ((nodes, states), begun, rest, same) = >>=-eq-ok _ _ w h in
      (announced-eq-ok f identity amr nodes states _ rest).0

  -- An accepted first factor completes the login only where no second one is needed.
  choice-completed :
      (needed : Bool) (f : Flow) (pol : FlowPolicy) (identity : Uuid) (amr : List String)
      (w : World) {r : Login.SubmitResult}
      → let choice =
          if needed
          then Login.advance_to_second_factor ext reg f pol identity amr
          else Login.complete ext reg f pol identity "aal1" amr in
        (choice w).0 ≡ ok r
        → r.completed ≡ true
        → (needed ≡ false) × (choice w ≡ Login.complete ext reg f pol identity "aal1" amr w)
  choice-completed true f pol identity amr w h c =
      let n = advance-ne-completed f pol identity amr w h in cc
  choice-completed false f pol identity amr w h c = (refl, refl)

  pub first_factor_accepted-completed :
      (f : Flow) (pol : FlowPolicy) (identity : Uuid) (amr : List String) (w : World)
      {r : Login.SubmitResult}
      → (Login.first_factor_accepted ext reg f pol identity amr w).0 ≡ ok r
      → r.completed ≡ true
      → (Login.needs_second_factor pol ≡ false)
        × (Login.first_factor_accepted ext reg f pol identity amr w
            ≡ Login.complete ext reg f pol identity "aal1" amr w)
  unfolding Login.first_factor_accepted
  first_factor_accepted-completed f pol identity amr w h c =
      choice-completed (Login.needs_second_factor pol) f pol identity amr w h c
