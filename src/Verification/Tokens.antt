-- ===== src/Verification/Tokens.antt =====
-- What a token does in a verification flow: the right one activates the identity, a wrong one fails
-- the flow, and the token that `InitFlow` returns is the right one.
use enterprise_kratos.Base.{
  suc, ◌≤◌, Uuid, String, Bool, true, false, not, some, ◌≡◌, refl, sym, ap, ◌∙◌, arith, find, any,
  str_eq, eq_iff, if◌then◌else◌,
}
use enterprise_kratos.Flow.{Flow, success, failed, verification, is_pending, same_type}
use enterprise_kratos.Identity.{state_active}
use enterprise_kratos.Errors.{invalid_token}
use enterprise_kratos.Store.{
  Tables, Env, World, ok, err, M, done, fail, ignore, effects, ◌>>=◌, ◌>>◌,
}
use enterprise_kratos.Store.Flows
use enterprise_kratos.Store.Identities
use enterprise_kratos.Store.Lookup.{get-Got}
use enterprise_kratos.Store.Calm.{IsCalm, after_call, >>=-of, flows-get-of}
use enterprise_kratos.Store.Outcome.{
  >>=-eq-ok, >>-eq-ok, flows-update-eq-ok, update_identity_state-eq-ok,
}
use enterprise_kratos.Engine.Outcome.{
  require_pending-eq-ok, require-eq-ok, some_or-eq-ok, require_pending-of, require-of, some_or-of,
}
use enterprise_kratos.Verification

-- A submission that verified an identity: of a pending verification flow for it, with the flow's
-- token, and with just these writes.
pub record Verified (tenant id : Uuid) (token : String) (db after : Tables) : Type 0 where
  pub f : Flow
  pub identity : Uuid
  pub stands : find (Flows.is_flow tenant id) db.flows ≡ some f
  pub waiting : is_pending f.state ≡ true
  pub kind : same_type f.kind verification ≡ true
  pub for_identity : f.identity_id ≡ some identity
  pub known : any (Identities.is_identity tenant identity) db.identities ≡ true
  pub matches : Verification.stored_token f.ui.internal ≡ token
  pub not_empty : str_eq token "" ≡ false
  pub left :
      after
      ≡ Flows.with_update tenant id
          (Flows.set_columns success (some identity) (Verification.complete_ui f.ui))
          (Identities.with_identity_update tenant identity
            (Identities.set_identity_state state_active)
            db)

not_of : (b : Bool) → not b ≡ true → b ≡ false
not_of true h = sym h
not_of false h = refl

module _ ⦃env : Env⦄ where
  failing :
      (tenant id : Uuid) (k : M (Unit {0})) (w : World) (u : Unit {0})
      → (((ignore (Flows.update_state tenant id failed) >> fail invalid_token) >> k) w).0 ≡ ok u
      → ⊥
  unfolding Flows.update_state effects
  failing tenant id k w u h = ground arith

  token_case :
      (b : Bool) (tenant id : Uuid) (k : M (Unit {0})) (w : World) {u : Unit {0}}
      → let checked =
          if b
          then done tt
          else (ignore (Flows.update_state tenant id failed) >> fail invalid_token) in
        ((checked >> k) w).0 ≡ ok u → (b ≡ true) × ((k w).0 ≡ ok u) × ((checked >> k) w ≡ k w)
  unfolding done ◌>>◌ ◌>>=◌
  token_case true tenant id k w h = (refl, h, refl)
  token_case false tenant id k w h = absurd (failing tenant id k w _ h)

  token-eq-ok :
      (tenant id : Uuid) (token stored : String) (k : M (Unit {0})) (w : World) {u : Unit {0}}
      → ((Verification.check_token tenant id token stored >> k) w).0 ≡ ok u
      → (token ≡ stored)
        × ((k w).0 ≡ ok u)
        × ((Verification.check_token tenant id token stored >> k) w ≡ k w)
  unfolding Verification.check_token
  token-eq-ok tenant id token stored k w h =
      let (same, h1, e1) = token_case (str_eq token stored) tenant id k w h in
      ((eq_iff token stored).0 same, h1, e1)

  -- A submission that answers without an error, in any environment, was made to a pending
  -- verification flow with the token stored in it, which is not empty; the flow's identity exists
  -- and is now active, the flow is successful, and nothing else has changed.
  pub submit_flow-Verified :
      (tenant id : Uuid) (token : String) (w : World)
      → (Verification.submit_flow tenant id token w).0 ≡ ok tt
      → Verified tenant id token w.db (Verification.submit_flow tenant id token w).1.db
  unfolding Verification.submit_flow
  submit_flow-Verified tenant id token w h =
      let (f, read, h1, e1) = >>=-eq-ok _ _ w h in
      let got = get-Got tenant id w f read in
      let v = (Flows.get tenant id w).1 in
      let (waiting, h2, e2) = require_pending-eq-ok v f _ h1 in
      let (kind, h3, e3) = require-eq-ok v _ _ _ h2 in
      let (identity, for_identity, h4, e4) = some_or-eq-ok v _ _ _ h3 in
      let (has_one, h5, e5) = require-eq-ok v _ _ _ h4 in
      let (matches, h6, e6) = token-eq-ok tenant id token _ _ v h5 in
      let (_, updated, h7, e7) = >>-eq-ok _ _ v h6 in
      let (identities, known) =
        update_identity_state-eq-ok tenant v identity state_active updated in
      let left =
        flows-update-eq-ok tenant _ id success (some identity) (Verification.complete_ui f.ui) h7 in
      let first = ap (λ x. x.1.db) (e1 ∙ e2 ∙ e3 ∙ e4 ∙ e5 ∙ e6 ∙ e7) in
      record {
        f = f;
        identity = identity;
        stands = got.stands;
        waiting = waiting;
        kind = kind;
        for_identity = for_identity;
        known =
            ap (λ db. any (Identities.is_identity tenant identity) db.identities)
              (sym got.unwritten)
            ∙ known;
        matches = sym matches;
        not_empty = ap (λ t. str_eq t "") matches ∙ not_of _ has_one;
        left =
            first
            ∙ left
            ∙ ap
                (Flows.with_update tenant id
                  (Flows.set_columns success (some identity) (Verification.complete_ui f.ui)))
                (identities
                  ∙ ap
                      (Identities.with_identity_update tenant identity
                        (Identities.set_identity_state state_active))
                      got.unwritten);
      }

  rejecting :
      (tenant id : Uuid) (token stored : String) (k : M (Unit {0})) (w : World)
      → IsCalm env
      → str_eq token stored ≡ false
      → (Verification.check_token tenant id token stored >> k) w ≡ (
        err invalid_token,
        after_call (Flows.with_update tenant id (Flows.set_state failed) w.db) w,
      )
  unfolding Verification.check_token Flows.update_state effects
  rejecting tenant id token stored k w calm h = ground (arith, calm w.calls)

  -- A wrong token, where the database does not fail, for a pending verification flow that has not
  -- expired, has an identity and stores a token: the answer is the error of the token, and the flow
  -- has failed. No identity has changed.
  pub submit_flow-wrong_token :
      (tenant id identity : Uuid) (token : String) (f : Flow) (w : World)
      → IsCalm env
      → find (Flows.is_flow tenant id) w.db.flows ≡ some f
      → is_pending f.state ≡ true
      → env.now (suc w.calls) ≤ f.expires_at
      → same_type f.kind verification ≡ true
      → f.identity_id ≡ some identity
      → str_eq (Verification.stored_token f.ui.internal) "" ≡ false
      → str_eq token (Verification.stored_token f.ui.internal) ≡ false
      → ((Verification.submit_flow tenant id token w).0 ≡ err invalid_token)
        × ((Verification.submit_flow tenant id token w).1.db
            ≡ Flows.with_update tenant id (Flows.set_state failed) w.db)
  unfolding Verification.submit_flow
  submit_flow-wrong_token tenant id identity token f w calm stands waiting in_time kind known stored
        wrong =
      let v = after_call w.db w in
      let whole =
        >>=-of (Flows.get tenant id) _ (flows-get-of tenant w calm id f stands waiting in_time)
        ∙ require_pending-of v f _ waiting
        ∙ require-of v _ _ _ kind
        ∙ some_or-of v _ _ identity _ known
        ∙ require-of v _ _ _ (ap not stored)
        ∙ rejecting tenant id token _ _ v calm wrong in
      (ap (λ x. x.0) whole, ap (λ x. x.1.db) whole)
