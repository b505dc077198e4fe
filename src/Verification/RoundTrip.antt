-- ===== src/Verification/RoundTrip.antt =====
-- The token that `InitFlow` returns verifies the identity.
use enterprise_kratos.Base.{
  ℕ, suc, ◌+◌, ◌≤◌, Uuid, String, Bool, true, false, not, some, none, List, [], ◌∷◌, ◌++◌, ◌≡◌,
  refl, sym, subst, ap, ◌∙◌, arith, find, find-insert, find-update, any, update as update_rows,
  any_of_find, str_eq, eq_refl, hour, ◌&&◌, ◌==◌, ==_refl,
}
use mathlib.Core.Option
use enterprise_kratos.Flow.{Flow, FlowType, Ui, pending, success, verification}
use enterprise_kratos.Identity.{state_active}
use enterprise_kratos.Store.{
  Env, World, ok, M, done, effects, generate_token, drawn, time_now, ◌>>=◌,
}
use enterprise_kratos.Store.Flows
use enterprise_kratos.Store.Identities
use enterprise_kratos.Store.Calm.{
  IsCalm, after_call, >>=-of, >>-of, flows-get-of, flows-update-of, update_identity_state-of,
}
use enterprise_kratos.Store.Outcome.{>>=-eq-ok, >>-eq-ok, flows-update-eq-ok}
use enterprise_kratos.Engine.Outcome.{require_pending-of, require-of, some_or-of}
use enterprise_kratos.Verification

find-free : (p : Flow → Bool) (rows : List Flow) → any p rows ≡ false → find p rows ≡ none
find-free p [] h = refl
find-free p (f ∷ rows) h = ground (arith, find-free p rows)

subst2 : (P : Uuid → String → Type 0) {a b : Uuid} {s t : String} → a ≡ b → s ≡ t → P a s → P b t
subst2 P {a} {b} {s} p q h = subst (P b) q (subst (λ x. P x s) p h)

module _ ⦃env : Env⦄ where
  create-eq-ok :
      (tenant : Uuid) (kind : FlowType) (ui : Ui) (expires_at : ℕ) (w : World) {f : Flow}
      → (Flows.create tenant kind ui expires_at w).0 ≡ ok f
      → (f ≡ Flows.new_flow f.id tenant kind ui expires_at)
        × (any (Flows.is_flow tenant f.id) w.db.flows ≡ false)
        × ((Flows.create tenant kind ui expires_at w).1.db
            ≡ record (w.db) { flows = w.db.flows ++ f ∷ [] })
  unfolding Flows.create effects
  create-eq-ok tenant kind ui expires_at w h = ground arith

  token-eq-ok :
      (w : World) {token : String}
      → (generate_token w).0 ≡ ok token
      → (generate_token w).1 ≡ after_call w.db w
  unfolding effects drawn
  token-eq-ok w h = ground arith

  -- The row of a started flow.
  abbrev row : Uuid → Uuid → Uuid → String → ℕ → Flow
  row tenant id identity token expires_at =
      record (Flows.new_flow id tenant verification (Verification.verify_ui token) expires_at) {
        identity_id = some identity;
      }

  started-of :
      (tenant id identity : Uuid) (token : String) (expires_at : ℕ) (rows : List Flow)
      → any (Flows.is_flow tenant id) rows ≡ false
      → find (Flows.is_flow tenant id) (
          update_rows
            (Flows.is_flow tenant id)
            (Flows.set_columns pending (some identity) (Verification.verify_ui token))
            (rows
              ++ Flows.new_flow id tenant verification (Verification.verify_ui token) expires_at
                ∷ []))
        ≡ some (row tenant id identity token expires_at)
  started-of tenant id identity token expires_at rows free =
      let new = Flows.new_flow id tenant verification (Verification.verify_ui token) expires_at in
      let p = Flows.is_flow tenant id in
      find-update p (Flows.set_columns pending (some identity) (Verification.verify_ui token))
        (λ x. refl) (rows ++ new ∷ [])
      ∙ ap (Option.map (Flows.set_columns pending (some identity) (Verification.verify_ui token)))
          (find-insert p new rows (find-free p rows free) (own_key tenant id))
    where
      own_key : (t i : Uuid) → (t == t && i == i) ≡ true
      own_key t i = ground (arith, ==_refl t, ==_refl i)

  matching : (t i : Uuid) (s : String) (w : World) → Verification.check_token t i s s w ≡ (ok tt, w)
  unfolding Verification.check_token effects
  matching t i s w = ground (arith, eq_refl s)

  submits :
      (tenant id identity : Uuid) (token : String) (expires_at : ℕ) (later : World)
      → IsCalm env
      → find (Flows.is_flow tenant id) later.db.flows
        ≡ some (row tenant id identity token expires_at)
      → any (Identities.is_identity tenant identity) later.db.identities ≡ true
      → str_eq token "" ≡ false
      → env.now (suc later.calls) ≤ expires_at
      → (Verification.submit_flow tenant id token later).0 ≡ ok tt
  unfolding Verification.submit_flow
  submits tenant id identity token expires_at later calm stands known not_empty in_time =
      let f = row tenant id identity token expires_at in
      let v = after_call later.db later in
      let activated = update_identity_state-of tenant v calm identity state_active known in
      let v' =
        after_call
          (Identities.with_identity_update tenant identity
            (Identities.set_identity_state state_active) later.db)
          v in
      let hit = any_of_find (Flows.is_flow tenant id) later.db.flows f stands in
      ap (λ x. x.0)
        (>>=-of (Flows.get tenant id) _ (flows-get-of tenant later calm id f stands refl in_time)
          ∙ require_pending-of v f _ refl
          ∙ require-of v _ _ _ refl
          ∙ some_or-of v _ _ identity _ refl
          ∙ require-of v _ _ _ (ap not not_empty)
          ∙ >>-of _ _ (matching tenant id token v)
          ∙ >>-of _ _ activated
          ∙ flows-update-of tenant v' calm id success (some identity) _ hit)

  time_now-of {ℓ} :
      {A : Type ℓ} (k : ℕ → M A) (w : World) → (time_now >>= k) w ≡ k (env.now w.calls) w
  unfolding effects
  time_now-of k w = refl

  abbrev answer : Flow → Uuid → String → M (Flow × String)
  answer f identity token = done (record f { identity_id = some identity }, token)

  answer-eq-ok :
      (f0 : Flow) (identity : Uuid) (t : String) (w : World) (f : Flow) (token : String)
      → (answer f0 identity t w).0 ≡ ok (f, token)
      → (f0.id ≡ f.id) × (t ≡ token) × ((answer f0 identity t w).1.db ≡ w.db)
  unfolding effects
  answer-eq-ok f0 identity t w f token h = ground arith

  -- The row that creation and update leave, for the flow as it was created.
  updated-row :
      (tenant identity : Uuid) (token : String) (expires_at : ℕ) (rows : List Flow) (f : Flow)
      → f ≡ Flows.new_flow f.id tenant verification (Verification.verify_ui token) expires_at
      → any (Flows.is_flow tenant f.id) rows ≡ false
      → find (Flows.is_flow tenant f.id) (
          update_rows
            (Flows.is_flow tenant f.id)
            (Flows.set_columns pending (some identity) f.ui)
            (rows ++ f ∷ []))
        ≡ some (row tenant f.id identity token expires_at)
  updated-row tenant identity token expires_at rows f shape free =
      let p = Flows.is_flow tenant f.id in
      ap
        (λ u. find p (update_rows p (Flows.set_columns pending (some identity) u) (rows ++ f ∷ [])))
        (ap (λ g. g.ui) shape)
      ∙ ap
          (λ g. find p (
            update_rows p (Flows.set_columns pending (some identity) (Verification.verify_ui token))
              (rows ++ g ∷ [])))
          shape
      ∙ started-of tenant f.id identity token expires_at rows free

  -- What a started flow leaves behind.
  init-eq-ok :
      (tenant identity : Uuid) (w : World) (f : Flow) (token : String)
      → (Verification.init_flow tenant identity w).0 ≡ ok (f, token)
      → find (Flows.is_flow tenant f.id) (Verification.init_flow tenant identity w).1.db.flows
        ≡ some (row tenant f.id identity token (env.now (suc w.calls) + Verification.flow_ttl))
  unfolding Verification.init_flow
  init-eq-ok tenant identity w f token h =
      let (t, drew, h1, e1) = >>=-eq-ok generate_token _ w h in
      let v = (generate_token w).1 in
      let e2 = time_now-of _ v in
      let h2 = ap (λ x. x.0) (sym e2) ∙ h1 in
      let (f0, made, h3, e3) = >>=-eq-ok _ _ v h2 in
      let (shape, free, tables) = create-eq-ok tenant verification _ _ v made in
      let (_, updated, h4, e4) = >>-eq-ok _ _ _ h3 in
      let left = flows-update-eq-ok tenant _ f0.id pending (some identity) f0.ui updated in
      let (same_f, same_t, last) = answer-eq-ok f0 identity t _ f token h4 in
      let drawn_world = token-eq-ok w drew in
      let final =
        ap (λ x. x.1.db.flows) (e1 ∙ e2 ∙ e3 ∙ e4)
        ∙ ap (λ db. db.flows) (last ∙ left)
        ∙ ap
            (λ db.
              update_rows (Flows.is_flow tenant f0.id)
                (Flows.set_columns pending (some identity) f0.ui) db.flows)
            tables in
      subst2
        (λ id tok.
          find (Flows.is_flow tenant id) (Verification.init_flow tenant identity w).1.db.flows
          ≡ some (row tenant id identity tok (env.now (suc w.calls) + Verification.flow_ttl)))
        same_f same_t
        (ap (find (Flows.is_flow tenant f0.id)) final
          ∙ updated-row tenant identity t _ _ f0 shape free
          ∙ ap (λ x. some (row tenant f0.id identity t (env.now x.calls + Verification.flow_ttl)))
              drawn_world)

  -- Where the database does not fail: the token that a started verification flow
  -- answers, submitted to that flow within the hour, verifies the identity, in any later state of
  -- the database that has the same flows and where the identity exists, if the token is not empty.
  pub init_flow-submit_flow :
      (tenant identity : Uuid) (w : World) (f : Flow) (token : String) (later : World)
      → IsCalm env
      → (Verification.init_flow tenant identity w).0 ≡ ok (f, token)
      → later.db.flows ≡ (Verification.init_flow tenant identity w).1.db.flows
      → any (Identities.is_identity tenant identity) later.db.identities ≡ true
      → str_eq token "" ≡ false
      → env.now (suc later.calls) ≤ env.now (suc w.calls) + hour
      → (Verification.submit_flow tenant f.id token later).0 ≡ ok tt
  init_flow-submit_flow tenant identity w f token later calm h same known not_empty in_time =
      let row_stands = init-eq-ok tenant identity w f token h in
      submits tenant f.id identity token _ later calm
        (ap (find (Flows.is_flow tenant f.id)) same ∙ row_stands) known not_empty in_time
