-- ===== src/Recovery/Privacy.antt =====
-- A recovery request looks the same to the client whether or not an account has the email.
use enterprise_kratos.Base.{
  ◌≤◌, suc, Uuid, String, true, [], ◌∷◌, Option, some, none, ◌⊎◌, inl, inr, ◌≡◌, refl, sym, subst,
  ap, Option-cases, find-satisfies, ◌∙◌, arith, find, any, any_of_find, find-update,
}
use mathlib.Core.Option
use enterprise_kratos.Flow.{ClientFlow, to_response, Flow, pending, recovery, is_pending, same_type}
use enterprise_kratos.External.{External}
use enterprise_kratos.Errors.{Error, credential_not_found}
use enterprise_kratos.Store.{Tables, Env, World, ok, attempt, generate_token, drawn, effects}
use enterprise_kratos.Store.Flows
use enterprise_kratos.Store.Policies
use enterprise_kratos.Store.Identities
use enterprise_kratos.Store.Calm.{IsCalm, after_call, >>=-of, flows-get-of, policies-get-of}
use enterprise_kratos.Engine.Outcome.{require_pending-of, require-of}
use enterprise_kratos.Recovery

-- What the client is shown after a request: the message, with no hint of an account.
abbrev pub notice : Flow → ClientFlow
notice f = record {
  id = f.id;
  kind = f.kind;
  state = pending;
  action = f.ui.action;
  method = f.ui.method;
  nodes = [];
  messages = Recovery.sent ∷ [];
}

abbrev pub shown : Uuid → Uuid → Tables → Option ClientFlow
shown tenant id db = Option.map to_response (find (Flows.is_flow tenant id) db.flows)

module _ ⦃env : Env⦄ (ext : External) (tenant id : Uuid) (f : Flow) (calm : IsCalm env) where
  -- The row that the update leaves.
  shown_update :
      (identity : Option Uuid) (token name : String) (db : Tables)
      → find (Flows.is_flow tenant f.id) db.flows ≡ some f
      → shown tenant f.id (
          Flows.with_update tenant f.id
            (Flows.set_columns pending identity (Recovery.link_ui f.ui token name))
            db)
        ≡ some (notice f)
  shown_update identity token name db stands = ap (Option.map to_response) (
      find-update (Flows.is_flow tenant f.id)
        (Flows.set_columns pending identity (Recovery.link_ui f.ui token name)) (λ x. refl) db.flows
      ∙ ap (Option.map (Flows.set_columns pending identity (Recovery.link_ui f.ui token name)))
          stands)

  abbrev linked : Option Uuid → String → String → World → World
  linked identity token name w =
      after_call
        (Flows.with_update tenant f.id
          (Flows.set_columns pending identity (Recovery.link_ui f.ui token name)) w.db)
        w

  advanced-of :
      (token : String) (looked_up : Error ⊎ Uuid) (w : World)
      → any (Flows.is_flow tenant f.id) w.db.flows ≡ true
      → (identity : Option Uuid) × (name : String) × (Recovery.advanced ext tenant f token looked_up
            w
          ≡ (ok token, linked identity token name w))
  unfolding Recovery.advanced Flows.update Flows.affected effects
  advanced-of token (inl e) w stands = (none, "", ground (arith, calm w.calls))
  advanced-of token (inr i) w stands = (some i, ext.uuid_text i, ground (arith, calm w.calls))

  advanced-shown :
      (token : String) (looked_up : Error ⊎ Uuid) (w : World)
      → find (Flows.is_flow tenant f.id) w.db.flows ≡ some f
      → ((Recovery.advanced ext tenant f token looked_up w).0 ≡ ok token)
        × (shown tenant f.id (Recovery.advanced ext tenant f token looked_up w).1.db
            ≡ some (notice f))
  advanced-shown token looked_up w stands =
      let (identity, name, e) =
        advanced-of token looked_up w
          (any_of_find (Flows.is_flow tenant f.id) w.db.flows f stands) in
      (
        ap (λ x. x.0) e,
        ap (λ x. shown tenant f.id x.1.db) e ∙ shown_update identity token name w.db stands,
      )

  looked_up-of :
      (email : String) (w : World)
      → (x : Error ⊎ Uuid) × (attempt (Identities.get_identity_id_by_identifier tenant email) w
          ≡ (ok x, after_call w.db w))
  unfolding Identities.get_identity_id_by_identifier Identities.owner effects
  looked_up-of email w =
      elim (Option-cases (find (Identities.is_known_as tenant email) w.db.credentials)) [
        | inl h ↦ (inl credential_not_found, ground (arith, calm w.calls))
        | inr (c, h) ↦ (inr c.identity_id, ground (arith, calm w.calls))
      ]

  token-of :
      (token : String) (w : World)
      → env.random_token w.calls ≡ some token
      → generate_token w ≡ (ok token, after_call w.db w)
  unfolding effects drawn
  token-of token w h = ground arith

  same_id : (db : Tables) → find (Flows.is_flow tenant id) db.flows ≡ some f → f.id ≡ id
  same_id db h = ground (arith, find-satisfies (Flows.is_flow tenant id) db.flows f h)

  -- Where the database does not fail and a token can be drawn, for a pending recovery flow of the
  -- tenant that has not expired, with recovery enabled, and for every email: the answer is the
  -- drawn token, and the client is shown the same flow. Neither depends on the credentials, so
  -- neither tells whether an account has the email.
  pub request_recovery-shown :
      (email token : String) (w : World)
      → find (Flows.is_flow tenant id) w.db.flows ≡ some f
      → is_pending f.state ≡ true
      → env.now (suc w.calls) ≤ f.expires_at
      → same_type f.kind recovery ≡ true
      → (Policies.or_default (Policies.policy_of tenant w.db.policies)).recovery.enabled ≡ true
      → env.random_token (suc (suc (suc w.calls))) ≡ some token
      → ((Recovery.request_recovery ext tenant id email w).0 ≡ ok token)
        × (shown tenant id (Recovery.request_recovery ext tenant id email w).1.db ≡ some (notice f))
  unfolding Recovery.request_recovery
  request_recovery-shown email token w stands waiting in_time kind enabled random =
      let v = after_call w.db w in
      let (looked_up, e1) = looked_up-of email (after_call w.db v) in
      let e2 = token-of token (after_call w.db (after_call w.db v)) random in
      let same = same_id w.db stands in
      let last = after_call w.db (after_call w.db (after_call w.db v)) in
      let (answers, shows) =
        advanced-shown token looked_up last
          (subst (λ j. find (Flows.is_flow tenant j) w.db.flows ≡ some f) (sym same) stands) in
      let whole =
        >>=-of (Flows.get tenant id) _ (flows-get-of tenant w calm id f stands waiting in_time)
        ∙ require_pending-of v f _ waiting
        ∙ require-of v _ _ _ kind
        ∙ >>=-of (Policies.get tenant) _ (policies-get-of tenant v calm)
        ∙ require-of _ _ _ _ enabled
        ∙ >>=-of (attempt (Identities.get_identity_id_by_identifier tenant email)) _ e1
        ∙ >>=-of generate_token (λ t. Recovery.advanced ext tenant f t looked_up) e2 in
      (
        ap (λ x. x.0) whole ∙ answers,
        ap (λ x. shown tenant id x.1.db) whole
            ∙ subst
                (λ j.
                  shown tenant j (Recovery.advanced ext tenant f token looked_up last).1.db
                  ≡ some (notice f))
                same shows,
      )
