-- ===== src/Registration/Accounts.antt =====
-- What a registration that succeeds creates, and that a taken identifier is refused.
use enterprise_kratos.Base.{
  Uuid, String, Bool, true, false, not, List, [], ◌∷◌, ◌++◌, some, none, Json, ◌⊎◌, inl, inr, ◌≡◌,
  refl, sym, subst, ap, ◌∙◌, arith, find, if◌then◌else◌,
}
use enterprise_kratos.Flow.{Flow, success}
use enterprise_kratos.Policy.{FlowPolicy}
use enterprise_kratos.Identity.{Identity, Credential}
use enterprise_kratos.External.{External}
use enterprise_kratos.Errors.{Error, credential_not_found}
use enterprise_kratos.Store.{Tables, Env, World, ok, M, attempt, done, effects, ◌>>=◌, ◌>>◌}
use enterprise_kratos.Store.Flows
use enterprise_kratos.Store.Identities
use enterprise_kratos.Store.Schemas
use enterprise_kratos.Store.Frame.{IsOrder, Keeps}
use enterprise_kratos.Store.Keeping.{ensure_default-keeps}
use enterprise_kratos.Store.Outcome.{
  >>=-eq-ok, >>-eq-ok, flows-update-eq-ok, create_identity-eq-ok, create_credential-eq-ok,
}
use enterprise_kratos.Authenticator.{EnrollResult}
use enterprise_kratos.Authenticator.Registry.{Registry}
use enterprise_kratos.Traits.{build_traits}
use enterprise_kratos.Verification
use enterprise_kratos.Registration

-- The identities and credentials are the same.
abbrev SameAccounts : Tables → Tables → Type 0
SameAccounts a b = (b.identities ≡ a.identities) × (b.credentials ≡ a.credentials)

SameAccounts-IsOrder : IsOrder SameAccounts
SameAccounts-IsOrder = record { same = λ db. (refl, refl); then_ = λ p q. (q.0 ∙ p.0, q.1 ∙ p.1) }

-- A new identity, with the traits and the state of the policy, and a credential for it.
pub record Created (tenant : Uuid) (pol : FlowPolicy) (written : Json) (identifiers : List String)
    (enrolled : EnrollResult) (db after : Tables) (r : Registration.SubmitResult) : Type 0 where
  pub identity : Identity
  pub cred : Credential
  pub is_identity : identity.tenant_id ≡ tenant
  pub state : identity.state ≡ Registration.state_for pol
  pub traits : identity.traits ≡ written
  pub credential :
      cred
      ≡ Identities.new_credential cred.id tenant identity.id enrolled.credential_type identifiers
          enrolled.credential_config
  pub is_for : r.identity_id ≡ identity.id
  pub needs : r.needs_verification ≡ pol.registration.require_verification
  pub completed : r.completed ≡ not pol.registration.require_verification
  pub identities : after.identities ≡ db.identities ++ identity ∷ []
  pub credentials : after.credentials ≡ db.credentials ++ cred ∷ []

module _ ⦃env : Env⦄ where
  schemas-SameAccounts : (tenant : Uuid) → Keeps SameAccounts (Schemas.ensure_default tenant)
  schemas-SameAccounts tenant =
      ensure_default-keeps SameAccounts-IsOrder tenant (λ id db. ground arith)

  verification-SameAccounts :
      (tenant identity : Uuid) (w : World)
      → SameAccounts w.db (Verification.init_flow tenant identity w).1.db
  unfolding Verification.init_flow Flows.create Flows.update Flows.affected effects
  verification-SameAccounts tenant identity w = ground arith

  pub free-eq-ok :
      (x : Error ⊎ Credential) (k : M Registration.SubmitResult) (w : World)
      {r : Registration.SubmitResult}
      → ((Registration.must_be_free x >> k) w).0 ≡ ok r
      → (x ≡ inl credential_not_found)
        × ((k w).0 ≡ ok r)
        × ((Registration.must_be_free x >> k) w ≡ k w)
  unfolding Registration.must_be_free effects
  free-eq-ok (inr c) k w h = absurd cc
  free-eq-ok (inl credential_not_found) k w h = (refl, h, refl)
  free-eq-ok (inl e) k w h = absurd (ground arith)

  pub looked_up-free :
      (tenant : Uuid) (kind identifier : String) (w : World)
      → (attempt (Identities.get_by_identifier tenant kind identifier) w).0
        ≡ ok (inl credential_not_found)
      → (find (Identities.has_identifier tenant kind identifier) w.db.credentials ≡ none)
        × ((attempt (Identities.get_by_identifier tenant kind identifier) w).1.db ≡ w.db)
  unfolding Identities.get_by_identifier effects
  looked_up-free tenant kind identifier w h = ground arith

module _ ⦃env : Env⦄ (ext : External) (reg : Registry) where
  awaiting-eq-ok :
      (f : Flow) (identity : Uuid) (started : Flow × String) (w : World)
      {r : Registration.SubmitResult}
      → (done (Registration.awaiting ext reg f identity started) w).0 ≡ ok r
      → (r.identity_id ≡ identity) × (r.needs_verification ≡ true) × (r.completed ≡ false)
  unfolding effects
  awaiting-eq-ok f identity started w h = ground arith

  awaiting-tables :
      (f : Flow) (identity : Uuid) (started : Flow × String) (w : World)
      → (done (Registration.awaiting ext reg f identity started) w).1.db ≡ w.db
  unfolding effects
  awaiting-tables f identity started w = refl

  finish_case :
      (needs : Bool) (tenant : Uuid) (f : Flow) (pol : FlowPolicy) (identity : Uuid) (w : World)
      {r : Registration.SubmitResult}
      → let m =
          if needs
          then (Verification.init_flow tenant identity >>= λ started.
              done (Registration.awaiting ext reg f identity started))
          else done (Registration.registered ext reg f pol identity) in
        (m w).0 ≡ ok r
        → (r.identity_id ≡ identity)
          × (r.needs_verification ≡ needs)
          × (r.completed ≡ not needs)
          × SameAccounts w.db (m w).1.db
  unfolding done
  finish_case true tenant f pol identity w h =
      let (started, begun, rest, same) = >>=-eq-ok _ _ w h in
      let (is_for, needs, completed) =
        awaiting-eq-ok f identity started (Verification.init_flow tenant identity w).1 rest in
      (
        is_for,
        needs,
        completed,
        subst (SameAccounts w.db) (sym (ap (λ x. x.1.db) same))
            (verification-SameAccounts tenant identity w),
      )
  finish_case false tenant f pol identity w h = (cc, cc, cc, SameAccounts-IsOrder.same w.db)

  finish-eq-ok :
      (tenant : Uuid) (f : Flow) (pol : FlowPolicy) (identity : Uuid) (w : World)
      {r : Registration.SubmitResult}
      → (Registration.finish ext reg tenant f pol identity w).0 ≡ ok r
      → (r.identity_id ≡ identity)
        × (r.needs_verification ≡ pol.registration.require_verification)
        × (r.completed ≡ not pol.registration.require_verification)
        × SameAccounts w.db (Registration.finish ext reg tenant f pol identity w).1.db
  unfolding Registration.finish
  finish-eq-ok tenant f pol identity w h =
      finish_case pol.registration.require_verification tenant f pol identity w h

  -- The new rows, which belong together.
  pub create_account-eq-ok :
      (tenant : Uuid) (f : Flow) (pol : FlowPolicy) (values : List (String × String))
      (identifier : String) (enrolled : EnrollResult) (w : World) {r : Registration.SubmitResult}
      → (Registration.create_account ext reg tenant f pol values identifier enrolled w).0 ≡ ok r
      → Created tenant pol
          (build_traits values identifier)
          (Registration.identifiers_or identifier enrolled.identifiers)
          enrolled
          w.db
          (Registration.create_account ext reg tenant f pol values identifier enrolled w).1.db
          r
  unfolding Registration.create_account
  create_account-eq-ok tenant f pol values identifier enrolled w h =
      let (schema, ensured, h1, e1) = >>=-eq-ok _ _ w h in
      let same1 = (schemas-SameAccounts tenant).keeps w in
      let w1 = (Schemas.ensure_default tenant w).1 in
      let (i, made, h2, e2) = >>=-eq-ok _ _ w1 h1 in
      let (row, tables2) = create_identity-eq-ok tenant schema.id _ _ w1 made in
      let (c, linked, h3, e3) = >>=-eq-ok _ _ _ h2 in
      let (key, tables3) = create_credential-eq-ok tenant i.id _ _ _ _ linked in
      let (_, updated, h4, e4) = >>-eq-ok _ _ _ h3 in
      let tables4 =
        flows-update-eq-ok tenant _ f.id success (some i.id) (Registration.complete_ui f.ui)
          updated in
      let (is_for, needs, completed, same5) = finish-eq-ok tenant _ pol i.id _ h4 in
      let whole = e1 ∙ e2 ∙ e3 ∙ e4 in
      record {
        identity = i;
        cred = c;
        is_identity = ap (λ x. x.tenant_id) row;
        state = ap (λ x. x.state) row;
        traits = ap (λ x. x.traits) row;
        credential = key;
        is_for = is_for;
        needs = needs;
        completed = completed;
        identities =
            ap (λ x. x.1.db.identities) whole
            ∙ same5.0
            ∙ ap (λ db. db.identities) (tables4)
            ∙ ap (λ db. db.identities) (tables3)
            ∙ ap (λ db. db.identities) (tables2)
            ∙ ap (λ rows. rows ++ i ∷ []) same1.0;
        credentials =
            ap (λ x. x.1.db.credentials) whole
            ∙ same5.1
            ∙ ap (λ db. db.credentials) (tables4)
            ∙ ap (λ db. db.credentials) (tables3)
            ∙ ap (λ rows. rows ++ c ∷ []) (ap (λ db. db.credentials) tables2 ∙ same1.1);
      }
