-- ===== src/Registration/Soundness.antt =====
-- The whole of `SubmitFlow`: what a successful registration rests on and leaves behind, and the
-- refusal of an identifier that is taken.
use enterprise_kratos.Base.{
  ◌≤◌, suc, Uuid, uuid_nil, String, true, false, not, List, some, none, inr, ◌≡◌, refl, sym, subst,
  ap, ◌∙◌, find, str_eq, contains_str, Json,
}
use enterprise_kratos.Flow.{Flow, registration, is_pending, same_type}
use enterprise_kratos.Policy.{FlowPolicy}
use enterprise_kratos.Identity.{Credential}
use enterprise_kratos.External.{External}
use enterprise_kratos.Errors.{account_exists}
use enterprise_kratos.Store.{Tables, Env, World, ok, err, M, attempt, effects, ◌>>◌}
use enterprise_kratos.Store.Flows
use enterprise_kratos.Store.Policies
use enterprise_kratos.Store.Identities
use enterprise_kratos.Store.Calm.{
  IsCalm, after_call, >>=-of, attempt-of, flows-get-of, policies-get-of, get_by_identifier-of,
}
use enterprise_kratos.Store.Frame.{Unwritten}
use enterprise_kratos.Store.Lookup.{get-Got}
use enterprise_kratos.Store.Outcome.{>>=-eq-ok, policies-get-eq-ok}
use enterprise_kratos.Engine.Outcome.{
  require-of, require_pending-of, require_pending-eq-ok, require-eq-ok, returned-eq-ok,
}
use enterprise_kratos.Authenticator.{Authenticator, EnrollRequest, EnrollResult}
use enterprise_kratos.Authenticator.Registry.{Registry, get}
use enterprise_kratos.Authenticator.Keeping.{EachKeeps, registered-KeepsAll}
use enterprise_kratos.Traits.{build_traits, extract_identifier}
use enterprise_kratos.Registration.Accounts.{
  Created, free-eq-ok, looked_up-free, create_account-eq-ok,
}
use enterprise_kratos.Registration

abbrev policy_in : Uuid → Tables → FlowPolicy
policy_in tenant db = Policies.or_default (Policies.policy_of tenant db.policies)

-- A registration that succeeded: what it was submitted to, that the identifier was free, and the
-- account that it made.
pub record Registered (ext : External) (reg : Registry) (tenant id : Uuid) (method : String)
    (values : List (String × String)) (db after : Tables) (r : Registration.SubmitResult)
    : Type 0 where
  pub f : Flow
  pub stands : find (Flows.is_flow tenant id) db.flows ≡ some f
  pub waiting : is_pending f.state ≡ true
  pub kind : same_type f.kind registration ≡ true
  pub enabled : (policy_in tenant db).registration.enabled ≡ true
  pub allowed : contains_str (policy_in tenant db).login.allowed_first_factors method ≡ true
  pub named : not (str_eq (extract_identifier ext values) "") ≡ true
  pub free :
      find (Identities.has_identifier tenant method (extract_identifier ext values)) db.credentials
      ≡ none
  pub a : Authenticator
  pub registered : get method reg ≡ inr a
  pub enrolled : EnrollResult
  pub asked_in : World
  pub asked_unwritten : asked_in.db ≡ db
  pub enrolls :
      (a.enroll (record { tenant_id = tenant; identity_id = uuid_nil; values = values }) asked_in).0
      ≡ ok enrolled
  pub account :
      Created tenant
        (policy_in tenant db)
        (build_traits values (extract_identifier ext values))
        (Registration.identifiers_or (extract_identifier ext values) enrolled.identifiers)
        enrolled
        db
        after
        r

moved :
    {tenant : Uuid} {pol pol' : FlowPolicy} {written : Json} {identifiers : List String}
    {enrolled : EnrollResult} {db db' after after' : Tables} {r : Registration.SubmitResult}
    → pol ≡ pol'
    → db ≡ db'
    → after ≡ after'
    → Created tenant pol written identifiers enrolled db after r
    → Created tenant pol' written identifiers enrolled db' after' r
moved {tenant} {pol} {pol'} {written} {identifiers} {enrolled} {db} {db'} {after} {after'} {r} p q s
      h =
    subst (λ p. Created tenant p written identifiers enrolled db' after' r) p
      (subst (λ a. Created tenant pol written identifiers enrolled db' a r) s
        (subst (λ d. Created tenant pol written identifiers enrolled d after r) q h))

taken-err :
    (c : Credential) (k : M Registration.SubmitResult) (w : World)
    → (Registration.must_be_free (inr c) >> k) w ≡ (err account_exists, w)
unfolding Registration.must_be_free effects
taken-err c k w = refl

module _ ⦃env : Env⦄ (ext : External) (reg : Registry) where
  -- A registration that answers without an error, where the authenticators write nothing
  -- themselves, was submitted to a pending registration flow, with registration enabled and the
  -- method allowed by the tenant's policy, for an identifier that is not empty and that no
  -- credential of the method had in the tenant. It has added one identity, with the submitted
  -- traits and in the state that the policy asks for, and one credential of that identity with what
  -- the method's authenticator answered when it was asked, on the tables as they were, to enroll
  -- the submitted values for the tenant, and no other row of these tables has changed. It asks for
  -- verification exactly if the policy does.
  pub submit_flow-Registered :
      EachKeeps Unwritten reg
      → (tenant id : Uuid) (method : String) (values : List (String × String)) (w : World)
        (r : Registration.SubmitResult)
      → (Registration.submit_flow ext reg tenant id method values w).0 ≡ ok r
      → Registered ext reg tenant id method values w.db
          (Registration.submit_flow ext reg tenant id method values w).1.db
          r
  unfolding Registration.submit_flow
  submit_flow-Registered each tenant id method values w r h =
      let identifier = extract_identifier ext values in
      let (f, read, h1, e1) = >>=-eq-ok _ _ w h in
      let got = get-Got tenant id w f read in
      let w1 = (Flows.get tenant id w).1 in
      let (waiting, h2, e2) = require_pending-eq-ok w1 f _ h1 in
      let (kind, h3, e3) = require-eq-ok w1 _ _ _ h2 in
      let (pol, asked, h4, e4) = >>=-eq-ok _ _ w1 h3 in
      let (same_policy, same1) = policies-get-eq-ok tenant w1 asked in
      let w2 = (Policies.get tenant w1).1 in
      let (enabled, h5, e5) = require-eq-ok w2 _ _ _ h4 in
      let (allowed, h6, e6) = require-eq-ok w2 _ _ _ h5 in
      let (named, h7, e7) = require-eq-ok w2 _ _ _ h6 in
      let (x, tried, h8, e8) =
        >>=-eq-ok (attempt (Identities.get_by_identifier tenant method identifier)) _ w2 h7 in
      let w3 = (attempt (Identities.get_by_identifier tenant method identifier) w2).1 in
      let (missing, h9, e9) = free-eq-ok x _ w3 h8 in
      let (free, same2) = looked_up-free tenant method identifier w2 (tried ∙ ap ok missing) in
      let (a, registered, h10, e10) = returned-eq-ok w3 _ _ h9 in
      let request : EnrollRequest = record {
        tenant_id = tenant;
        identity_id = uuid_nil;
        values = values;
      } in
      let (enrolled, enrolls, h11, e11) = >>=-eq-ok (a.enroll request) _ w3 h10 in
      let kept = ((registered-KeepsAll reg each method a registered).enroll request).keeps w3 in
      let account = create_account-eq-ok ext reg tenant f pol values identifier enrolled _ h11 in
      let policy = same_policy ∙ ap (policy_in tenant) got.unwritten in
      let before = same1 ∙ got.unwritten in
      let whole = e1 ∙ e2 ∙ e3 ∙ e4 ∙ e5 ∙ e6 ∙ e7 ∙ e8 ∙ e9 ∙ e10 ∙ e11 in
      record {
        f = f;
        stands = got.stands;
        waiting = waiting;
        kind = kind;
        enabled = subst (λ p. p.registration.enabled ≡ true) policy enabled;
        allowed =
            subst (λ p. contains_str p.login.allowed_first_factors method ≡ true) policy allowed;
        named = named;
        free =
            subst
              (λ db.
                find (Identities.has_identifier tenant method identifier) db.credentials ≡ none)
              before free;
        a = a;
        registered = registered;
        enrolled = enrolled;
        asked_in = w3;
        asked_unwritten = same2 ∙ before;
        enrolls = enrolls;
        account = moved policy (kept ∙ same2 ∙ before) (sym (ap (λ x. x.1.db) whole)) account;
      }

  -- An identifier that a credential of the method has already, where the database does not fail, is
  -- refused at a pending registration flow that has not expired, with registration enabled and the
  -- method allowed: the answer is that the account exists, and nothing is written.
  pub submit_flow-taken :
      (tenant id : Uuid) (method : String) (values : List (String × String)) (f : Flow)
      (c : Credential) (w : World)
      → IsCalm env
      → find (Flows.is_flow tenant id) w.db.flows ≡ some f
      → is_pending f.state ≡ true
      → env.now (suc w.calls) ≤ f.expires_at
      → same_type f.kind registration ≡ true
      → (policy_in tenant w.db).registration.enabled ≡ true
      → contains_str (policy_in tenant w.db).login.allowed_first_factors method ≡ true
      → str_eq (extract_identifier ext values) "" ≡ false
      → find
          (Identities.has_identifier tenant method (extract_identifier ext values))
          w.db.credentials
        ≡ some c
      → ((Registration.submit_flow ext reg tenant id method values w).0 ≡ err account_exists)
        × ((Registration.submit_flow ext reg tenant id method values w).1.db ≡ w.db)
  unfolding Registration.submit_flow
  submit_flow-taken tenant id method values f c w calm stands waiting in_time kind enabled allowed
        named taken =
      let identifier = extract_identifier ext values in
      let v = after_call w.db w in
      let v2 = after_call w.db v in
      let row = get_by_identifier-of tenant v2 calm method identifier c taken in
      let whole =
        >>=-of (Flows.get tenant id) _ (flows-get-of tenant w calm id f stands waiting in_time)
        ∙ require_pending-of v f _ waiting
        ∙ require-of v _ _ _ kind
        ∙ >>=-of (Policies.get tenant) _ (policies-get-of tenant v calm)
        ∙ require-of v2 _ _ _ enabled
        ∙ require-of v2 _ _ _ allowed
        ∙ require-of v2 _ _ _ (ap not named)
        ∙ >>=-of (attempt (Identities.get_by_identifier tenant method identifier)) _
            (attempt-of _ row)
        ∙ taken-err c _ _ in
      (ap (λ x. x.0) whole, ap (λ x. x.1.db) whole)
