-- ===== src/Login/Completion.antt =====
-- What stands behind a completed login: an accepted factor, or both.
use enterprise_kratos.Base.{
  Uuid, String, true, false, some, List, inr, ◌≡◌, refl, ◌∙◌, subst, sym, ap, find, contains_str,
  value_of, ◌++◌,
}
use enterprise_kratos.Flow.{Flow, success}
use enterprise_kratos.Policy.{FlowPolicy}
use enterprise_kratos.Identity.{Credential}
use enterprise_kratos.External.{External}
use enterprise_kratos.Store.{Tables, Env, World, ok}
use enterprise_kratos.Engine.{parse_session_ttl}
use enterprise_kratos.Store.Frame.{Unwritten}
use enterprise_kratos.Store.Flows
use enterprise_kratos.Store.Identities.{
  has_identifier, belongs_to, get_by_identifier, get_by_identity_and_type,
}
use enterprise_kratos.Store.Outcome.{get_by_identifier-eq-ok, get_by_identity_and_type-eq-ok}
use enterprise_kratos.Authenticator.{Authenticator, AuthResult}
use enterprise_kratos.Authenticator.Registry.{Registry, get}
use enterprise_kratos.Authenticator.Keeping.{EachKeeps, registered-KeepsAll}
use enterprise_kratos.Engine.Outcome.{require-eq-ok, some_or-eq-ok, returned-eq-ok}
use enterprise_kratos.Login.Outcome.{
  credential_or-eq-ok, accepted-eq-ok, complete-eq-ok, first_factor_accepted-completed,
}
use enterprise_kratos.Login

-- The authenticator that is registered for the method accepts the values for the credential. It is
-- called with the tables as they are.
pub record Accepted (reg : Registry) (db : Tables) (f : Flow) (method : String)
    (values : List (String × String)) (identity : Uuid) (cred : Credential) (amr : List String)
    : Type 0 where
  pub a : Authenticator
  pub registered : get method reg ≡ inr a
  pub v : World
  pub unwritten : v.db ≡ db
  pub answer : AuthResult
  pub accepts :
      (a.complete_flow (Login.factor_request f identity method values cred.config) v).0 ≡ ok answer
  pub methods : amr ≡ answer.amr

-- A login by one factor: the policy asks for no second one.
pub record ByFirstFactor (reg : Registry) (db : Tables) (f : Flow) (pol : FlowPolicy)
    (method : String) (values : List (String × String)) (r : Login.SubmitResult) : Type 0 where
  pub allowed : contains_str pol.login.allowed_first_factors method ≡ true
  pub single : Login.needs_second_factor pol ≡ false
  pub cred : Credential
  pub found :
      find (has_identifier f.tenant_id method (value_of "identifier" values)) db.credentials
      ≡ some cred
  pub identity : r.identity_id ≡ cred.identity_id
  pub accepted : Accepted reg db f method values cred.identity_id cred r.amr
  pub aal : r.aal ≡ "aal1"

-- A login by a second factor, of the identity that the flow remembers from the first one.
pub record BySecondFactor (reg : Registry) (db : Tables) (f : Flow) (pol : FlowPolicy)
    (method : String) (values : List (String × String)) (r : Login.SubmitResult) : Type 0 where
  pub allowed : contains_str pol.login.allowed_second_factors method ≡ true
  pub remembered : f.identity_id ≡ some r.identity_id
  pub cred : Credential
  pub found : find (belongs_to f.tenant_id r.identity_id method) db.credentials ≡ some cred
  pub second_amr : List String
  pub accepted : Accepted reg db f method values r.identity_id cred second_amr
  pub amr : r.amr ≡ Login.prior_amr f.ui.internal ++ second_amr
  pub aal : r.aal ≡ "aal2"

-- What is left behind: the flow is successful, and nothing else has changed.
pub record LeftSuccessful (f : Flow) (db after : Tables) (r : Login.SubmitResult) : Type 0 where
  pub tables :
      after
      ≡ Flows.with_update f.tenant_id f.id
          (Flows.set_columns success (some r.identity_id) (Login.completed_ui f.ui r.aal r.amr))
          db

left :
    (f : Flow) {r : Login.SubmitResult} {identity : Uuid} {aal : String} {amr : List String}
    {db db' after : Tables}
    → after
      ≡ Flows.with_update f.tenant_id f.id
          (Flows.set_columns success (some identity) (Login.completed_ui f.ui aal amr))
          db'
    → db' ≡ db
    → r.identity_id ≡ identity
    → r.aal ≡ aal
    → r.amr ≡ amr
    → LeftSuccessful f db after r
left f tables same i a m = record { tables = cc }

module _ ⦃env : Env⦄ (ext : External) (reg : Registry) (each : EachKeeps Unwritten reg) where
  pub submit_first_factor-completed :
      (f : Flow) (pol : FlowPolicy) (method : String) (values : List (String × String)) (w : World)
      {r : Login.SubmitResult}
      → (Login.submit_first_factor ext reg f pol method values w).0 ≡ ok r
      → r.completed ≡ true
      → ByFirstFactor reg w.db f pol method values r
        × (r.session_ttl ≡ parse_session_ttl ext pol)
        × LeftSuccessful f w.db (Login.submit_first_factor ext reg f pol method values w).1.db r
  unfolding Login.submit_first_factor
  submit_first_factor-completed f pol method values w h c =
      let (allowed, h1, e1) = require-eq-ok w _ _ _ h in
      let (a, registered, h2, e2) = returned-eq-ok w _ _ h1 in
      let (named, h3, e3) = require-eq-ok w _ _ _ h2 in
      let (cred, got, h4, e4) = credential_or-eq-ok _ _ _ w h3 in
      let v = (get_by_identifier f.tenant_id method (value_of "identifier" values) w).1 in
      let (found, same1) =
        get_by_identifier-eq-ok f.tenant_id w method (value_of "identifier" values) got in
      let (answer, accepts, h5, e5) = accepted-eq-ok f _ _ _ v h4 in
      let v' =
        (a.complete_flow (Login.factor_request f cred.identity_id method values cred.config) v).1 in
      let (single, e6) =
        first_factor_accepted-completed ext reg f pol cred.identity_id answer.amr v' h5 c in
      let (_, identity, aal, amr, ttl, tables) =
        complete-eq-ok ext reg f pol cred.identity_id "aal1" answer.amr v'
          (ap (λ x. x.0) (sym e6) ∙ h5) in
      let kept = ((registered-KeepsAll reg each method a registered).complete_flow _).keeps v in
      let whole = e1 ∙ e2 ∙ e3 ∙ e4 ∙ e5 ∙ e6 in
      (
        record {
          allowed = allowed;
          single = single;
          cred = cred;
          found = found;
          identity = identity;
          accepted = record {
            a = a;
            registered = registered;
            v = v;
            unwritten = same1;
            answer = answer;
            accepts = accepts;
            methods = amr;
          };
          aal = aal;
        },
        ttl,
        left f (ap (λ x. x.1.db) whole ∙ tables) (kept ∙ same1) identity aal amr,
      )

  pub submit_second_factor-completed :
      (f : Flow) (pol : FlowPolicy) (method : String) (values : List (String × String)) (w : World)
      {r : Login.SubmitResult}
      → (Login.submit_second_factor ext reg f pol method values w).0 ≡ ok r
      → BySecondFactor reg w.db f pol method values r
        × (r.session_ttl ≡ parse_session_ttl ext pol)
        × LeftSuccessful f w.db (Login.submit_second_factor ext reg f pol method values w).1.db r
  unfolding Login.submit_second_factor
  submit_second_factor-completed f pol method values w h =
      let (allowed, h1, e1) = require-eq-ok w _ _ _ h in
      let (identity, known, h2, e2) = some_or-eq-ok w _ _ _ h1 in
      let (a, registered, h3, e3) = returned-eq-ok w _ _ h2 in
      let (cred, got, h4, e4) = credential_or-eq-ok _ _ _ w h3 in
      let v = (get_by_identity_and_type f.tenant_id identity method w).1 in
      let (found, same1) = get_by_identity_and_type-eq-ok f.tenant_id w identity method got in
      let (answer, accepts, h5, e5) = accepted-eq-ok f _ _ _ v h4 in
      let v' = (a.complete_flow (Login.factor_request f identity method values cred.config) v).1 in
      let (_, same_identity, aal, amr, ttl, tables) =
        complete-eq-ok ext reg f pol identity "aal2" (Login.prior_amr f.ui.internal ++ answer.amr)
          v' h5 in
      let kept = ((registered-KeepsAll reg each method a registered).complete_flow _).keeps v in
      let whole = e1 ∙ e2 ∙ e3 ∙ e4 ∙ e5 in
      (
        record {
          allowed = allowed;
          remembered = known ∙ ap some (sym same_identity);
          cred = cred;
          found =
              subst (λ i. find (belongs_to f.tenant_id i method) w.db.credentials ≡ some cred)
                (sym same_identity) found;
          second_amr = answer.amr;
          accepted =
              subst (λ i. Accepted reg w.db f method values i cred answer.amr) (sym same_identity)
                (record {
                  a = a;
                  registered = registered;
                  v = v;
                  unwritten = same1;
                  answer = answer;
                  accepts = accepts;
                  methods = refl;
                });
          amr = amr;
          aal = aal;
        },
        ttl,
        left f (ap (λ x. x.1.db) whole ∙ tables) (kept ∙ same1) same_identity aal amr,
      )
