-- ===== src/Login/FirstFactor.antt =====
-- The first phase of a login where the database does not fail.
use enterprise_kratos.Base.{
  Bool, uuid_nil, [], ℕ, ◌≤◌, suc, Uuid, String, true, false, not, List, none, some, ◌⊎◌, inl, inr,
  ◌≡◌, refl, ◌∙◌, arith, ap, any, find, value_of, contains_str, str_eq, if◌then◌else◌,
}
use enterprise_kratos.Flow.{UiNode, pending, Flow, is_pending, success}
use enterprise_kratos.Policy.{FlowPolicy}
use enterprise_kratos.Identity.{Credential}
use enterprise_kratos.External.{External}
use enterprise_kratos.Errors.{Error, credential_not_found, invalid_credentials}
use enterprise_kratos.Store.{Tables, Env, World, ok, err, M, effects, attempt, ◌>>=◌}
use enterprise_kratos.Store.Flows
use enterprise_kratos.Store.Policies
use enterprise_kratos.Store.Identities.{has_identifier, get_by_identifier}
use enterprise_kratos.Store.Calm.{
  IsCalm, after_call, >>=-of, attempt-of, flows-get-of, policies-get-of, get_by_identifier-of,
  get_by_identifier-missing,
}
use enterprise_kratos.Authenticator.{Authenticator, AuthResult}
use enterprise_kratos.Authenticator.Registry.{Registry, get}
use enterprise_kratos.Engine.Outcome.{require-of, require_pending-of, returned-of}
use enterprise_kratos.Login

abbrev pub policy_in : Uuid → Tables → FlowPolicy
policy_in tenant db = Policies.or_default (Policies.policy_of tenant db.policies)

-- A flow of the tenant that waits for a first factor, and a method that the policy allows.
pub record AwaitsFirst (now : ℕ) (reg : Registry) (tenant id : Uuid) (method : String)
    (values : List (String × String)) (db : Tables) (f : Flow) (a : Authenticator) : Type 0 where
  pub stands : find (Flows.is_flow tenant id) db.flows ≡ some f
  pub waiting : is_pending f.state ≡ true
  pub in_time : now ≤ f.expires_at
  pub phase : Login.phase_of f.ui.internal ≡ "first_factor"
  pub allowed : contains_str (policy_in tenant db).login.allowed_first_factors method ≡ true
  pub registered : get method reg ≡ inr a
  pub named : str_eq (value_of "identifier" values) "" ≡ false

module _ ⦃env : Env⦄ (ext : External) (reg : Registry) (tenant id : Uuid) (method : String)
    (values : List (String × String)) (w : World) (f : Flow) (a : Authenticator) (calm : IsCalm env)
    (awaits : AwaitsFirst (env.now (suc w.calls)) reg tenant id method values w.db f a) where
  -- The world when the credential is looked up.
  abbrev looking : World
  looking = after_call w.db (after_call w.db w)

  abbrev lookup : M Credential
  lookup = get_by_identifier f.tenant_id method (value_of "identifier" values)

  abbrev asking : Credential → M AuthResult
  asking cred = a.complete_flow (Login.factor_request f cred.identity_id method values cred.config)

  abbrev on_answer : Credential → Error ⊎ AuthResult → M Login.SubmitResult
  on_answer cred y = Login.accepted f Login.wrong_first y >>= λ result.
      Login.first_factor_accepted ext reg f (policy_in tenant w.db) cred.identity_id result.amr

  abbrev on_credential : Error ⊎ Credential → M Login.SubmitResult
  on_credential x =
      Login.credential_or invalid_credentials x >>= λ cred. attempt (asking cred) >>= on_answer cred

  looked_up :
      Login.submit_flow ext reg tenant id method values w
      ≡ (attempt lookup >>= on_credential) looking
  unfolding Login.submit_flow Login.submit_in_phase Login.submit_first_factor
  looked_up =
      >>=-of (Flows.get tenant id) _
        (flows-get-of tenant w calm id f awaits.stands awaits.waiting awaits.in_time)
      ∙ require_pending-of _ f _ awaits.waiting
      ∙ >>=-of (Policies.get tenant) _ (policies-get-of tenant _ calm)
      ∙ ap (λ p. Login.submit_in_phase ext reg p f (policy_in tenant w.db) method values looking)
          awaits.phase
      ∙ require-of _ _ _ _ awaits.allowed
      ∙ returned-of _ _ a _ awaits.registered
      ∙ require-of _ _ _ _ (ap not awaits.named)

  not_found :
      (v : World) → on_credential (inl credential_not_found) v ≡ (err invalid_credentials, v)
  unfolding Login.credential_or effects
  not_found v = refl

  found_row :
      (cred : Credential) (v : World)
      → on_credential (inr cred) v ≡ (attempt (asking cred) >>= on_answer cred) v
  unfolding Login.credential_or effects
  found_row cred v = refl

  answered :
      (cred : Credential) (answer : AuthResult) (v : World)
      → (needed : Bool) → Login.needs_second_factor (policy_in tenant w.db) ≡ needed
      → on_answer cred (inr answer) v
        ≡ (if needed
              then Login.advance_to_second_factor ext reg f
                  (policy_in tenant w.db)
                  cred.identity_id
                  answer.amr
              else Login.complete ext reg f
                  (policy_in tenant w.db)
                  cred.identity_id
                  "aal1"
                  answer.amr)
            v
  unfolding Login.accepted Login.first_factor_accepted effects
  answered cred answer v needed single =
      ap
        (λ b.
          (if b
              then Login.advance_to_second_factor ext reg f (policy_in tenant w.db) cred.identity_id
                  answer.amr
              else Login.complete ext reg f (policy_in tenant w.db) cred.identity_id "aal1"
                  answer.amr)
            v)
        single

  announces :
      (identity : Uuid) (amr : List String) (nodes : List UiNode) (states : Login.States)
      (v : World)
      → any (Flows.is_flow f.tenant_id f.id) v.db.flows ≡ true
      → let ui = Login.second_factor_ui f.ui nodes states amr in
        Login.announced ext reg f identity amr nodes states v ≡ (
          ok (Login.announced_result ext reg f identity ui),
          after_call
              (Flows.with_update f.tenant_id f.id
                (Flows.set_columns pending (some identity) ui)
                v.db)
              v,
        )
  unfolding Login.announced Flows.update Flows.affected effects
  announces identity amr nodes states v stands = ground (arith, calm v.calls)

  completes :
      (identity : Uuid) (aal : String) (amr : List String) (v : World)
      → any (Flows.is_flow f.tenant_id f.id) v.db.flows ≡ true
      → (r : Login.SubmitResult) × ((Login.complete ext reg f
            (policy_in tenant w.db)
            identity
            aal
            amr
            v).0
          ≡ ok r)
        × (r.completed ≡ true)
        × (r.identity_id ≡ identity)
        × (r.aal ≡ aal)
        × ((Login.complete ext reg f (policy_in tenant w.db) identity aal amr v).1.db
            ≡ Flows.with_update f.tenant_id f.id
                (Flows.set_columns success (some identity) (Login.completed_ui f.ui aal amr))
                v.db)
  unfolding Login.complete Flows.update Flows.affected effects
  completes identity aal amr v stands = (
    Login.completed_result ext reg f (policy_in tenant w.db) identity aal amr,
    ground (arith, calm v.calls),
    refl,
    refl,
    refl,
    ground (arith, calm v.calls),
  )

  -- In the first phase of a pending flow that has not expired, with an allowed and registered
  -- method, an identifier that no credential of the method has in the flow's tenant, and no failing
  -- database: the credentials are invalid, and nothing is written.
  pub submit_flow-unknown :
      find (has_identifier f.tenant_id method (value_of "identifier" values)) w.db.credentials
        ≡ none
      → ((Login.submit_flow ext reg tenant id method values w).0 ≡ err invalid_credentials)
        × ((Login.submit_flow ext reg tenant id method values w).1.db ≡ w.db)
  submit_flow-unknown missing =
      let none_found =
        get_by_identifier-missing f.tenant_id looking calm method (value_of "identifier" values)
          missing in
      let whole = looked_up ∙ >>=-of _ on_credential (attempt-of lookup none_found) ∙ not_found _ in
      (ap (λ x. x.0) whole, ap (λ x. x.1.db) whole)

  -- In the first phase of a pending flow that has not expired, with an allowed and registered
  -- method, no failing database, a credential of the method with the submitted identifier, an
  -- authenticator that accepts the values for it and leaves the flow in its table, and no second
  -- factor needed: the login is completed for the identity of the credential at the level aal1, and
  -- the flow is successful. Nothing is asked of the identity's own row: it may still wait for
  -- verification, or be missing.
  pub submit_flow-accepted :
      (cred : Credential) (answer : AuthResult) (v : World)
      → find (has_identifier f.tenant_id method (value_of "identifier" values)) w.db.credentials
        ≡ some cred
      → a.complete_flow
          (Login.factor_request f cred.identity_id method values cred.config)
          (after_call w.db looking)
        ≡ (ok answer, v)
      → any (Flows.is_flow f.tenant_id f.id) v.db.flows ≡ true
      → Login.needs_second_factor (policy_in tenant w.db) ≡ false
      → (r : Login.SubmitResult) × ((Login.submit_flow ext reg tenant id method values w).0 ≡ ok r)
        × (r.completed ≡ true)
        × (r.identity_id ≡ cred.identity_id)
        × (r.aal ≡ "aal1")
        × ((Login.submit_flow ext reg tenant id method values w).1.db
            ≡ Flows.with_update f.tenant_id f.id
                (Flows.set_columns success
                  (some cred.identity_id)
                  (Login.completed_ui f.ui "aal1" answer.amr))
                v.db)
  submit_flow-accepted cred answer v found accepts stands single =
      let row =
        get_by_identifier-of f.tenant_id looking calm method (value_of "identifier" values) cred
          found in
      let whole =
        looked_up
        ∙ >>=-of _ on_credential (attempt-of lookup row)
        ∙ found_row cred _
        ∙ >>=-of _ (on_answer cred) (attempt-of (asking cred) accepts)
        ∙ answered cred answer v false single in
      let (r, answers, done, identity, aal, tables) =
        completes cred.identity_id "aal1" answer.amr v stands in
      (r, ap (λ x. x.0) whole ∙ answers, done, identity, aal, ap (λ x. x.1.db) whole ∙ tables)

  -- In the first phase of a pending flow that has not expired, with an allowed and registered
  -- method, no failing database, a credential of the method with the submitted identifier, an
  -- authenticator that accepts the values for it, and a second factor needed whose authenticators
  -- start, with the flow still in its table: the login is not completed and answers no identity,
  -- and the flow, which stays pending and remembers the identity of the credential, asks for the
  -- second factor.
  pub submit_flow-second_factor :
      (cred : Credential) (answer : AuthResult) (v u : World) (nodes : List UiNode)
      (states : Login.States)
      → find (has_identifier f.tenant_id method (value_of "identifier" values)) w.db.credentials
        ≡ some cred
      → a.complete_flow
          (Login.factor_request f cred.identity_id method values cred.config)
          (after_call w.db looking)
        ≡ (ok answer, v)
      → Login.needs_second_factor (policy_in tenant w.db) ≡ true
      → Login.start_all reg
          (record {
            tenant_id = f.tenant_id;
            identity_id = cred.identity_id;
            flow_id = f.id;
            params = [];
          })
          (policy_in tenant w.db).login.allowed_second_factors
          []
          []
          v
        ≡ (ok (nodes, states), u)
      → any (Flows.is_flow f.tenant_id f.id) u.db.flows ≡ true
      → (r : Login.SubmitResult) × ((Login.submit_flow ext reg tenant id method values w).0 ≡ ok r)
        × (r.completed ≡ false)
        × (r.identity_id ≡ uuid_nil)
        × ((Login.submit_flow ext reg tenant id method values w).1.db
            ≡ Flows.with_update f.tenant_id f.id
                (Flows.set_columns pending
                  (some cred.identity_id)
                  (Login.second_factor_ui f.ui nodes states answer.amr))
                u.db)
  unfolding Login.advance_to_second_factor
  submit_flow-second_factor cred answer v u nodes states found accepts needed starts stands =
      let row =
        get_by_identifier-of f.tenant_id looking calm method (value_of "identifier" values) cred
          found in
      let whole =
        looked_up
        ∙ >>=-of _ on_credential (attempt-of lookup row)
        ∙ found_row cred _
        ∙ >>=-of _ (on_answer cred) (attempt-of (asking cred) accepts)
        ∙ answered cred answer v true needed
        ∙ >>=-of (Login.start_all reg _ _ [] []) _ starts
        ∙ announces cred.identity_id answer.amr nodes states u stands in
      (
        Login.announced_result ext reg f cred.identity_id
            (Login.second_factor_ui f.ui nodes states answer.amr),
        ap (λ x. x.0) whole,
        refl,
        refl,
        ap (λ x. x.1.db) whole,
      )
