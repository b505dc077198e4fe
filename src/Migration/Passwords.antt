-- ===== src/Migration/Passwords.antt =====
-- The passwords that a migration brings along.
use enterprise_kratos.Base.{
  suc, Uuid, String, true, false, some, none, List, [], ◌∷◌, ◌++◌, ◌≡◌, refl, ap, ◌∙◌, arith, find,
  find-insert, find-satisfies, any, any_of_find, value_of, contains_str, str_eq, is_empty, null,
}
use enterprise_kratos.Flow.{Flow}
use enterprise_kratos.Identity.{Credential}
use enterprise_kratos.External.{External}
use enterprise_kratos.Store.{Env, World, ok, effects}
use enterprise_kratos.Store.Calm.{IsCalm, after_call}
use enterprise_kratos.Store.Flows
use enterprise_kratos.Store.Identities.{has_identifier, new_credential, credential_refused}
use enterprise_kratos.Authenticator.{AuthResult, CompleteFlowRequest}
use enterprise_kratos.Authenticator.Registry.{Registry}
use enterprise_kratos.Authenticator.Password
use enterprise_kratos.Authenticator.Password.{Bcrypt, same, decode_config}
use enterprise_kratos.Login
use enterprise_kratos.Login.FirstFactor.{AwaitsFirst, policy_in, submit_flow-accepted}
use enterprise_kratos.Migration.Kratos.{KratosCredential}
use enterprise_kratos.Migration.Accounts

-- A password credential of Kratos that the migration does not skip, for one of its identifiers.
pub record Migratable (tenant : Uuid) (kc : KratosCredential) (identifier hash : String)
    : Type 0 where
  pub known : contains_str kc.identifiers identifier ≡ true
  pub hashed : decode_config kc.config ≡ some hash
  pub not_empty : str_eq hash "" ≡ false

module _ (bcrypt : Bcrypt) (q : CompleteFlowRequest) (hash : String) (v : World) where
  abbrev accepted : AuthResult
  accepted = record {
    identity_id = q.identity_id;
    aal = "aal1";
    amr = "pwd" ∷ [];
    credential_config = null;
  }

  accepts :
      str_eq (value_of "password" q.values) "" ≡ false
      → decode_config q.credential_config ≡ some hash
      → bcrypt.compare hash (value_of "password" q.values) ≡ same
      → Password.complete_flow bcrypt q v ≡ (ok accepted, v)
  unfolding Password.complete_flow Password.or_error Password.compared effects
  accepts typed config matches = ground arith

listed : (names : List String) (n : String) → contains_str names n ≡ true → is_empty names ≡ false
listed [] n h = ground arith
listed (x ∷ names) n h = refl

module _ ⦃env : Env⦄ (tenant identity : Uuid) (kc : KratosCredential) (identifier hash : String)
    (before : World) (calm : IsCalm env) (good : Migratable tenant kc identifier hash) where
  abbrev migrated : Credential
  migrated =
      new_credential (env.fresh_uuid before.calls) tenant identity "password" kc.identifiers
        kc.config

  not_skipped : is_empty kc.identifiers ≡ false
  not_skipped = listed kc.identifiers identifier good.known

  runs :
      credential_refused migrated before.db ≡ false
      → Accounts.migrate_password_cred tenant identity kc before ≡ (
        ok tt,
        after_call
            (record (before.db) { credentials = before.db.credentials ++ migrated ∷ [] })
            before,
      )
  unfolding Accounts.migrate_password_cred Accounts.require_hash Accounts.insert_credential effects
  runs free = ground (arith, calm before.calls, good.hashed, good.not_empty, not_skipped)

  own : has_identifier tenant "password" identifier migrated ≡ true
  own = ground (arith, good.known)

  -- Where the database does not fail: a password credential of Kratos, with a hash and with the
  -- submitted identifier among its identifiers, is migrated to an identity of the tenant, no key or
  -- password credential with that identifier being in the way. Then, in every state of the database
  -- that has the credentials that the migration left, a pending login flow of the tenant whose
  -- policy allows passwords and needs no second factor is completed for that identity, at the level
  -- aal1, by every password that bcrypt matches with the hash of Kratos.
  pub migrate_password_cred-login :
      (bcrypt : Bcrypt) (ext : External) (reg : Registry) (id : Uuid)
      (values : List (String × String)) (w : World) (f : Flow)
      → credential_refused migrated before.db ≡ false
      → find (has_identifier tenant "password" identifier) before.db.credentials ≡ none
      → w.db.credentials
        ≡ (Accounts.migrate_password_cred tenant identity kc before).1.db.credentials
      → AwaitsFirst
          (env.now (suc w.calls))
          reg
          tenant
          id
          "password"
          values
          w.db
          f
          (Password.adapter bcrypt)
      → value_of "identifier" values ≡ identifier
      → str_eq (value_of "password" values) "" ≡ false
      → bcrypt.compare hash (value_of "password" values) ≡ same
      → Login.needs_second_factor (policy_in tenant w.db) ≡ false
      → (r : Login.SubmitResult) × ((Login.submit_flow ext reg tenant id "password" values w).0
          ≡ ok r)
        × (r.completed ≡ true)
        × (r.identity_id ≡ identity)
        × (r.aal ≡ "aal1")
  unfolding Password.adapter
  migrate_password_cred-login bcrypt ext reg id values w f free vacant left awaits names typed
        matches single =
      let flow_tenant : (f.tenant_id ≡ tenant) =
        ground (arith, find-satisfies (Flows.is_flow tenant id) w.db.flows f awaits.stands) in
      let flow_id : (f.id ≡ id) =
        ground (arith, find-satisfies (Flows.is_flow tenant id) w.db.flows f awaits.stands) in
      let stored = left ∙ ap (λ x. x.1.db.credentials) (runs free) in
      let found =
        ap (λ t. find (has_identifier t "password" (value_of "identifier" values)) w.db.credentials)
          flow_tenant
        ∙ ap (λ n. find (has_identifier tenant "password" n) w.db.credentials) names
        ∙ ap (find (has_identifier tenant "password" identifier)) stored
        ∙ find-insert (has_identifier tenant "password" identifier) migrated before.db.credentials
            vacant own in
      let here = after_call w.db (after_call w.db (after_call w.db w)) in
      let request = Login.factor_request f identity "password" values kc.config in
      let flow_stands =
        ap (λ t. any (Flows.is_flow t f.id) w.db.flows) flow_tenant
        ∙ ap (λ i. any (Flows.is_flow tenant i) w.db.flows) flow_id
        ∙ any_of_find (Flows.is_flow tenant id) w.db.flows f awaits.stands in
      let (r, answers, done, who, aal, _) =
        submit_flow-accepted ext reg tenant id "password" values w f (Password.adapter bcrypt) calm
          awaits migrated (accepted bcrypt request hash here) here found
          (accepts bcrypt request hash here typed good.hashed matches) flow_stands single in
      (r, answers, done, who, aal)
