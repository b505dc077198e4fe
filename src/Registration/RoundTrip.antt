-- ===== src/Registration/RoundTrip.antt =====
-- A registration with a password, and the login that it makes possible.
use enterprise_kratos.Base.{
  ℕ, suc, Uuid, uuid_nil, String, true, false, some, inl, inr, List, [], ◌∷◌, ◌≡◌, ◌⊎◌, sym, ap,
  ◌∙◌, arith, find, find-insert, find-satisfies, any, any_of_find, value_of, Json, eq_refl,
}
use enterprise_kratos.Flow.{Flow}
use enterprise_kratos.Errors.{Error}
use enterprise_kratos.External.{External}
use enterprise_kratos.Store.{Tables, Env, World, ok, effects}
use enterprise_kratos.Store.Calm.{IsCalm, after_call}
use enterprise_kratos.Store.Frame.{Unwritten}
use enterprise_kratos.Store.Flows
use enterprise_kratos.Store.Identities.{has_identifier, new_credential}
use enterprise_kratos.Authenticator.{Authenticator, EnrollRequest, EnrollResult}
use enterprise_kratos.Authenticator.Keeping.{EachKeeps}
use enterprise_kratos.Authenticator.Registry.{Registry}
use enterprise_kratos.Authenticator.Password
use enterprise_kratos.Authenticator.Password.{Bcrypt, same}
use enterprise_kratos.Authenticator.Password.Laws.{accepted, enroll-accepts}
use enterprise_kratos.Traits.{extract_identifier}
use enterprise_kratos.Registration
use enterprise_kratos.Registration.Soundness.{Registered, submit_flow-Registered}
use enterprise_kratos.Login
use enterprise_kratos.Login.FirstFactor.{AwaitsFirst, policy_in, submit_flow-accepted}

-- There is one authenticator of a name.
one_found : (x : Error ⊎ Authenticator) (a b : Authenticator) → x ≡ inr a → x ≡ inr b → a ≡ b
one_found x a b p q = ap (λ y. elim y [ inl _ ↦ a | inr c ↦ c ]) (sym p ∙ q)

named_password :
    (bcrypt : Bcrypt) (r : EnrollRequest) (w : World) (e : EnrollResult)
    → (Password.enroll bcrypt r w).0 ≡ ok e
    → (e.credential_type ≡ "password") × (e.identifiers ≡ [])
unfolding Password.enroll Password.hashed Password.or_error effects
named_password bcrypt r w e h = ground arith

-- The identifier of a credential without identifiers of its own.
own :
    (tenant id identity : Uuid) (kind identifier : String) (names : List String) (config : Json)
    → kind ≡ "password"
    → names ≡ []
    → has_identifier tenant "password" identifier (
        new_credential id tenant identity kind
          (Registration.identifiers_or identifier names)
          config)
      ≡ true
own tenant id identity kind identifier names config is_password none_given =
    ap
      (λ k.
        has_identifier tenant "password" identifier (
          new_credential id tenant identity k (Registration.identifiers_or identifier names)
            config))
      is_password
    ∙ ap
        (λ ns. has_identifier tenant "password" identifier (
          new_credential id tenant identity "password" (Registration.identifiers_or identifier ns)
            config))
        none_given
    ∙ alone
  where
    alone :
        has_identifier tenant "password" identifier
          (new_credential id tenant identity "password" (identifier ∷ []) config)
        ≡ true
    alone = ground (arith, eq_refl identifier)

-- A login finds the credential of a registration by the identifier that it was made for.
login_finds :
    (ext : External) (reg : Registry) (tenant : Uuid) {reg_id : Uuid}
    {values : List (String × String)} {db after : Tables} {r : Registration.SubmitResult}
    (made : Registered ext reg tenant reg_id "password" values db after r)
    → (made.enrolled.credential_type ≡ "password") × (made.enrolled.identifiers ≡ [])
    → find (has_identifier tenant "password" (extract_identifier ext values)) after.credentials
      ≡ some made.account.cred
login_finds ext reg tenant {values = values} {db} made (kind, names) =
    let identifier = extract_identifier ext values in
    let has = has_identifier tenant "password" identifier in
    let account = made.account in
    let e = made.enrolled in
    ap (find has) account.credentials
    ∙ find-insert has account.cred db.credentials made.free (
        ap has account.credential
        ∙ own tenant account.cred.id account.identity.id e.credential_type identifier e.identifiers
            e.credential_config kind names)

module _ ⦃env : Env⦄ (ext : External) (reg : Registry) (bcrypt : Bcrypt)
    (lawful : (n : ℕ) (plain hash : String)
      → bcrypt.generate Password.cost n plain ≡ some hash
      → bcrypt.compare hash plain ≡ same)
    (calm : IsCalm env) (each : EachKeeps Unwritten reg) (tenant : Uuid) where
  -- Where the database does not fail, with authenticators that write nothing themselves, the
  -- password authenticator among them and its bcrypt one whose hashes match the passwords that they
  -- were generated from: a registration with a password that answered without an error makes a
  -- login possible. In every state of the database that has the credentials that the registration
  -- left, a pending flow of the tenant that has not expired and waits for its first factor, under a
  -- policy that allows passwords and needs no second factor, is completed as a login by the
  -- registered identifier and the same password, for the identity that the registration answered,
  -- at the level aal1.
  pub registration-login :
      (reg_id : Uuid) (values : List (String × String)) (before : World)
      (r : Registration.SubmitResult)
      → (Registration.submit_flow ext reg tenant reg_id "password" values before).0 ≡ ok r
      → (id : Uuid) (entered : List (String × String)) (w : World) (f : Flow)
      → w.db.credentials
        ≡ (Registration.submit_flow ext reg tenant reg_id "password" values before).1.db.credentials
      → AwaitsFirst
          (env.now (suc w.calls))
          reg
          tenant
          id
          "password"
          entered
          w.db
          f
          (Password.adapter bcrypt)
      → value_of "identifier" entered ≡ extract_identifier ext values
      → value_of "password" entered ≡ value_of "password" values
      → Login.needs_second_factor (policy_in tenant w.db) ≡ false
      → (result : Login.SubmitResult) × ((Login.submit_flow ext reg tenant id "password" entered
            w).0
          ≡ ok result)
        × (result.completed ≡ true)
        × (result.identity_id ≡ r.identity_id)
        × (result.aal ≡ "aal1")
  unfolding Password.adapter
  registration-login reg_id values before r answers id entered w f left awaits names typed single =
      let made =
        submit_flow-Registered ext reg each tenant reg_id "password" values before r answers in
      let asked : EnrollRequest = record {
        tenant_id = tenant;
        identity_id = uuid_nil;
        values = values;
      } in
      let enrolls =
        ap (λ b. (b.enroll asked made.asked_in).0)
          (sym (one_found _ made.a (Password.adapter bcrypt) made.registered awaits.registered))
        ∙ made.enrolls in
      let named = named_password bcrypt asked made.asked_in made.enrolled enrolls in
      let flow_tenant : (f.tenant_id ≡ tenant) =
        ground (arith, find-satisfies (Flows.is_flow tenant id) w.db.flows f awaits.stands) in
      let flow_id : (f.id ≡ id) =
        ground (arith, find-satisfies (Flows.is_flow tenant id) w.db.flows f awaits.stands) in
      let cred = made.account.cred in
      let found =
        ap
          (λ t. find (has_identifier t "password" (value_of "identifier" entered)) w.db.credentials)
          flow_tenant
        ∙ ap (λ n. find (has_identifier tenant "password" n) w.db.credentials) names
        ∙ ap (find (has_identifier tenant "password" (extract_identifier ext values))) left
        ∙ login_finds ext reg tenant made named in
      let here = after_call w.db (after_call w.db (after_call w.db w)) in
      let request = Login.factor_request f cred.identity_id "password" entered cred.config in
      let accepts =
        enroll-accepts bcrypt lawful asked made.asked_in made.enrolled request here enrolls typed
          (ap (λ c. c.config) made.account.credential) in
      let flow_stands =
        ap (λ t. any (Flows.is_flow t f.id) w.db.flows) flow_tenant
        ∙ ap (λ i. any (Flows.is_flow tenant i) w.db.flows) flow_id
        ∙ any_of_find (Flows.is_flow tenant id) w.db.flows f awaits.stands in
      let (result, ends, done, who, aal, _) =
        submit_flow-accepted ext reg tenant id "password" entered w f (Password.adapter bcrypt) calm
          awaits cred (accepted request) here found accepts flow_stands single in
      (
        result,
        ends,
        done,
        who ∙ ap (λ c. c.identity_id) made.account.credential ∙ sym made.account.is_for,
        aal,
      )
