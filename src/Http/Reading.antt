-- ===== src/Http/Reading.antt =====
-- The handlers that show a flow: `getFlow` of the packages login, registration, settings, recovery
-- and verification.
use enterprise_kratos.Base.{
  ℕ, suc, Uuid, Bool, true, false, Option, none, some, ◌≡◌, refl, sym, subst, ap, ◌∙◌, ◌&&◌, arith,
  find, str_eq, if◌then◌else◌, value_of, ltb,
}
use enterprise_kratos.Flow.{Flow, is_pending, expired}
use enterprise_kratos.Tenant.{Tenant}
use enterprise_kratos.External.{External}
use enterprise_kratos.Errors.{Error, flow_not_found, flow_expired}
use enterprise_kratos.Store.{Tables, Env, World, Result, ok, err, M, done, attempt, effects}
use enterprise_kratos.Store.Calm.{IsCalm, after_call, >>=-of, attempt-of}
use enterprise_kratos.Store.Flows
use enterprise_kratos.Authenticator.Registry.{Registry}
use enterprise_kratos.Login as LoginEngine
use enterprise_kratos.Registration as RegistrationEngine
use enterprise_kratos.Recovery
use enterprise_kratos.Verification
use enterprise_kratos.Settings
use enterprise_kratos.Http.{HttpRequest, Response}
use enterprise_kratos.Http.Answers.{answer, answering, reading_refusal, refusal, some_or_refusal}
use enterprise_kratos.Http.Accounts
use enterprise_kratos.Http.Login as Pages

-- A flow whose time is over before it came to an end.
abbrev pub is_over : Flow → ℕ → Bool
is_over f now = is_pending f.state && ltb f.expires_at now

abbrev pub row_status : ℕ → Option Flow → ℕ
row_status now none = 404
row_status now (some f) = if is_over f now then 410 else 200

-- The status that a URL with this ID of a flow is answered with.
abbrev pub status_of : Uuid → ℕ → Tables → Option Uuid → ℕ
status_of tenant now db none = 400
status_of tenant now db (some id) = row_status now (find (Flows.is_flow tenant id) db.flows)

abbrev pub row_tables : Uuid → Uuid → ℕ → Tables → Option Flow → Tables
row_tables tenant id now db none = db
row_tables tenant id now db (some f) =
    if is_over f now then Flows.with_update tenant id (Flows.set_state expired) db else db

-- And the tables that it leaves: a flow whose time is over is marked.
abbrev pub tables_of : Uuid → ℕ → Tables → Option Uuid → Tables
tables_of tenant now db none = db
tables_of tenant now db (some id) =
    row_tables tenant id now db (find (Flows.is_flow tenant id) db.flows)

-- A request that ends so.
pub record Shown (tenant : Uuid) (now : ℕ) (db : Tables) (id : Option Uuid)
    (end : Result Response × World) : Type 0 where
  pub resp : Response
  pub answers : end.0 ≡ ok resp
  pub status : resp.status ≡ status_of tenant now db id
  pub tables : end.1.db ≡ tables_of tenant now db id

answering-of {ℓ} :
    {A : Type ℓ} (m : M A) (refused : Error → Response) (k : A → M Response) {w v : World} {a : A}
    → m w ≡ (ok a, v)
    → answering m refused k w ≡ k a v
unfolding answering effects
answering-of m refused k h = >>=-of (attempt m) (answer refused k) (attempt-of m h)

answering-refused {ℓ} :
    {A : Type ℓ} (m : M A) (refused : Error → Response) (k : A → M Response) {w v : World}
    {e : Error}
    → m w ≡ (err e, v)
    → answering m refused k w ≡ (ok (refused e), v)
unfolding answering effects
answering-refused m refused k h = >>=-of (attempt m) (answer refused k) (attempt-of m h)

module _ ⦃env : Env⦄ (calm : IsCalm env) (tenant id : Uuid) (w : World) where
  get-missing :
      find (Flows.is_flow tenant id) w.db.flows ≡ none
      → Flows.get tenant id w ≡ (err flow_not_found, after_call w.db w)
  unfolding Flows.get Flows.check_expiry effects
  get-missing h = ground (arith, calm w.calls)

  get-over :
      (f : Flow)
      → find (Flows.is_flow tenant id) w.db.flows ≡ some f
      → is_over f (env.now (suc w.calls)) ≡ true
      → Flows.get tenant id w ≡ (
        err flow_expired,
        after_call (Flows.with_update tenant id (Flows.set_state expired) w.db) (after_call w.db w),
      )
  unfolding Flows.get Flows.check_expiry Flows.update_state effects
  get-over f h over = ground (arith, calm w.calls, calm (suc w.calls))

  get-shown :
      (f : Flow)
      → find (Flows.is_flow tenant id) w.db.flows ≡ some f
      → is_over f (env.now (suc w.calls)) ≡ false
      → Flows.get tenant id w ≡ (ok f, after_call w.db w)
  unfolding Flows.get Flows.check_expiry effects
  get-shown f h over = ground (arith, calm w.calls)

module _ ⦃env : Env⦄ (calm : IsCalm env) (tenant : Uuid) (w : World) (shows : Flow → Response)
    (good : (f : Flow) → (shows f).status ≡ 200) where
  abbrev now : ℕ
  now = env.now (suc w.calls)

  abbrev reading : Uuid → M Response
  reading id = answering (Flows.get tenant id) reading_refusal (λ f. done (shows f))

  expiry-Shown :
      (id : Uuid) (f : Flow)
      → find (Flows.is_flow tenant id) w.db.flows ≡ some f
      → (b : Bool) → is_over f now ≡ b
      → Shown tenant now w.db (some id) (reading id w)
  unfolding effects
  expiry-Shown id f h true over =
      subst (Shown tenant now w.db (some id))
        (sym (answering-refused _ _ _ (get-over calm tenant id w f h over)))
        (record {
          resp = _;
          answers = refl;
          status = sym (ap (row_status now) h ∙ ap (λ b. if b then 410 else 200) over);
          tables = sym (
              ap (row_tables tenant id now w.db) h
              ∙ ap
                  (λ b.
                    if b then Flows.with_update tenant id (Flows.set_state expired) w.db else w.db)
                  over);
        })
  expiry-Shown id f h false over =
      subst (Shown tenant now w.db (some id))
        (sym (answering-of _ _ _ (get-shown calm tenant id w f h over)))
        (record {
          resp = shows f;
          answers = refl;
          status = good f ∙ sym (ap (row_status now) h ∙ ap (λ b. if b then 410 else 200) over);
          tables = sym (
              ap (row_tables tenant id now w.db) h
              ∙ ap
                  (λ b.
                    if b then Flows.with_update tenant id (Flows.set_state expired) w.db else w.db)
                  over);
        })

  row-Shown :
      (id : Uuid) (o : Option Flow)
      → find (Flows.is_flow tenant id) w.db.flows ≡ o
      → Shown tenant now w.db (some id) (reading id w)
  row-Shown id none h =
      subst (Shown tenant now w.db (some id))
        (sym (answering-refused _ _ _ (get-missing calm tenant id w h)))
        (record {
          resp = _;
          answers = refl;
          status = sym (ap (row_status now) h);
          tables = sym (ap (row_tables tenant id now w.db) h);
        })
  row-Shown id (some f) h = expiry-Shown id f h (is_over f now) refl

  id-Shown :
      (o : Option Uuid)
      → Shown tenant now w.db o (some_or_refusal (refusal 400 "invalid flow id") reading o w)
  unfolding effects
  id-Shown none = record { resp = _; answers = refl; status = refl; tables = refl }
  id-Shown (some id) = row-Shown id _ refl

  tokenless-Shown :
      (o : Option Uuid) (k : Uuid → M Response) (b : Bool)
      → b ≡ true
      → Shown tenant now w.db o (
          some_or_refusal
            (refusal 400 "invalid flow id")
            (λ id. if b then reading id else k id)
            o
            w)
  tokenless-Shown o k true h = id-Shown o
  tokenless-Shown o k false h = absurd cc

module _ ⦃env : Env⦄ (ext : External) (reg : Registry) where
  -- Where the database does not fail, a request for a flow of a tenant, without a token in its
  -- query, is answered by the handlers of the logins, registrations, settings, recoveries and
  -- verifications alike: 400 if the ID in the URL is no UUID, 404 if the tenant has no flow of this
  -- ID, 410 if the flow is pending and its time is over, and 200 otherwise, whatever the type of
  -- the flow is. A flow whose time is over is marked as expired, and nothing else is written.
  pub gets-Shown :
      IsCalm env
      → (t : Tenant) (r : HttpRequest) (w : World) → str_eq (value_of "token" r.query) "" ≡ true
      → let request = record r { tenant = some t } in
        let Ends =
          Shown t.id (env.now (suc w.calls)) w.db (ext.parse_uuid (value_of "flowId" r.params)) in
        Ends (Pages.login_get ext reg request w)
        × Ends (Pages.registration_get ext reg request w)
        × Ends (Accounts.settings_get ext reg request w)
        × Ends (Accounts.recovery_get ext request w)
        × Ends (Accounts.verification_get ext request w)
  unfolding Pages.login_get Pages.registration_get Accounts.settings_get Accounts.recovery_get
      Accounts.verification_get LoginEngine.get_flow RegistrationEngine.get_flow Settings.get_flow
      Recovery.get_flow Verification.get_flow
  gets-Shown calm t r w no_token =
      let id = ext.parse_uuid (value_of "flowId" r.params) in
      (
        id-Shown calm t.id w _ (λ f. refl) id,
        id-Shown calm t.id w _ (λ f. refl) id,
        id-Shown calm t.id w _ (λ f. refl) id,
        tokenless-Shown calm t.id w _ (λ f. refl) id _ _ no_token,
        tokenless-Shown calm t.id w _ (λ f. refl) id _ _ no_token,
      )
