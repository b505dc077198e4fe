-- ===== src/Http/Sessions.antt =====
-- Who is signed in: `whoami`, a logout, and the settings, which need a session.
use enterprise_kratos.Base.{
  ℕ, suc, ◌==◌, ◌≤◌, Uuid, String, Bool, true, false, Option, none, some, List, ◌≡◌, refl, ap, ◌∙◌,
  ◌≢◌, arith, find, str_eq, if◌then◌else◌, value_of,
}
use enterprise_kratos.Identity.{Session}
use enterprise_kratos.Tenant.{Tenant}
use enterprise_kratos.External.{External}
use enterprise_kratos.Errors.{Error}
use enterprise_kratos.Store.{
  Tables, Env, World, Result, ok, err, panic, M, done, attempted, effects, continue,
}
use enterprise_kratos.Store.Sessions
use enterprise_kratos.Authenticator.Registry.{Registry}
use enterprise_kratos.Settings
use enterprise_kratos.Http.{HttpRequest, Response}
use enterprise_kratos.Http.Decoding.{extract_token, text_map}
use enterprise_kratos.Http.Login.{for_form}
use enterprise_kratos.Http.Answers.{
  answer, answering, refusal, refusal_of, some_or_refusal, given, submit_refusal, for_param,
}
use enterprise_kratos.Http.Accounts

abbrev pub is_200 : Response → Bool
is_200 r = r.status == 200

-- An answer of 200, read backwards through the constructs of a handler.
module _ {r : Response} (good : is_200 r ≡ true) where
  answered-eq-ok {ℓ} :
      {A : Type ℓ} (k : A → M Response) (refused : Error → Response)
      → ((e : Error) → is_200 (refused e) ≡ false)
      → (x : Result A) (v : World) → (continue (answer refused k) (attempted x) v).0 ≡ ok r
      → (a : A) × (x ≡ ok a)
        × ((k a v).0 ≡ ok r)
        × (continue (answer refused k) (attempted x) v ≡ k a v)
  unfolding effects
  answered-eq-ok k refused other (ok a) v h = (a, refl, h, refl)
  answered-eq-ok k refused other (err e) v h = absurd (ground (arith, other e))
  answered-eq-ok k refused other panic v h = cc

  pub answering-eq-ok {ℓ} :
      {A : Type ℓ} (m : M A) (k : A → M Response) (refused : Error → Response) (w : World)
      → ((e : Error) → is_200 (refused e) ≡ false)
      → (answering m refused k w).0 ≡ ok r
      → (a : A) × ((m w).0 ≡ ok a)
        × ((k a (m w).1).0 ≡ ok r)
        × (answering m refused k w ≡ k a (m w).1)
  unfolding answering effects
  answering-eq-ok m k refused w other h = answered-eq-ok k refused other (m w).0 (m w).1 h

  pub some_or_refusal-eq-ok {ℓ} :
      {A : Type ℓ} (k : A → M Response) (refused : Response) (o : Option A) (w : World)
      → is_200 refused ≡ false
      → (some_or_refusal refused k o w).0 ≡ ok r
      → (a : A) × (o ≡ some a) × ((k a w).0 ≡ ok r) × (some_or_refusal refused k o w ≡ k a w)
  unfolding effects
  some_or_refusal-eq-ok k refused none w other h = absurd (ground arith)
  some_or_refusal-eq-ok k refused (some a) w other h = (a, refl, h, refl)

  pub if-eq-ok :
      (b : Bool) (refused : Response) (k : M Response) (w : World)
      → is_200 refused ≡ false
      → ((if b then done refused else k) w).0 ≡ ok r
      → (b ≡ false) × ((k w).0 ≡ ok r) × ((if b then done refused else k) w ≡ k w)
  unfolding effects
  if-eq-ok true refused k w other h = absurd (ground arith)
  if-eq-ok false refused k w other h = (refl, h, refl)

-- A request that ends with the answer 401 and leaves the tables of w.
pub record Refused (w : World) (end : Result Response × World) : Type 0 where
  pub resp : Response
  pub answers : end.0 ≡ ok resp
  pub is_401 : resp.status ≡ 401
  pub unwritten : end.1.db ≡ w.db

-- A session of the tenant that can be used at a time.
abbrev pub IsValid : Uuid → String → ℕ → Tables → Session → Type 0
IsValid tenant token now db s =
    (find (Sessions.has_token tenant token) db.sessions ≡ some s)
    × (s.active ≡ true)
    × (now ≤ s.expires_at)

module _ ⦃env : Env⦄ (ext : External) where
  get_by_token-eq-ok :
      (tenant : Uuid) (token : String) (w : World) (s : Session)
      → (Sessions.get_by_token tenant token w).0 ≡ ok s
      → IsValid tenant token (env.now (suc w.calls)) w.db s
        × ((Sessions.get_by_token tenant token w).1.db ≡ w.db)
  unfolding Sessions.get_by_token Sessions.check_session effects
  get_by_token-eq-ok tenant token w s h = ground arith

  session_refusal-200 : (e : Error) → is_200 (Accounts.session_refusal ext e) ≡ false
  session_refusal-200 e = ground arith

  unread :
      (tenant : Uuid) (token : String) (w : World)
      → (Sessions.get_by_token tenant token w).1.db ≡ w.db
  unfolding Sessions.get_by_token Sessions.check_session effects
  unread tenant token w = ground arith

  answers-same :
      (resp : Response) (w : World) {r : Response}
      → (done resp w).0 ≡ ok r
      → (r ≡ resp) × ((done resp w).1.db ≡ w.db)
  unfolding effects
  answers-same resp w h = (cc, refl)

  -- `whoami` answers 200 only with a token in the request that a session of the tenant has, active
  -- and not expired when it is read; the answer shows this session, and nothing is written.
  pub whoami-Valid :
      (t : Tenant) (r : HttpRequest) (w : World) (resp : Response)
      → (Accounts.whoami ext (record r { tenant = some t }) w).0 ≡ ok resp
      → is_200 resp ≡ true
      → (s : Session) × (str_eq (extract_token r) "" ≡ false)
        × IsValid t.id (extract_token r) (env.now (suc w.calls)) w.db s
        × (resp ≡ Accounts.session_body ext s)
        × ((Accounts.whoami ext (record r { tenant = some t }) w).1.db ≡ w.db)
  unfolding Accounts.whoami
  whoami-Valid t r w resp h good =
      let (given, h1, e1) = if-eq-ok good _ _ _ w refl h in
      let (s, reads, h2, e2) =
        answering-eq-ok good (Sessions.get_by_token t.id (extract_token r)) _ _ w
          session_refusal-200 h1 in
      let (valid, same) = get_by_token-eq-ok t.id (extract_token r) w s reads in
      let (shows, last) = answers-same (Accounts.session_body ext s) _ h2 in
      (s, given, valid, shows, ap (λ x. x.1.db) (e1 ∙ e2) ∙ last ∙ same)

  abbrev unauthenticated : Response
  unauthenticated =
      refusal 401 "authentication required: provide X-Session-Token or Authorization: Bearer"

  with_session-eq-ok :
      (t : Tenant) (r : HttpRequest) (k : Session → M Response) (w : World) (resp : Response)
      → is_200 resp ≡ true
      → (Accounts.with_session ext r t k w).0 ≡ ok resp
      → (s : Session) × IsValid t.id (extract_token r) (env.now (suc w.calls)) w.db s
        × ((Sessions.get_by_token t.id (extract_token r) w).1.db ≡ w.db)
        × ((k s (Sessions.get_by_token t.id (extract_token r) w).1).0 ≡ ok resp)
        × (Accounts.with_session ext r t k w
            ≡ k s (Sessions.get_by_token t.id (extract_token r) w).1)
  unfolding Accounts.with_session
  with_session-eq-ok t r k w resp good h =
      let read = Sessions.get_by_token t.id (extract_token r) in
      let (_, h1, e1) =
        if-eq-ok good (str_eq (extract_token r) "") unauthenticated
          (answering read (refusal_of 401) k) w refl h in
      let (s, reads, h2, e2) = answering-eq-ok good read k (refusal_of 401) w (λ e. refl) h1 in
      let (valid, same) = get_by_token-eq-ok t.id (extract_token r) w s reads in
      (s, valid, same, h2, e1 ∙ e2)

  module _ (reg : Registry) where
    -- What a change of settings rests on: a valid session, a form, and the engine that accepted it
    -- for the session's identity, from the tables as they were.
    pub record Authorized (t : Tenant) (r : HttpRequest) (w : World) (after : Tables) : Type 0 where
      pub session : Session
      pub valid : IsValid t.id (extract_token r) (env.now (suc w.calls)) w.db session
      pub flow_id : Uuid
      pub names : ext.parse_uuid (value_of "flowId" r.params) ≡ some flow_id
      pub form : List (String × String)
      pub then_ : World
      pub unwritten : then_.db ≡ w.db
      pub accepts :
          (Settings.submit_flow reg t.id flow_id session.identity_id
            (value_of "method" form)
            form
            then_).0
          ≡ ok tt
      pub is_after :
          after
          ≡ (Settings.submit_flow reg t.id flow_id session.identity_id
              (value_of "method" form)
              form
              then_).1.db

    unit-ok : {x : Result (Unit {0})} {u : Unit {0}} → x ≡ ok u → x ≡ ok tt
    unit-ok h = h

    submit_refusal-200 : (e : Error) → is_200 (submit_refusal e) ≡ false
    submit_refusal-200 e = ground arith

    -- What `submitFlow` does with a session and a form.
    abbrev submitted : Tenant → Uuid → Session → List (String × String) → M Response
    submitted t id s form = given (value_of "method" form) "method is required" (
        answering (Settings.submit_flow reg t.id id s.identity_id (value_of "method" form) form)
          submit_refusal (λ _. done (Accounts.state_body "success")))

    -- What it does with a session.
    abbrev guarded : Tenant → HttpRequest → Session → M Response
    guarded t r s = for_param ext r "flowId" "invalid flow id" λ id. for_form r (submitted t id s)

    submitted-eq-ok :
        (t : Tenant) (id : Uuid) (s : Session) (form : List (String × String)) (w : World)
        (resp : Response)
        → is_200 resp ≡ true
        → (submitted t id s form w).0 ≡ ok resp
        → ((Settings.submit_flow reg t.id id s.identity_id (value_of "method" form) form w).0
            ≡ ok tt)
          × ((submitted t id s form w).1.db
              ≡ (Settings.submit_flow reg t.id id s.identity_id
                  (value_of "method" form)
                  form
                  w).1.db)
    submitted-eq-ok t id s form w resp good h =
        let m = Settings.submit_flow reg t.id id s.identity_id (value_of "method" form) form in
        let success = λ (_ : Unit {0}). done (Accounts.state_body "success") in
        let (_, h1, e1) =
          if-eq-ok good (str_eq (value_of "method" form) "") (refusal 400 "method is required")
            (answering m submit_refusal success) w refl h in
        let (_, accepts, h2, e2) =
          answering-eq-ok good m success submit_refusal w submit_refusal-200 h1 in
        let (_, last) = answers-same (Accounts.state_body "success") (m w).1 h2 in
        (accepts, ap (λ x. x.1.db) (e1 ∙ e2) ∙ last)

    guarded-eq-ok :
        (t : Tenant) (r : HttpRequest) (s : Session) (w : World) (resp : Response)
        → is_200 resp ≡ true
        → (guarded t r s w).0 ≡ ok resp
        → (id : Uuid) × (form : List (String × String)) × (ext.parse_uuid
              (value_of "flowId" r.params)
            ≡ some id)
          × ((Settings.submit_flow reg t.id id s.identity_id (value_of "method" form) form w).0
              ≡ ok tt)
          × ((guarded t r s w).1.db
              ≡ (Settings.submit_flow reg t.id id s.identity_id
                  (value_of "method" form)
                  form
                  w).1.db)
    guarded-eq-ok t r s w resp good h =
        let (id, names, h1, e1) =
          some_or_refusal-eq-ok good (λ id. for_form r (submitted t id s))
            (refusal 400 "invalid flow id") (ext.parse_uuid (value_of "flowId" r.params)) w refl
            h in
        let (form, _, h2, e2) =
          some_or_refusal-eq-ok good (submitted t id s) (refusal 400 "invalid request body")
            (elim r.body [ none ↦ none | some j ↦ text_map j ]) w refl h1 in
        let (accepts, after) = submitted-eq-ok t id s form w resp good h2 in
        (id, form, names, accepts, ap (λ x. x.1.db) (e1 ∙ e2) ∙ after)

    -- A submission of settings that is answered 200 had a token of a session of the tenant that is
    -- active and not expired, and the settings engine accepted the form for that session's identity
    -- and no other, on the tables as the request found them; what the engine wrote is all that the
    -- request wrote.
    pub settings_submit-Authorized :
        (t : Tenant) (r : HttpRequest) (w : World) (resp : Response)
        → (Accounts.settings_submit ext reg (record r { tenant = some t }) w).0 ≡ ok resp
        → is_200 resp ≡ true
        → Authorized t r w (Accounts.settings_submit ext reg (record r { tenant = some t }) w).1.db
    unfolding Accounts.settings_submit Accounts.with_session
    settings_submit-Authorized t r w resp h good =
        let (s, valid, same, h2, e2) = with_session-eq-ok t r (guarded t r) w resp good h in
        let w1 = (Sessions.get_by_token t.id (extract_token r) w).1 in
        let (id, form, names, accepts, e3) = guarded-eq-ok t r s w1 resp good h2 in
        record {
          session = s;
          valid = valid;
          flow_id = id;
          names = names;
          form = form;
          then_ = w1;
          unwritten = same;
          accepts = accepts;
          is_after = ap (λ x. x.1.db) e2 ∙ e3;
        }

  never_panics :
      (tenant : Uuid) (token : String) (w : World)
      → (Sessions.get_by_token tenant token w).0 ≢ panic
  unfolding Sessions.get_by_token Sessions.check_session effects
  never_panics tenant token w h = absurd (ground arith)

  answered-Refused :
      (k : Session → M Response) (x : Result Session) (v : World)
      → ((s : Session) → x ≢ ok s)
      → x ≢ panic
      → Refused v (continue (answer (refusal_of 401) k) (attempted x) v)
  unfolding effects
  answered-Refused k (ok s) v missing calm = absurd (missing s refl)
  answered-Refused k (err e) v missing calm = record {
    resp = _;
    answers = refl;
    is_401 = ground arith;
    unwritten = refl;
  }
  answered-Refused k panic v missing calm = absurd (calm refl)

  with_session-Refused :
      (t : Tenant) (r : HttpRequest) (k : Session → M Response) (w : World)
      → ((s : Session) → ¬ IsValid t.id (extract_token r) (env.now (suc w.calls)) w.db s)
      → Refused w (Accounts.with_session ext r t k w)
  unfolding Accounts.with_session answering effects
  with_session-Refused t r k w missing = by_token (str_eq (extract_token r) "")
    where
      read : M Session
      read = Sessions.get_by_token t.id (extract_token r)

      by_token :
          (b : Bool)
          → Refused w ((if b then done unauthenticated else answering read (refusal_of 401) k) w)
      by_token true = record {
        resp = unauthenticated;
        answers = refl;
        is_401 = refl;
        unwritten = refl;
      }
      by_token false =
          let r1 =
            answered-Refused k (read w).0 (read w).1
              (λ s g. missing s (get_by_token-eq-ok t.id (extract_token r) w s g).0)
              (never_panics t.id (extract_token r) w) in
          record {
            resp = r1.resp;
            answers = r1.answers;
            is_401 = r1.is_401;
            unwritten = r1.unwritten ∙ unread t.id (extract_token r) w;
          }

  -- In every environment, also when calls fail: where the request's token is of no session of the
  -- tenant that is active and not expired when it is read, or the request has none, a request to
  -- begin a flow of settings and a request to submit one are both answered 401, and nothing is
  -- written.
  pub settings-Refused :
      (reg : Registry) (t : Tenant) (r : HttpRequest) (w : World)
      → ((s : Session) → ¬ IsValid t.id (extract_token r) (env.now (suc w.calls)) w.db s)
      → Refused w (Accounts.settings_init ext reg (record r { tenant = some t }) w)
        × Refused w (Accounts.settings_submit ext reg (record r { tenant = some t }) w)
  unfolding Accounts.settings_init Accounts.settings_submit
  settings-Refused reg t r w missing = (
    with_session-Refused t (record r { tenant = some t }) _ w missing,
    with_session-Refused t (record r { tenant = some t }) _ w missing,
  )
