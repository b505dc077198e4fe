-- ===== src/Store/Frame.antt =====
-- What a computation keeps: `Keeps S m` says that whatever `m` writes, also before an error, stands
-- in the relation `S` to the tables that it found. One rule for each construct of the monad.
use enterprise_kratos.Base.{
  ◌∙◌, suc, String, Bool, true, false, Option, none, some, if◌then◌else◌, ◌≡◌, refl,
}
use enterprise_kratos.Errors.{Error}
use enterprise_kratos.Store.{
  Tables, Env, World, effects, Result, ok, err, panic, M, done, fail, panics, continue, attempt,
  ignore, found_or, run, query, time_now, next_uuid, generate_token, drawn, Fault, lost, late,
  after, ◌>>=◌, ◌>>◌,
}

pub record IsOrder (S : Tables → Tables → Type 0) : Type 0 where
  pub same : (db : Tables) → S db db
  pub then_ : {a b c : Tables} → S a b → S b c → S a c

pub record Keeps {ℓ} {A : Type ℓ} (S : Tables → Tables → Type 0) (m : M A) : Type 0 where
  pub keeps : (w : World) → S w.db (m w).1.db

module _ {S : Tables → Tables → Type 0} (o : IsOrder S) where
  pub Keeps-done {ℓ} : {A : Type ℓ} (a : A) → Keeps S (done a)
  unfolding effects
  Keeps-done a = record { keeps = λ w. o.same w.db }

  pub Keeps-fail {ℓ} : {A : Type ℓ} (e : Error) → Keeps {A = A} S (fail e)
  unfolding effects
  Keeps-fail e = record { keeps = λ w. o.same w.db }

  continue-keeps {ℓ κ} :
      {A : Type ℓ} {B : Type κ} (f : A → M B)
      → ((a : A) → Keeps S (f a))
      → (r : Result A) (w : World) → S w.db (continue f r w).1.db
  unfolding effects
  continue-keeps f h (ok a) w = (h a).keeps w
  continue-keeps f h (err e) w = o.same w.db
  continue-keeps f h panic w = o.same w.db

  pub Keeps->>= {ℓ κ} :
      {A : Type ℓ} {B : Type κ} {m : M A} {f : A → M B}
      → Keeps S m
      → ((a : A) → Keeps S (f a))
      → Keeps S (m >>= f)
  unfolding effects
  Keeps->>= {m} {f} k h = record {
    keeps = λ w. o.then_ (k.keeps w) (continue-keeps f h (m w).0 (m w).1);
  }

  continue-keeps_when {ℓ κ ι} :
      {A : Type ℓ} {B : Type κ} (P : A → Type ι) (f : A → M B)
      → ((a : A) → P a → Keeps S (f a))
      → (r : Result A) (w : World) → ((a : A) → r ≡ ok a → P a)
      → S w.db (continue f r w).1.db
  unfolding effects
  continue-keeps_when P f h (ok a) w q = (h a (q a refl)).keeps w
  continue-keeps_when P f h (err e) w q = o.same w.db
  continue-keeps_when P f h panic w q = o.same w.db

  -- The rest may rely on what holds of every value that `m` answers.
  pub Keeps->>=_when {ℓ κ ι} :
      {A : Type ℓ} {B : Type κ} {m : M A} {f : A → M B} (P : A → Type ι)
      → Keeps S m
      → ((w : World) (a : A) → (m w).0 ≡ ok a → P a)
      → ((a : A) → P a → Keeps S (f a))
      → Keeps S (m >>= f)
  unfolding effects
  Keeps->>=_when {m} {f} P k q h = record {
    keeps = λ w. o.then_ (k.keeps w) (continue-keeps_when P f h (m w).0 (m w).1 (q w));
  }

  pub Keeps->> {ℓ} :
      {B : Type ℓ} {m : M (Unit {0})} {k : M B} → Keeps S m → Keeps S k → Keeps S (m >> k)
  unfolding effects
  Keeps->> k h = Keeps->>= k (λ _. h)

  pub Keeps-panics {ℓ} : {A : Type ℓ} → Keeps {A = A} S panics
  unfolding effects
  Keeps-panics = record { keeps = λ w. o.same w.db }

  pub Keeps-attempt {ℓ} : {A : Type ℓ} {m : M A} → Keeps S m → Keeps S (attempt m)
  unfolding effects
  Keeps-attempt k = record { keeps = λ w. k.keeps w }

  pub Keeps-ignore {ℓ} : {A : Type ℓ} {m : M A} → Keeps S m → Keeps S (ignore m)
  unfolding effects
  Keeps-ignore k = record { keeps = λ w. k.keeps w }

  pub Keeps-found_or {ℓ} : {A : Type ℓ} (e : Error) (a : Option A) → Keeps S (found_or e a)
  unfolding effects
  Keeps-found_or e none = Keeps-fail e
  Keeps-found_or e (some a) = Keeps-done a

  pub Keeps-if {ℓ} :
      {A : Type ℓ} {m k : M A} (b : Bool) → Keeps S m → Keeps S k → Keeps S (if b then m else k)
  Keeps-if true p q = p
  Keeps-if false p q = q

  after-keeps {ℓ} :
      {A : Type ℓ} (fault : Option Fault) (a : A) (db : Tables) (w : World)
      → S w.db db
      → S w.db (after fault a db w).1.db
  unfolding effects
  after-keeps none a db w h = h
  after-keeps (some lost) a db w h = o.same w.db
  after-keeps (some late) a db w h = h

  module _ ⦃env : Env⦄ where
    pub Keeps-run {ℓ} :
        {A : Type ℓ} (f : Tables → A) (g : Tables → Tables)
        → ((db : Tables) → S db (g db))
        → Keeps S (run f g)
    unfolding effects
    Keeps-run f g h = record {
      keeps = λ w. after-keeps (env.fault w.calls) (f w.db) (g w.db) w (h w.db);
    }

    pub Keeps-query {ℓ} : {A : Type ℓ} (f : Tables → A) → Keeps S (query f)
    unfolding effects
    Keeps-query f = Keeps-run f (λ db. db) o.same

    pub Keeps-time_now : Keeps S time_now
    unfolding effects
    Keeps-time_now = record { keeps = λ w. o.same w.db }

    pub Keeps-next_uuid : Keeps S next_uuid
    unfolding effects
    Keeps-next_uuid = record { keeps = λ w. o.same w.db }

    drawn-keeps : (s : Option String) (w : World) → S w.db (drawn s w).1.db
    unfolding effects
    drawn-keeps none w = o.same w.db
    drawn-keeps (some s) w = o.same w.db

    pub Keeps-generate_token : Keeps S generate_token
    unfolding effects
    Keeps-generate_token = record {
      keeps = λ w. drawn-keeps (env.random_token w.calls) (record w { calls = suc w.calls });
    }

pub ruleset keeping = (
  Keeps-done, Keeps-fail, Keeps-panics, Keeps->>=, Keeps->>, Keeps-attempt, Keeps-ignore,
  Keeps-found_or, Keeps-if, Keeps-query, Keeps-time_now, Keeps-next_uuid, Keeps-generate_token,
)

-- Nothing is written.
abbrev pub Unwritten : Tables → Tables → Type 0
Unwritten a b = b ≡ a

pub Unwritten-IsOrder : IsOrder Unwritten
Unwritten-IsOrder = record { same = λ db. refl; then_ = λ p q. q ∙ p }
