-- ===== src/Store.antt =====
-- The database and the calls of it: db/migrations/00001_init_schema.sql, seen through the queries
-- of the stores, and the effects of a Go handler as a state monad.
--
-- The tables are lists of rows. What happens outside of the code comes from an environment, which
-- every theorem ranges over: it is asked by the number of the call, so that the time can move and
-- any call can fail between two steps. A call that fails is `lost` or `late`: lost before it took
-- effect, or reported as failed (also by a row that does not decode) though it took effect.
-- Nothing runs in a transaction, so an error keeps what was written before it.
pub mod Frame
pub mod Writes
pub mod Lookup
pub mod Outcome
pub mod Calm
pub mod Keeping
pub mod Flows
pub mod Identities
pub mod Sessions
pub mod Policies
pub mod Schemas
pub mod Providers
pub mod Tenants
use enterprise_kratos.Base.{
  ℕ, suc, Bool, true, false, String, Option, none, some, List, Uuid, ◌⊎◌, inl, inr,
}
use enterprise_kratos.Flow.{Flow}
use enterprise_kratos.Policy.{FlowPolicy}
use enterprise_kratos.Identity.{Identity, Credential, Session, Schema}
use enterprise_kratos.Sso.{Provider}
use enterprise_kratos.Tenant.{Tenant}
use enterprise_kratos.Errors.{Error, db_failure, random_failure}

pub record Tables : Type 0 where
  pub flows : List Flow
  pub identities : List Identity
  pub credentials : List Credential
  pub sessions : List Session
  pub policies : List (Uuid × FlowPolicy)
  pub schemas : List Schema
  pub providers : List Provider
  pub tenants : List Tenant

pub data Fault : Type 0 where
  lost late : Fault

pub record Env : Type 0 where
  pub now : ℕ → ℕ
  pub fault : ℕ → Option Fault
  pub fresh_uuid : ℕ → Uuid
  pub random_token : ℕ → Option String
  -- `<=` of texts in the collation of the database
  pub collation : String → String → Bool

pub record World : Type 0 where
  pub db : Tables
  pub calls : ℕ
  -- `providerCache` of the OIDC engine, which the process keeps between requests: the loaded
  -- `*gooidc.Provider`, known by a number, of each issuer URL
  pub issuers : List (String × ℕ)

pub data Result {ℓ} (A : Type ℓ) : Type ℓ where
  ok : A → Result A
  err : Error → Result A
  -- a run-time panic, such as an index out of range
  panic : Result A

abbrev pub is_ok {ℓ} : {A : Type ℓ} → Result A → Bool
is_ok (ok a) = true
is_ok (err e) = false
is_ok panic = false

abbrev pub M {ℓ} : Type ℓ → Type ℓ
M A = World → Result A × World

unfoldable pub done {ℓ} : {A : Type ℓ} → A → M A
done a w = (ok a, w)

unfoldable pub fail {ℓ} : {A : Type ℓ} → Error → M A
fail e w = (err e, w)

unfoldable pub panics {ℓ} : {A : Type ℓ} → M A
panics w = (panic, w)

unfoldable pub continue {ℓ κ} :
    {A : Type ℓ} {B : Type κ} → (A → M B) → Result A → World → Result B × World
continue f (ok a) w = f a w
continue f (err e) w = (err e, w)
continue f panic w = (panic, w)

-- `x, err := m; if err != nil { return err }`.
infixl 5 ◌>>=◌ ◌>>◌
unfoldable pub ◌>>=◌ {ℓ κ} : {A : Type ℓ} {B : Type κ} → M A → (A → M B) → M B
unfolding continue
◌>>=◌ m f w = continue f (m w).0 (m w).1

unfoldable pub ◌>>◌ {ℓ} : {B : Type ℓ} → M (Unit {0}) → M B → M B
unfolding ◌>>=◌
m >> k = m >>= λ _. k

-- An error that the caller looks at.
abbrev pub attempted {ℓ} : {A : Type ℓ} → Result A → Result (Error ⊎ A)
attempted (ok a) = ok (inr a)
attempted (err e) = ok (inl e)
attempted panic = panic

unfoldable pub attempt {ℓ} : {A : Type ℓ} → M A → M (Error ⊎ A)
attempt m w = (attempted (m w).0, (m w).1)

-- `_ = m`.
abbrev dropped {ℓ} : {A : Type ℓ} → Result A → Result (Unit {0})
dropped (ok a) = ok tt
dropped (err e) = ok tt
dropped panic = panic

unfoldable pub ignore {ℓ} : {A : Type ℓ} → M A → M (Unit {0})
ignore m w = (dropped (m w).0, (m w).1)

unfoldable pub found_or {ℓ} : {A : Type ℓ} → Error → Option A → M A
found_or e none = fail e
found_or e (some a) = done a

unfoldable pub after {ℓ} : {A : Type ℓ} → Option Fault → A → Tables → World → Result A × World
after none a db w = (ok a, record w { db = db; calls = suc w.calls })
after (some lost) a db w = (err db_failure, record w { calls = suc w.calls })
after (some late) a db w = (err db_failure, record w { db = db; calls = suc w.calls })

module _ ⦃env : Env⦄ where
  -- A statement that answers `f` of the tables and leaves them as `g` makes them.
  unfoldable pub run {ℓ} : {A : Type ℓ} → (Tables → A) → (Tables → Tables) → M A
  unfolding after
  run f g w = after (env.fault w.calls) (f w.db) (g w.db) w

  unfoldable pub query {ℓ} : {A : Type ℓ} → (Tables → A) → M A
  unfolding run
  query f = run f (λ db. db)

  -- `time.Now()`.
  unfoldable pub time_now : M ℕ
  time_now w = (ok (env.now w.calls), w)

  -- `gen_random_uuid()` in the statement that comes next.
  unfoldable pub next_uuid : M Uuid
  next_uuid w = (ok (env.fresh_uuid w.calls), w)

  unfoldable pub drawn : Option String → World → Result String × World
  drawn none w = (err random_failure, w)
  drawn (some s) w = (ok s, w)

  -- `generateToken`: 32 bytes of crypto/rand in base64.
  unfoldable pub generate_token : M String
  unfolding drawn
  generate_token w = drawn (env.random_token w.calls) (record w { calls = suc w.calls })

-- A proof that opens this computes with every effect.
unfoldable pub effects : Unit {0}
unfolding done fail panics ◌>>=◌ ◌>>◌ attempt ignore found_or run query time_now next_uuid
    generate_token
effects = tt
