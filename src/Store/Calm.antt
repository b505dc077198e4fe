-- ===== src/Store/Calm.antt =====
-- Running forwards where the database does not fail: one equation for each step.
use enterprise_kratos.Base.{
  ℕ, ◌≤◌, suc, Uuid, String, true, false, Option, none, some, [], ◌∷◌, ◌++◌, ◌≡◌, arith, find, any,
  ap,
}
use enterprise_kratos.Flow.{Flow, FlowType, State, Ui, is_pending}
use enterprise_kratos.Identity.{Credential}
use enterprise_kratos.Errors.{credential_not_found}
use enterprise_kratos.Store.{
  Tables, Env, World, Result, ok, err, M, effects, attempt, attempted, continue, ◌>>=◌, ◌>>◌,
}
use enterprise_kratos.Store.Flows
use enterprise_kratos.Store.Policies
use enterprise_kratos.Store.Identities

-- No call fails.
abbrev pub IsCalm : Env → Type 0
IsCalm env = (n : ℕ) → env.fault n ≡ none

-- A call later, with these tables.
abbrev pub after_call : Tables → World → World
after_call db w = record w { db = db; calls = suc w.calls }

pub >>=-of {ℓ κ} :
    {A : Type ℓ} {B : Type κ} (m : M A) (f : A → M B) {w v : World} {a : A}
    → m w ≡ (ok a, v)
    → (m >>= f) w ≡ f a v
unfolding effects
>>=-of m f h = ap (λ x. continue f x.0 x.1) h

pub attempt-of {ℓ} :
    {A : Type ℓ} (m : M A) {w v : World} {r : Result A}
    → m w ≡ (r, v)
    → attempt m w ≡ (attempted r, v)
unfolding effects
attempt-of m h = ap (λ x. (attempted x.0, x.1)) h

pub >>-of {ℓ} :
    {B : Type ℓ} (m : M (Unit {0})) (k : M B) {w v : World} → m w ≡ (ok tt, v) → (m >> k) w ≡ k v
unfolding effects
>>-of m k h = ap (λ x. continue (λ _. k) x.0 x.1) h

module _ ⦃env : Env⦄ (tenant : Uuid) (w : World) (calm : IsCalm env) where
  pub flows-get-of :
      (id : Uuid) (f : Flow)
      → find (Flows.is_flow tenant id) w.db.flows ≡ some f
      → is_pending f.state ≡ true
      → env.now (suc w.calls) ≤ f.expires_at
      → Flows.get tenant id w ≡ (ok f, after_call w.db w)
  unfolding Flows.get Flows.check_expiry effects
  flows-get-of id f h waiting in_time = ground (arith, calm w.calls)

  pub flows-update-of :
      (id : Uuid) (state : State) (identity : Option Uuid) (ui : Ui)
      → any (Flows.is_flow tenant id) w.db.flows ≡ true
      → Flows.update tenant id state identity ui w ≡ (
        ok tt,
        after_call (Flows.with_update tenant id (Flows.set_columns state identity ui) w.db) w,
      )
  unfolding Flows.update Flows.affected effects
  flows-update-of id state identity ui h = ground (arith, calm w.calls)

  pub policies-get-of :
      Policies.get tenant w
      ≡ (ok (Policies.or_default (Policies.policy_of tenant w.db.policies)), after_call w.db w)
  unfolding Policies.get effects
  policies-get-of = ground (arith, calm w.calls)

  pub get_by_identifier-of :
      (kind identifier : String) (c : Credential)
      → find (Identities.has_identifier tenant kind identifier) w.db.credentials ≡ some c
      → Identities.get_by_identifier tenant kind identifier w ≡ (ok c, after_call w.db w)
  unfolding Identities.get_by_identifier effects
  get_by_identifier-of kind identifier c h = ground (arith, calm w.calls)

  pub get_by_identifier-missing :
      (kind identifier : String)
      → find (Identities.has_identifier tenant kind identifier) w.db.credentials ≡ none
      → Identities.get_by_identifier tenant kind identifier w
        ≡ (err credential_not_found, after_call w.db w)
  unfolding Identities.get_by_identifier effects
  get_by_identifier-missing kind identifier h = ground (arith, calm w.calls)

  pub update_identity_state-of :
      (identity : Uuid) (state : String)
      → any (Identities.is_identity tenant identity) w.db.identities ≡ true
      → Identities.update_identity_state tenant identity state w ≡ (
        ok tt,
        after_call
            (Identities.with_identity_update tenant identity
              (Identities.set_identity_state state)
              w.db)
            w,
      )
  unfolding Identities.update_identity_state Identities.affected effects
  update_identity_state-of identity state h = ground (arith, calm w.calls)

  pub flows-create-of :
      (kind : FlowType) (ui : Ui) (expires_at : ℕ)
      → any (Flows.is_flow tenant (env.fresh_uuid w.calls)) w.db.flows ≡ false
      → Flows.create tenant kind ui expires_at w ≡ (
        ok (Flows.new_flow (env.fresh_uuid w.calls) tenant kind ui expires_at),
        after_call
            (record (w.db) {
              flows =
                  w.db.flows
                  ++ Flows.new_flow (env.fresh_uuid w.calls) tenant kind ui expires_at ∷ [];
            })
            w,
      )
  unfolding Flows.create effects
  flows-create-of kind ui expires_at h = ground (arith, calm w.calls)
