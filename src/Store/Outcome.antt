-- ===== src/Store/Outcome.antt =====
-- Reading a successful answer backwards, one construct at a time.
use enterprise_kratos.Base.{
  List, [], ◌∷◌, ◌++◌, Json, Uuid, String, true, Option, some, ◌⊎◌, inl, inr, ◌≡◌, refl, arith,
  find, any,
}
use enterprise_kratos.Flow.{State, Ui}
use enterprise_kratos.Policy.{FlowPolicy}
use enterprise_kratos.Identity.{Identity, Credential}
use enterprise_kratos.Sso.{Provider}
use enterprise_kratos.Errors.{Error}
use enterprise_kratos.Store.{
  Env, World, Result, ok, err, panic, M, effects, attempt, attempted, ◌>>=◌, ◌>>◌, continue,
}
use enterprise_kratos.Store.Flows
use enterprise_kratos.Store.Policies
use enterprise_kratos.Store.Identities
use enterprise_kratos.Store.Providers

continue-eq-ok {ℓ κ} :
    {A : Type ℓ} {B : Type κ} (f : A → M B) (r : Result A) (w : World) {b : B}
    → (continue f r w).0 ≡ ok b
    → (a : A) × (r ≡ ok a) × ((f a w).0 ≡ ok b) × (continue f r w ≡ f a w)
unfolding effects
continue-eq-ok f (ok a) w h = (a, refl, h, refl)
continue-eq-ok f (err e) w h = cc
continue-eq-ok f panic w h = cc

-- The first part answered, and the rest did from there.
pub >>=-eq-ok {ℓ κ} :
    {A : Type ℓ} {B : Type κ} (m : M A) (f : A → M B) (w : World) {b : B}
    → ((m >>= f) w).0 ≡ ok b
    → (a : A) × ((m w).0 ≡ ok a) × ((f a (m w).1).0 ≡ ok b) × ((m >>= f) w ≡ f a (m w).1)
unfolding effects
>>=-eq-ok m f w h = continue-eq-ok f (m w).0 (m w).1 h

pub >>-eq-ok {ℓ} :
    {B : Type ℓ} (m : M (Unit {0})) (k : M B) (w : World) {b : B}
    → ((m >> k) w).0 ≡ ok b
    → (u : Unit {0}) × ((m w).0 ≡ ok u) × ((k (m w).1).0 ≡ ok b) × ((m >> k) w ≡ k (m w).1)
unfolding effects
>>-eq-ok m k w h = continue-eq-ok (λ _. k) (m w).0 (m w).1 h

attempted-eq-ok {ℓ} :
    {A : Type ℓ} (r : Result A) {x : Error ⊎ A}
    → attempted r ≡ ok x
    → ((a : A) × (r ≡ ok a) × (x ≡ inr a)) ⊎ ((e : Error) × (r ≡ err e) × (x ≡ inl e))
attempted-eq-ok (ok a) h = inl (a, refl, cc)
attempted-eq-ok (err e) h = inr (e, refl, cc)
attempted-eq-ok panic h = cc

pub attempt-eq-ok {ℓ} :
    {A : Type ℓ} (m : M A) (w : World) {x : Error ⊎ A}
    → (attempt m w).0 ≡ ok x
    → ((a : A) × ((m w).0 ≡ ok a) × (x ≡ inr a)) ⊎ ((e : Error) × ((m w).0 ≡ err e) × (x ≡ inl e))
unfolding effects
attempt-eq-ok m w h = attempted-eq-ok (m w).0 h

module _ ⦃env : Env⦄ (tenant : Uuid) (w : World) where
  pub policies-get-eq-ok :
      {p : FlowPolicy}
      → (Policies.get tenant w).0 ≡ ok p
      → (p ≡ Policies.or_default (Policies.policy_of tenant w.db.policies))
        × ((Policies.get tenant w).1.db ≡ w.db)
  unfolding Policies.get effects
  policies-get-eq-ok h = ground arith

  pub get_by_identifier-eq-ok :
      (kind identifier : String) {c : Credential}
      → (Identities.get_by_identifier tenant kind identifier w).0 ≡ ok c
      → (find (Identities.has_identifier tenant kind identifier) w.db.credentials ≡ some c)
        × ((Identities.get_by_identifier tenant kind identifier w).1.db ≡ w.db)
  unfolding Identities.get_by_identifier effects
  get_by_identifier-eq-ok kind identifier h = ground arith

  pub get_by_identity_and_type-eq-ok :
      (identity : Uuid) (kind : String) {c : Credential}
      → (Identities.get_by_identity_and_type tenant identity kind w).0 ≡ ok c
      → (find (Identities.belongs_to tenant identity kind) w.db.credentials ≡ some c)
        × ((Identities.get_by_identity_and_type tenant identity kind w).1.db ≡ w.db)
  unfolding Identities.get_by_identity_and_type effects
  get_by_identity_and_type-eq-ok identity kind h = ground arith

  pub flows-update-eq-ok :
      (id : Uuid) (state : State) (identity : Option Uuid) (ui : Ui) {u : Unit {0}}
      → (Flows.update tenant id state identity ui w).0 ≡ ok u
      → (Flows.update tenant id state identity ui w).1.db
        ≡ Flows.with_update tenant id (Flows.set_columns state identity ui) w.db
  unfolding Flows.update Flows.affected effects
  flows-update-eq-ok id state identity ui h = ground arith

  pub update_identity_state-eq-ok :
      (identity : Uuid) (state : String) {u : Unit {0}}
      → (Identities.update_identity_state tenant identity state w).0 ≡ ok u
      → ((Identities.update_identity_state tenant identity state w).1.db
          ≡ Identities.with_identity_update tenant identity
              (Identities.set_identity_state state)
              w.db)
        × (any (Identities.is_identity tenant identity) w.db.identities ≡ true)
  unfolding Identities.update_identity_state Identities.affected effects
  update_identity_state-eq-ok identity state h = ground arith

module _ ⦃env : Env⦄ where
  pub create_identity-eq-ok :
      (tenant schema : Uuid) (traits : Json) (state : String) (w : World) {i : Identity}
      → (Identities.create_identity tenant schema traits state w).0 ≡ ok i
      → (i ≡ Identities.new_identity i.id tenant schema traits state)
        × ((Identities.create_identity tenant schema traits state w).1.db
            ≡ record (w.db) { identities = w.db.identities ++ i ∷ [] })
  unfolding Identities.create_identity effects
  create_identity-eq-ok tenant schema traits state w h = ground arith

  pub create_credential-eq-ok :
      (tenant identity : Uuid) (kind : String) (identifiers : List String) (config : Json)
      (w : World) {c : Credential}
      → (Identities.create_credential tenant identity kind identifiers config w).0 ≡ ok c
      → (c ≡ Identities.new_credential c.id tenant identity kind identifiers config)
        × ((Identities.create_credential tenant identity kind identifiers config w).1.db
            ≡ record (w.db) { credentials = w.db.credentials ++ c ∷ [] })
  unfolding Identities.create_credential effects
  create_credential-eq-ok tenant identity kind identifiers config w h = ground arith

  pub providers-get-eq-ok :
      (tenant id : Uuid) (w : World) {p : Provider}
      → (Providers.get tenant id w).0 ≡ ok p
      → (find (Providers.is_provider tenant id) w.db.providers ≡ some p)
        × ((Providers.get tenant id w).1.db ≡ w.db)
        × ((Providers.get tenant id w).1.issuers ≡ w.issuers)
  unfolding Providers.get effects
  providers-get-eq-ok tenant id w h = ground arith

  pub get_identity-eq-ok :
      (tenant id : Uuid) (w : World) {i : Identity}
      → (Identities.get_identity tenant id w).0 ≡ ok i
      → (find (Identities.is_identity tenant id) w.db.identities ≡ some i)
        × ((Identities.get_identity tenant id w).1.db ≡ w.db)
  unfolding Identities.get_identity effects
  get_identity-eq-ok tenant id w h = ground arith
