-- ===== src/Settings/Keeping.antt =====
-- The settings engine writes only what the stores and the password authenticator write.
use enterprise_kratos.Base.{
  Bool, true, false, if◌then◌else◌, String, Uuid, List, Option, none, some, ◌⊎◌, inl, inr, Json,
  null, obj,
}
use enterprise_kratos.Flow.{Flow}
use enterprise_kratos.Identity.{Credential}
use enterprise_kratos.Errors.{Error}
use enterprise_kratos.Store.{Tables, Env, M, fail, effects, ◌>>=◌}
use enterprise_kratos.Store.Frame.{IsOrder, Keeps, Keeps-done, keeping}
use enterprise_kratos.Store.Writes.{HasWrites}
use enterprise_kratos.Store.Keeping.{stores}
use enterprise_kratos.Authenticator.{Authenticator}
use enterprise_kratos.Authenticator.Registry.{Registry, get}
use enterprise_kratos.Authenticator.Keeping.{KeepsAll, EachKeeps, get-elim}
use enterprise_kratos.Engine.Keeping.{guards}
use enterprise_kratos.Settings

module _ {S : Tables → Tables → Type 0} (o : IsOrder S) where
  profile_traits-keeps :
      (values : List (String × String)) (j : Json) → Keeps S (Settings.profile_traits values j)
  unfolding Settings.profile_traits
  profile_traits-keeps values null = search keeping
  profile_traits-keeps values (obj ms) = Keeps-done o _
  profile_traits-keeps values _ = Keeps-done o _

  refused-keeps {ℓ} :
      {A : Type ℓ} (b : Bool) (e d : Error) (f : Authenticator → M A)
      → Keeps S ((if b then fail e else fail d) >>= f)
  unfolding effects
  refused-keeps true e d f = record { keeps = λ w. o.same w.db }
  refused-keeps false e d f = record { keeps = λ w. o.same w.db }

  Keeps-password_authenticator :
      {f : Authenticator → M (Unit {0})} (reg : Registry)
      → EachKeeps S reg
      → ((a : Authenticator) → KeepsAll S a → Keeps S (f a))
      → Keeps S (Settings.password_authenticator (get "password" reg) >>= f)
  unfolding Settings.password_authenticator effects
  Keeps-password_authenticator {f} reg each k =
      get-elim {S = S} (λ r. Keeps S (Settings.password_authenticator r >>= f)) "password" reg each
        (λ e. refused-keeps (Settings.is_not_registered e) _ _ f)
        (λ a ka. record { keeps = λ w. (k a ka).keeps w })

module _ ⦃env : Env⦄ {S : Tables → Tables → Type 0} {tenant : Uuid} (o : IsOrder S)
    (h : HasWrites S tenant) where
  pub init_flow-keeps : (identity : Uuid) → Keeps S (Settings.init_flow tenant identity)
  unfolding Settings.init_flow
  init_flow-keeps identity = search (keeping, stores) depth 20

  submit_profile-keeps :
      (id identity : Uuid) (f : Flow) (values : List (String × String))
      → Keeps S (Settings.submit_profile tenant id identity f values)
  unfolding Settings.submit_profile
  submit_profile-keeps id identity f values =
      search (keeping, stores, profile_traits-keeps) depth 20

  identifiers_for-keeps :
      (identity : Uuid) (enrolled : List String) (r : Error ⊎ Credential)
      → Keeps S (Settings.identifiers_for tenant identity enrolled r)
  unfolding Settings.identifiers_for
  identifiers_for-keeps identity enrolled (inr c) = Keeps-done o _
  identifiers_for-keeps identity enrolled (inl e) = search (keeping, stores) depth 12

  upsert_password-keeps :
      (identity : Uuid) (config : Json) (identifiers : Option (List String))
      → Keeps S (Settings.upsert_password tenant identity config identifiers)
  unfolding Settings.upsert_password
  upsert_password-keeps identity config none = search (keeping, o)
  upsert_password-keeps identity config (some identifiers) = search (keeping, stores)

  module _ (reg : Registry) (each : EachKeeps S reg) where
    submit_password-keeps :
        (id identity : Uuid) (f : Flow) (values : List (String × String))
        → Keeps S (Settings.submit_password reg tenant id identity f values)
    unfolding Settings.submit_password
    submit_password-keeps id identity f values = Keeps-password_authenticator o reg each λ a k.
        let enroll = k.enroll in
        search (keeping, stores, enroll, identifiers_for-keeps, upsert_password-keeps) depth 20

    submit_method-keeps :
        (method : String) (id identity : Uuid) (f : Flow) (values : List (String × String))
        → Keeps S (Settings.submit_method reg method tenant id identity f values)
    unfolding Settings.submit_method
    submit_method-keeps method id identity f values =
        search (keeping, submit_profile-keeps, submit_password-keeps)

    pub submit_flow-keeps :
        (id identity : Uuid) (method : String) (values : List (String × String))
        → Keeps S (Settings.submit_flow reg tenant id identity method values)
    unfolding Settings.submit_flow
    submit_flow-keeps id identity method values =
        search (keeping, guards, stores, submit_method-keeps) depth 20
