-- ===== src/Settings.antt =====
-- internal/flow/settings/engine.go.
pub mod Keeping
pub mod Ownership
pub mod Takeover
use enterprise_kratos.Base.{
  ℕ, String, Bool, true, false, ◌==◌, ◌*◌, ◌+◌, ◌⊎◌, inl, inr, Option, none, some, List, [], ◌∷◌,
  Uuid, Json, null, str, obj, end, str_eq, if◌then◌else◌, is_empty, minute,
}
use enterprise_kratos.Flow.{
  Flow, Ui, UiNode, UiMessage, input_node, message, in_phase, pending, success, settings, same_type,
}
use enterprise_kratos.Identity.{Identity, Credential}
use enterprise_kratos.Errors.{
  Error, db_failure, authenticator_not_found, wrong_flow_type, wrong_owner, unknown_method,
  password_not_registered,
}
use enterprise_kratos.Store.{
  Env, M, done, fail, panics, attempt, ignore, query, time_now, ◌>>=◌, ◌>>◌,
}
use enterprise_kratos.Store.Flows
use enterprise_kratos.Store.Identities.{
  get_identity, update_traits, get_by_identity_and_type, upsert_credential,
}
use enterprise_kratos.Authenticator.{Authenticator}
use enterprise_kratos.Authenticator.Registry.{Registry, get}
use enterprise_kratos.Engine.{require, require_pending}
use enterprise_kratos.Traits.{write_traits, has_traits, email_of}

abbrev pub flow_ttl : ℕ
flow_ttl = 15 * minute

abbrev pub text_or_empty : Option String → Json
text_or_empty none = str ""
text_or_empty (some s) = str s

abbrev pub profile_email : Json → UiNode
profile_email traits =
    input_node "profile" "traits.email" "email" (text_or_empty (email_of traits)) true
      (message 1070002 "info" "Email")

abbrev pub profile_submit : UiNode
profile_submit =
    input_node "profile" "method" "submit" (str "profile") false (message 1070003 "info" "Save")

abbrev pub password_input : UiNode
password_input =
    input_node "password" "password" "password" null true (message 1070001 "info" "New Password")

abbrev pub password_submit : UiNode
password_submit =
    input_node "password" "method" "submit" (str "password") false
      (message 1070004 "info" "Save password")

abbrev pub settings_ui : Json → Ui
settings_ui traits = record {
  action = "";
  method = "POST";
  nodes = profile_email traits ∷ profile_submit ∷ password_input ∷ password_submit ∷ [];
  messages = [];
  internal = some (in_phase "settings");
}

abbrev pub done_ui : Ui → UiMessage → Ui
done_ui ui m = record ui { internal = some (in_phase "complete"); messages = m ∷ [] }

abbrev pub profile_updated : UiMessage
profile_updated = message 1050001 "success" "Your profile has been updated."

abbrev pub password_updated : UiMessage
password_updated = message 1050002 "success" "Your password has been updated."

abbrev pub is_owner : Uuid → Option Uuid → Bool
is_owner identity none = false
is_owner identity (some i) = i == identity

-- Where the stored traits are JSON `null`, the map that they decode to is nil, and a write to it
-- panics; where they are no object, the decoding fails and the map is empty.
unfoldable pub profile_traits : List (String × String) → Json → M Json
profile_traits values null = if has_traits values then panics else done null
profile_traits values (obj ms) = done (obj (write_traits values ms))
profile_traits values _ = done (obj (write_traits values end))

abbrev pub is_not_registered : Error → Bool
is_not_registered authenticator_not_found = true
is_not_registered _ = false

unfoldable pub password_authenticator : Error ⊎ Authenticator → M Authenticator
password_authenticator (inr a) = done a
password_authenticator (inl e) =
    if is_not_registered e then fail password_not_registered else fail e

abbrev one_email : Option String → Option (List String)
one_email none = none
one_email (some email) = some (email ∷ [])

-- The email of the traits, if the identity could be loaded and has one.
abbrev pub email_identifiers : Error ⊎ Identity → Option (List String)
email_identifiers (inl _) = none
email_identifiers (inr i) = one_email (email_of i.traits)

module _ ⦃env : Env⦄ where
  unfoldable pub init_flow : Uuid → Uuid → M Flow
  init_flow tenant identity = do
    i ← get_identity tenant identity
    now ← time_now
    f ← Flows.create tenant settings (settings_ui i.traits) (now + flow_ttl)
    Flows.update tenant f.id pending (some identity) f.ui
    done (record f { identity_id = some identity })

  unfoldable pub get_flow : Uuid → Uuid → M Flow
  get_flow tenant id = Flows.get tenant id

  unfoldable pub submit_profile : Uuid → Uuid → Uuid → Flow → List (String × String) → M (Unit {0})
  submit_profile tenant id identity f values = do
    i ← get_identity tenant identity
    traits ← profile_traits values i.traits
    update_traits tenant identity traits
    ignore (Flows.update tenant id success (some identity) (done_ui f.ui profile_updated))

  -- The identifiers of the existing credential, else those of the authenticator, else the email,
  -- else none: the slice is nil, as an authenticator that enrolls no identifiers leaves it.
  unfoldable pub identifiers_for :
      Uuid → Uuid → List String → Error ⊎ Credential → M (Option (List String))
  identifiers_for tenant identity enrolled (inr existing) = done (some existing.identifiers)
  identifiers_for tenant identity enrolled (inl _) =
      if is_empty enrolled
      then (do loaded ← attempt (get_identity tenant identity); done (email_identifiers loaded))
      else done (some enrolled)

  -- A nil slice is NULL in the statement, which the column refuses.
  unfoldable pub upsert_password : Uuid → Uuid → Json → Option (List String) → M (Unit {0})
  upsert_password tenant identity config none = query (λ _. tt) >> fail db_failure
  upsert_password tenant identity config (some identifiers) =
      upsert_credential tenant identity "password" identifiers config

module _ ⦃env : Env⦄ (reg : Registry) where
  unfoldable pub submit_password : Uuid → Uuid → Uuid → Flow → List (String × String) → M (Unit {0})
  submit_password tenant id identity f values = do
    a ← password_authenticator (get "password" reg)
    enrolled ← a.enroll (record { tenant_id = tenant; identity_id = identity; values = values })
    existing ← attempt (get_by_identity_and_type tenant identity "password")
    identifiers ← identifiers_for tenant identity enrolled.identifiers existing
    upsert_password tenant identity enrolled.credential_config identifiers
    ignore (Flows.update tenant id success (some identity) (done_ui f.ui password_updated))

  unfoldable pub submit_method :
      String → Uuid → Uuid → Uuid → Flow → List (String × String) → M (Unit {0})
  submit_method method tenant id identity f values =
      if str_eq method "profile"
      then submit_profile tenant id identity f values
      else if str_eq method "password"
      then submit_password tenant id identity f values
      else fail (unknown_method method)

  unfoldable pub submit_flow : Uuid → Uuid → Uuid → String → List (String × String) → M (Unit {0})
  submit_flow tenant id identity method values = do
    f ← Flows.get tenant id
    require_pending f
    require (same_type f.kind settings) (wrong_flow_type f.kind)
    require (is_owner identity f.identity_id) wrong_owner
    submit_method method tenant id identity f values
