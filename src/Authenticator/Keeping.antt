-- ===== src/Authenticator/Keeping.antt =====
-- Authenticators that write nothing but what a relation between tables contains, and the password
-- authenticator, which writes nothing.
use enterprise_kratos.Base.{
  suc, String, Option, none, some, [], ◌∷◌, ◌⊎◌, inl, inr, Path, ◌≡◌, subst, true, false, str_eq,
  if◌then◌else◌,
}
use enterprise_kratos.Errors.{Error}
use enterprise_kratos.Store.{Tables}
use enterprise_kratos.Store.Frame.{IsOrder, Keeps, Keeps-fail, Keeps-done, keeping}
use enterprise_kratos.Authenticator.{
  Authenticator, StartFlowRequest, CompleteFlowRequest, EnrollRequest, UnenrollRequest,
}
use enterprise_kratos.Authenticator.Registry.{Registry, lookup, get, found}
use enterprise_kratos.Authenticator.Password

pub record KeepsAll (S : Tables → Tables → Type 0) (a : Authenticator) : Type 0 where
  pub start_flow : (r : StartFlowRequest) → Keeps S (a.start_flow r)
  pub complete_flow : (r : CompleteFlowRequest) → Keeps S (a.complete_flow r)
  pub enroll : (r : EnrollRequest) → Keeps S (a.enroll r)
  pub unenroll : (r : UnenrollRequest) → Keeps S (a.unenroll r)

-- Every registered authenticator does.
abbrev pub EachKeeps : (Tables → Tables → Type 0) → Registry → Type 0
EachKeeps S [] = Unit
EachKeeps S ((id, a) ∷ reg) = KeepsAll S a × EachKeeps S reg

-- What holds of each registered authenticator holds of the one that is found.
pub get-elim {ℓ} :
    {S : Tables → Tables → Type 0} (P : Error ⊎ Authenticator → Type ℓ) (id : String)
    (reg : Registry)
    → EachKeeps S reg
    → ((e : Error) → P (inl e))
    → ((a : Authenticator) → KeepsAll S a → P (inr a))
    → P (get id reg)
unfolding get
get-elim P id [] each missing present = missing _
get-elim {S} P id ((j, a) ∷ reg) (k, each) missing present =
    elim (str_eq j id) as (λ b. P (found (if b then some a else lookup id reg))) [
      | true ↦ present a k
      | false ↦ get-elim {S = S} P id reg each missing present
    ]

same-authenticator : {a b : Authenticator} → Path (Error ⊎ Authenticator) (inr b) (inr a) → b ≡ a
same-authenticator h = cc

pub registered-KeepsAll :
    {S : Tables → Tables → Type 0} (reg : Registry)
    → EachKeeps S reg
    → (method : String) (a : Authenticator) → get method reg ≡ inr a
    → KeepsAll S a
registered-KeepsAll {S} reg each method =
    get-elim {S = S} (λ x. (a : Authenticator) → x ≡ inr a → KeepsAll S a) method reg each
      (λ e a k. absurd cc) (λ b kb a k. subst (KeepsAll S) (same-authenticator k) kb)

module _ {S : Tables → Tables → Type 0} (o : IsOrder S) (bcrypt : Password.Bcrypt) where
  or_error-keeps : (text : String) (s : Option String) → Keeps S (Password.or_error text s)
  unfolding Password.or_error
  or_error-keeps text none = Keeps-fail o _
  or_error-keeps text (some s) = Keeps-done o s

  compared-keeps :
      (r : CompleteFlowRequest) (c : Password.Comparison) → Keeps S (Password.compared r c)
  unfolding Password.compared
  compared-keeps r Password.Comparison.same = Keeps-done o _
  compared-keeps r Password.Comparison.mismatch = Keeps-fail o _
  compared-keeps r Password.Comparison.broken_hash = Keeps-fail o _

  hashed-keeps : (plain : String) → Keeps S (Password.hashed bcrypt plain)
  unfolding Password.hashed
  hashed-keeps plain = record {
    keeps = λ w.
        (or_error-keeps _ (bcrypt.generate Password.cost w.calls plain)).keeps
          (record w { calls = suc w.calls });
  }

  pub password-KeepsAll : KeepsAll S (Password.adapter bcrypt)
  unfolding Password.adapter Password.start_flow Password.complete_flow Password.enroll
      Password.unenroll
  password-KeepsAll = record {
    start_flow = λ r. Keeps-done o _;
    complete_flow = λ r. search (keeping, o, or_error-keeps, compared-keeps) depth 14;
    enroll = λ r. search (keeping, o, hashed-keeps) depth 14;
    unenroll = λ r. Keeps-done o tt;
  }
