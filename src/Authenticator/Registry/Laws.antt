-- ===== src/Authenticator/Registry/Laws.antt =====
-- What a registration changes of the lookups.
use enterprise_kratos.Base.{
  apart, subst, String, Bool, true, false, Option, none, some, [], ◌∷◌, ◌++◌, inr, ◌≡◌, refl, ◌∙◌,
  ap, arith, str_eq, if◌then◌else◌,
}
use enterprise_kratos.Authenticator.{Authenticator}
use enterprise_kratos.Authenticator.Registry
use enterprise_kratos.Authenticator.Registry.{Registry, lookup}

lookup-append :
    (id j : String) (a : Authenticator) (reg : Registry)
    → lookup j reg ≡ none
    → lookup id (reg ++ (j, a) ∷ []) ≡ (if str_eq j id then some a else lookup id reg)
lookup-append id j a [] h = refl
lookup-append id j a ((k, b) ∷ reg) h = ground (arith, apart k j id, lookup-append id j a reg)

free_case :
    (a : Authenticator) (reg : Registry) (id : String)
    → lookup a.id reg ≡ none
    → Registry.get id (reg ++ (a.id, a) ∷ [])
      ≡ (if str_eq a.id id then inr a else Registry.get id reg)
unfolding Registry.get
free_case a reg id h = ap Registry.found (lookup-append id a.id a reg h) ∙ found_if _
  where
    found_if :
        (b : Bool)
        → Registry.found (if b then some a else lookup id reg)
          ≡ (if b then inr a else Registry.found (lookup id reg))
    found_if true = refl
    found_if false = refl

registered_case :
    (x : Option Authenticator) (a : Authenticator) (reg reg' : Registry) (id : String)
    → lookup a.id reg ≡ x
    → Registry.registered a reg x ≡ some reg'
    → (Registry.get id reg' ≡ (if str_eq a.id id then inr a else Registry.get id reg))
      × (lookup a.id reg ≡ none)
registered_case none a reg reg' id e h = (
  subst (λ r. Registry.get id r ≡ (if str_eq a.id id then inr a else Registry.get id reg)) (same h)
      (free_case a reg id e),
  e,
)
  where
    same : {x y : Registry} → some x ≡ some y → x ≡ y
    same p = cc
registered_case (some b) a reg reg' id e h = cc

-- A registration that is accepted adds the authenticator under its ID, which was free, and every
-- other ID is looked up as before.
register-get :
    (a : Authenticator) (reg reg' : Registry) (id : String)
    → Registry.register a reg ≡ some reg'
    → (Registry.get id reg' ≡ (if str_eq a.id id then inr a else Registry.get id reg))
      × (lookup a.id reg ≡ none)
unfolding Registry.register
register-get a reg reg' id h = registered_case _ a reg reg' id refl h
