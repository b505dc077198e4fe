-- ===== src/Login/Keeping.antt =====
-- The login engine writes only what the stores and the authenticators write.
use enterprise_kratos.Base.{◌≡◌, sym, subst, String, Uuid, List, [], ◌∷◌, ◌⊎◌, inl, inr}
use enterprise_kratos.Flow.{Flow, UiNode}
use enterprise_kratos.Policy.{FlowPolicy}
use enterprise_kratos.Identity.{Credential}
use enterprise_kratos.Errors.{Error}
use enterprise_kratos.External.{External}
use enterprise_kratos.Store.{Tables, Env}
use enterprise_kratos.Store.Frame.{
  IsOrder, Keeps, Keeps-done, Keeps-fail, Keeps-panics, Keeps->>=, Keeps->>=_when, Keeps->>,
  Keeps-if, keeping,
}
use enterprise_kratos.Store.Writes.{HasWrites}
use enterprise_kratos.Store.Keeping.{stores, flows-get}
use enterprise_kratos.Store.Lookup.{get-Got}
use enterprise_kratos.Authenticator.{StartFlowRequest, AuthResult}
use enterprise_kratos.Authenticator.Registry.{Registry}
use enterprise_kratos.Authenticator.Keeping.{EachKeeps, get-elim}
use enterprise_kratos.Engine.Keeping.{guards, Keeps-require, Keeps-some_or, Keeps-returned_get}
use enterprise_kratos.Login

module _ {S : Tables → Tables → Type 0} (o : IsOrder S) where
  pub start_all-keeps :
      (reg : Registry)
      → EachKeeps S reg
      → (r : StartFlowRequest) (methods : List String) (nodes : List UiNode) (states : Login.States)
      → Keeps S (Login.start_all reg r methods nodes states)
  unfolding Login.start_all Login.started
  start_all-keeps reg each r [] nodes states = Keeps-done o _
  start_all-keeps reg each r (m ∷ methods) nodes states =
      get-elim {S = S}
        (λ found. Keeps S (Login.started r m (Login.start_all reg r methods) nodes states found)) m
        reg each
        (λ e. Keeps-if o _ (start_all-keeps reg each r methods nodes states) (Keeps-fail o e))
        (λ a ka. Keeps->>= o (ka.start_flow r) (λ answer. start_all-keeps reg each r methods _ _))

  first_of_methods-keeps : (methods : List String) → Keeps S (Login.first_of_methods methods)
  unfolding Login.first_of_methods
  first_of_methods-keeps [] = Keeps-panics o
  first_of_methods-keeps (m ∷ _) = Keeps-done o m

  credential_or-keeps : (e : Error) (r : Error ⊎ Credential) → Keeps S (Login.credential_or e r)
  unfolding Login.credential_or
  credential_or-keeps e (inr c) = Keeps-done o c
  credential_or-keeps e (inl f) = search keeping

module _ ⦃env : Env⦄ {S : Tables → Tables → Type 0} (o : IsOrder S) (ext : External)
    (reg : Registry) (each : EachKeeps S reg) where
  module _ (f : Flow) (h : HasWrites S f.tenant_id) where
    accepted-keeps : (text : String) (r : Error ⊎ AuthResult) → Keeps S (Login.accepted f text r)
    unfolding Login.accepted
    accepted-keeps text (inr r) = Keeps-done o r
    accepted-keeps text (inl e) = search (keeping, stores) depth 10

    advance-keeps :
        (pol : FlowPolicy) (identity : Uuid) (amr : List String)
        → Keeps S (Login.advance_to_second_factor ext reg f pol identity amr)
    unfolding Login.advance_to_second_factor Login.announced
    advance-keeps pol identity amr = search (keeping, stores, start_all-keeps) depth 20

    complete-keeps :
        (pol : FlowPolicy) (identity : Uuid) (aal : String) (amr : List String)
        → Keeps S (Login.complete ext reg f pol identity aal amr)
    unfolding Login.complete
    complete-keeps pol identity aal amr = search (keeping, stores) depth 20

    first_factor_accepted-keeps :
        (pol : FlowPolicy) (identity : Uuid) (amr : List String)
        → Keeps S (Login.first_factor_accepted ext reg f pol identity amr)
    unfolding Login.first_factor_accepted
    first_factor_accepted-keeps pol identity amr = search (keeping, advance-keeps, complete-keeps)

    submit_first_factor-keeps :
        (pol : FlowPolicy) (method : String) (values : List (String × String))
        → Keeps S (Login.submit_first_factor ext reg f pol method values)
    unfolding Login.submit_first_factor
    submit_first_factor-keeps pol method values = Keeps->> o (Keeps-require o _ _) (
        Keeps-returned_get o method reg each λ a k.
          let complete = k.complete_flow in
          search
            (
              keeping, guards, stores, complete, credential_or-keeps, accepted-keeps,
              first_factor_accepted-keeps,
            )
            depth 20)

    submit_second_factor-keeps :
        (pol : FlowPolicy) (method : String) (values : List (String × String))
        → Keeps S (Login.submit_second_factor ext reg f pol method values)
    unfolding Login.submit_second_factor
    submit_second_factor-keeps pol method values = Keeps->> o (Keeps-require o _ _) (
        Keeps->>= o (Keeps-some_or o _ _) λ identity. Keeps-returned_get o method reg each λ a k.
          let complete = k.complete_flow in
          search
            (keeping, guards, stores, complete, credential_or-keeps, accepted-keeps, complete-keeps)
            depth 20)

    submit_in_phase-keeps :
        (phase : String) (pol : FlowPolicy) (method : String) (values : List (String × String))
        → Keeps S (Login.submit_in_phase ext reg phase f pol method values)
    unfolding Login.submit_in_phase
    submit_in_phase-keeps phase pol method values =
        search (keeping, submit_first_factor-keeps, submit_second_factor-keeps)

  module _ {tenant : Uuid} (h : HasWrites S tenant) where
    pub init_flow-keeps : Keeps S (Login.init_flow ext reg tenant)
    unfolding Login.init_flow
    init_flow-keeps = search (keeping, stores, start_all-keeps, first_of_methods-keeps) depth 30

    -- The flow is the tenant's, so the writes by the flow's tenant are the tenant's writes.
    pub submit_flow-keeps :
        (id : Uuid) (method : String) (values : List (String × String))
        → Keeps S (Login.submit_flow ext reg tenant id method values)
    unfolding Login.submit_flow
    submit_flow-keeps id method values =
        Keeps->>=_when o (λ f. f.tenant_id ≡ tenant) (flows-get o h id)
          (λ w f e. (get-Got tenant id w f e).same_tenant)
          λ f same.
            let own = subst (HasWrites S) (sym same) h in
            let rest = submit_in_phase-keeps f own in
            search (keeping, guards, stores, rest) depth 20
