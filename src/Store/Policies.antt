-- ===== src/Store/Policies.antt =====
-- The store of internal/policy/policy.go, over the table tenant_flow_policies.
use enterprise_kratos.Base.{Option, none, some, List, [], ◌∷◌, Uuid, ◌==◌, if◌then◌else◌}
use enterprise_kratos.Policy.{FlowPolicy, default}
use enterprise_kratos.Store.{Env, M, done, run, query, ◌>>=◌}

abbrev pub policy_of : Uuid → List (Uuid × FlowPolicy) → Option FlowPolicy
policy_of tenant [] = none
policy_of tenant ((t, p) ∷ rows) = if t == tenant then some p else policy_of tenant rows

-- ON CONFLICT (tenant_id) DO UPDATE.
abbrev pub set_policy : Uuid → FlowPolicy → List (Uuid × FlowPolicy) → List (Uuid × FlowPolicy)
set_policy tenant p [] = (tenant, p) ∷ []
set_policy tenant p ((t, q) ∷ rows) =
    if t == tenant then (t, p) ∷ rows else (t, q) ∷ set_policy tenant p rows

abbrev pub or_default : Option FlowPolicy → FlowPolicy
or_default none = default
or_default (some p) = p

module _ ⦃env : Env⦄ where
  unfoldable pub get : Uuid → M FlowPolicy
  get tenant = do row ← query (λ db. policy_of tenant db.policies); done (or_default row)

  unfoldable pub upsert : Uuid → FlowPolicy → M (Unit {0})
  upsert tenant p = run (λ db. tt) (λ db. record db { policies = set_policy tenant p db.policies })
