-- ===== src/Migration/Factors.antt =====
-- The policy that a migration leaves, and the login that follows.
use enterprise_kratos.Base.{Uuid, false, List, [], ◌∷◌, some, ◌≡◌, ap, ◌∙◌, arith}
use enterprise_kratos.External.{External}
use enterprise_kratos.Policy.{FlowPolicy}
use enterprise_kratos.Store.{Env, World, panic, effects}
use enterprise_kratos.Store.Calm.{IsCalm}
use enterprise_kratos.Store.Policies
use enterprise_kratos.Store.Policies.{policy_of, set_policy, or_default}
use enterprise_kratos.Authenticator.Registry.{Registry}
use enterprise_kratos.Login
use enterprise_kratos.Login.Refusals.{init_flow-panic}
use enterprise_kratos.Migration
use enterprise_kratos.Migration.{policy_from}
use enterprise_kratos.Migration.Config.{KratosConfig, allowed_first_factors}

policy_of-set_policy :
    (tenant : Uuid) (p : FlowPolicy) (rows : List (Uuid × FlowPolicy))
    → policy_of tenant (set_policy tenant p rows) ≡ some p
policy_of-set_policy tenant p [] = ground arith
policy_of-set_policy tenant p ((t, q) ∷ rows) = ground (arith, policy_of-set_policy tenant p rows)

no_factors :
    (cfg : KratosConfig)
    → cfg.self_service.methods.password.enabled ≡ false
    → cfg.self_service.methods.oidc.enabled ≡ false
    → allowed_first_factors cfg ≡ []
no_factors cfg p q = ground arith

module _ ⦃env : Env⦄ (tenant : Uuid) (cfg : KratosConfig) (w : World) (calm : IsCalm env) where
  stored :
      policy_of tenant (Migration.migrate_policy tenant cfg w).1.db.policies
      ≡ some (policy_from cfg)
  unfolding Migration.migrate_policy Policies.upsert effects
  stored = ground (arith, calm w.calls, policy_of-set_policy tenant (policy_from cfg) w.db.policies)

  -- Where the database does not fail and the Kratos configuration enables neither passwords nor
  -- OIDC, the migrated policy allows no first factor, and from then on every attempt to start a
  -- login in the tenant panics and writes nothing.
  pub migrate_policy-panic :
      (ext : External) (reg : Registry) (later : World)
      → cfg.self_service.methods.password.enabled ≡ false
      → cfg.self_service.methods.oidc.enabled ≡ false
      → later.db.policies ≡ (Migration.migrate_policy tenant cfg w).1.db.policies
      → ((Login.init_flow ext reg tenant later).0 ≡ panic)
        × ((Login.init_flow ext reg tenant later).1.db ≡ later.db)
  migrate_policy-panic ext reg later no_password no_oidc same =
      init_flow-panic ext reg tenant later (calm later.calls) (
        ap (λ p. (or_default p).login.allowed_first_factors) (ap (policy_of tenant) same ∙ stored)
        ∙ no_factors cfg no_password no_oidc)
