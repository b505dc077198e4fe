-- ===== src/Engine.antt =====
-- What the engines of internal/flow and internal/oidc share: guards, the session's time to live
-- (`parseSessionTTL`, which four of them repeat), and `containsStr`, which is `contains_str` of
-- Base.
pub mod Keeping
pub mod Outcome
use enterprise_kratos.Base.{
  ℕ, Bool, Option, none, some, ◌*◌, ◌⊎◌, inl, inr, if◌then◌else◌, hour, ltb,
}
use enterprise_kratos.Policy.{FlowPolicy}
use enterprise_kratos.External.{External, Duration, positive, not_positive}
use enterprise_kratos.Errors.{Error, flow_is}
use enterprise_kratos.Flow.{Flow, is_pending}
use enterprise_kratos.Store.{M, done, fail}

-- `if !b { return err }`.
unfoldable pub require : Bool → Error → M (Unit {0})
require b e = if b then done tt else fail e

unfoldable pub require_pending : Flow → M (Unit {0})
require_pending f = require (is_pending f.state) (flow_is f.state)

unfoldable pub some_or {ℓ} : {A : Type ℓ} → Error → Option A → M A
some_or e none = fail e
some_or e (some a) = done a

-- The value, or the error returned as it is.
unfoldable pub returned {ℓ} : {A : Type ℓ} → Error ⊎ A → M A
returned (inl e) = fail e
returned (inr a) = done a

abbrev pub ttl_or_day : Option Duration → ℕ
ttl_or_day none = 24 * hour
ttl_or_day (some (positive d)) = if ltb 0 d then d else 24 * hour
ttl_or_day (some not_positive) = 24 * hour

unfoldable pub parse_session_ttl : External → FlowPolicy → ℕ
parse_session_ttl ext pol = ttl_or_day (ext.parse_duration pol.session.ttl)
