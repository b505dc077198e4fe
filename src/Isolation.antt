-- ===== src/Isolation.antt =====
-- Tenants are isolated: what an operation does for one tenant leaves the rows of every other tenant
-- as they are, in all tables and on every path, errors included.
mod Writes
pub mod Engines
pub mod Web
pub mod Imports
use enterprise_kratos.Base.{Uuid, List, ◌==◌, ◌≡◌, refl, ◌∙◌, ◌≢◌, select}
use enterprise_kratos.Flow.{Flow}
use enterprise_kratos.Identity.{Identity, Credential, Session, Schema}
use enterprise_kratos.Sso.{Provider}
use enterprise_kratos.Store.{Tables}
use enterprise_kratos.Store.Policies.{policy_of}
use enterprise_kratos.Store.Frame.{IsOrder}

abbrev pub flows_of : Uuid → Tables → List Flow
flows_of t db = select (λ f. f.tenant_id == t) db.flows

abbrev pub identities_of : Uuid → Tables → List Identity
identities_of t db = select (λ i. i.tenant_id == t) db.identities

abbrev pub credentials_of : Uuid → Tables → List Credential
credentials_of t db = select (λ c. c.tenant_id == t) db.credentials

abbrev pub sessions_of : Uuid → Tables → List Session
sessions_of t db = select (λ s. s.tenant_id == t) db.sessions

abbrev pub schemas_of : Uuid → Tables → List Schema
schemas_of t db = select (λ s. s.tenant_id == t) db.schemas

abbrev pub providers_of : Uuid → Tables → List Provider
providers_of t db = select (λ p. p.tenant_id == t) db.providers

-- The rows of one tenant, and the table of tenants, are the same in both.
pub record SameRows (t : Uuid) (a b : Tables) : Type 0 where
  pub flows : flows_of t b ≡ flows_of t a
  pub identities : identities_of t b ≡ identities_of t a
  pub credentials : credentials_of t b ≡ credentials_of t a
  pub sessions : sessions_of t b ≡ sessions_of t a
  pub schemas : schemas_of t b ≡ schemas_of t a
  pub providers : providers_of t b ≡ providers_of t a
  pub tenants : b.tenants ≡ a.tenants
  pub policy : policy_of t b.policies ≡ policy_of t a.policies

pub SameRows-IsOrder : (t : Uuid) → IsOrder (SameRows t)
SameRows-IsOrder t = record {
  same = λ db. record {
    flows = refl;
    identities = refl;
    credentials = refl;
    sessions = refl;
    schemas = refl;
    providers = refl;
    tenants = refl;
    policy = refl;
  };
  then_ = λ p q. record {
    flows = q.flows ∙ p.flows;
    identities = q.identities ∙ p.identities;
    credentials = q.credentials ∙ p.credentials;
    sessions = q.sessions ∙ p.sessions;
    schemas = q.schemas ∙ p.schemas;
    providers = q.providers ∙ p.providers;
    tenants = q.tenants ∙ p.tenants;
    policy = q.policy ∙ p.policy;
  };
}
