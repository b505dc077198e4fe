-- ===== src/Isolation/Writes.antt =====
-- The writes for one tenant keep the rows of another.
use enterprise_kratos.Base.{
  Uuid, List, ◌∷◌, [], Bool, true, false, ◌==◌, ◌≡◌, refl, ◌≢◌, arith, if◌then◌else◌,
  select-update_other, select-delete_other, select-insert_other,
}
use enterprise_kratos.Flow.{Flow}
use enterprise_kratos.Policy.{FlowPolicy}
use enterprise_kratos.Identity.{Identity, Credential, Session, Schema}
use enterprise_kratos.Sso.{Provider}
use enterprise_kratos.Store.{Tables}
use enterprise_kratos.Store.Policies.{policy_of, set_policy}
use enterprise_kratos.Store.Flows
use enterprise_kratos.Store.Identities
use enterprise_kratos.Store.Sessions
use enterprise_kratos.Store.Providers
use enterprise_kratos.Store.Schemas
use enterprise_kratos.Store.Writes.{HasWrites}
use enterprise_kratos.Isolation.{
  SameRows, flows_of, identities_of, credentials_of, sessions_of, schemas_of, providers_of,
}

module _ {t : Uuid} (db : Tables) where
  SameRows-if :
      (b : Bool) {x y : Tables}
      → SameRows t db x
      → SameRows t db y
      → SameRows t db (if b then x else y)
  SameRows-if true p q = p
  SameRows-if false p q = q

  SameRows_refl : SameRows t db db
  SameRows_refl = record {
    flows = refl;
    identities = refl;
    credentials = refl;
    sessions = refl;
    schemas = refl;
    providers = refl;
    tenants = refl;
    policy = refl;
  }

  -- A change of one table.
  flows_same :
      {rows : List Flow}
      → flows_of t (record db { flows = rows }) ≡ flows_of t db
      → SameRows t db (record db { flows = rows })
  flows_same e = record {
    flows = e;
    identities = refl;
    credentials = refl;
    sessions = refl;
    schemas = refl;
    providers = refl;
    tenants = refl;
    policy = refl;
  }

  identities_same :
      {rows : List Identity}
      → identities_of t (record db { identities = rows }) ≡ identities_of t db
      → SameRows t db (record db { identities = rows })
  identities_same e = record {
    flows = refl;
    identities = e;
    credentials = refl;
    sessions = refl;
    schemas = refl;
    providers = refl;
    tenants = refl;
    policy = refl;
  }

  credentials_same :
      {rows : List Credential}
      → credentials_of t (record db { credentials = rows }) ≡ credentials_of t db
      → SameRows t db (record db { credentials = rows })
  credentials_same e = record {
    flows = refl;
    identities = refl;
    credentials = e;
    sessions = refl;
    schemas = refl;
    providers = refl;
    tenants = refl;
    policy = refl;
  }

  sessions_same :
      {rows : List Session}
      → sessions_of t (record db { sessions = rows }) ≡ sessions_of t db
      → SameRows t db (record db { sessions = rows })
  sessions_same e = record {
    flows = refl;
    identities = refl;
    credentials = refl;
    sessions = e;
    schemas = refl;
    providers = refl;
    tenants = refl;
    policy = refl;
  }

  schemas_same :
      {rows : List Schema}
      → schemas_of t (record db { schemas = rows }) ≡ schemas_of t db
      → SameRows t db (record db { schemas = rows })
  schemas_same e = record {
    flows = refl;
    identities = refl;
    credentials = refl;
    sessions = refl;
    schemas = e;
    providers = refl;
    tenants = refl;
    policy = refl;
  }

  providers_same :
      {rows : List Provider}
      → providers_of t (record db { providers = rows }) ≡ providers_of t db
      → SameRows t db (record db { providers = rows })
  providers_same e = record {
    flows = refl;
    identities = refl;
    credentials = refl;
    sessions = refl;
    schemas = refl;
    providers = e;
    tenants = refl;
    policy = refl;
  }

module _ {tenant t : Uuid} (other : t ≢ tenant) where
  foreign : (tenant == t) ≡ false
  foreign = ground arith

  policy_of-set_policy_other :
      (p : FlowPolicy) (rows : List (Uuid × FlowPolicy))
      → policy_of t (set_policy tenant p rows) ≡ policy_of t rows
  policy_of-set_policy_other p [] = ground arith
  policy_of-set_policy_other p ((u, q) ∷ rows) = ground (arith, policy_of-set_policy_other p rows)

  flow_update :
      (id : Uuid) (g : Flow → Flow)
      → ((f : Flow) → (g f).tenant_id ≡ f.tenant_id)
      → (db : Tables) → SameRows t db (Flows.with_update tenant id g db)
  flow_update id g keeps db =
      flows_same db
        (select-update_other _ _ g (λ f h. ground arith) (λ f h. ground (arith, keeps f)) db.flows)

  identity_update :
      (id : Uuid) (g : Identity → Identity)
      → ((i : Identity) → (g i).tenant_id ≡ i.tenant_id)
      → (db : Tables) → SameRows t db (Identities.with_identity_update tenant id g db)
  identity_update id g keeps db = identities_same db (
      select-update_other _ _ g (λ f h. ground arith) (λ f h. ground (arith, keeps f))
        db.identities)

  credential_insert :
      (c : Credential)
      → c.tenant_id ≡ tenant
      → (db : Tables) → SameRows t db (Identities.with_credential c db)
  credential_insert c e db =
      SameRows-if db _ (SameRows_refl db)
        (credentials_same db (select-insert_other _ _ db.credentials (ground arith)))

  credential_upsert :
      (c : Credential)
      → c.tenant_id ≡ tenant
      → (db : Tables) → SameRows t db (Identities.with_upsert c db)
  credential_upsert c e db =
      SameRows-if db _
        (credentials_same db (
          select-update_other _ (Identities.same_key c.tenant_id c.kind c.identifiers) _
            (λ d h. ground arith) (λ d h. ground arith) db.credentials))
        (credential_insert c e db)

  revoked :
      (p : Session → Bool)
      → ((s : Session) → p s ≡ true → (s.tenant_id == t) ≡ false)
      → (db : Tables) → SameRows t db (Sessions.with_revoked p db)
  revoked p q db = sessions_same db (select-update_other _ p _ q q db.sessions)

  pub SameRows-HasWrites : HasWrites (SameRows t) tenant
  SameRows-HasWrites = record {
    insert_flow = λ id kind ui expires_at db.
        SameRows-if db _ (SameRows_refl db)
          (flows_same db (select-insert_other _ _ db.flows foreign));
    update_flow = λ id state identity ui. flow_update id _ (λ f. refl);
    update_flow_state = λ id state. flow_update id _ (λ f. refl);
    insert_identity = λ id schema traits state db.
        SameRows-if db _ (SameRows_refl db)
          (identities_same db (select-insert_other _ _ db.identities foreign));
    update_identity_state = λ id state. identity_update id _ (λ i. refl);
    update_traits = λ id traits. identity_update id _ (λ i. refl);
    insert_credential = λ id identity kind identifiers config. credential_insert _ refl;
    upsert_credential = λ id identity kind identifiers config. credential_upsert _ refl;
    insert_session = λ id identity token expires_at aal amr db.
        SameRows-if db _ (SameRows_refl db)
          (sessions_same db (select-insert_other _ _ db.sessions foreign));
    revoke_session = λ id. revoked _ (λ s h. ground arith);
    revoke_token = λ token. revoked _ (λ s h. ground arith);
    upsert_policy = λ p db. record {
      flows = refl;
      identities = refl;
      credentials = refl;
      sessions = refl;
      schemas = refl;
      providers = refl;
      tenants = refl;
      policy = policy_of-set_policy_other p db.policies;
    };
    insert_schema = λ id schema db.
        SameRows-if db _ (SameRows_refl db)
          (schemas_same db (select-insert_other _ _ db.schemas foreign));
    deactivate_schemas = λ db. schemas_same db (
        select-update_other _ _ Schemas.deactivated (λ s h. ground arith) (λ s h. ground arith)
          db.schemas);
    insert_provider = λ id kind name config db.
        SameRows-if db _ (SameRows_refl db)
          (providers_same db (select-insert_other _ _ db.providers foreign));
    update_provider = λ id enabled db. providers_same db (
        select-update_other _ _ (Providers.set_enabled_to enabled) (λ p h. ground arith)
          (λ p h. ground arith) db.providers);
    delete_provider =
        λ id db. providers_same db (select-delete_other _ _ (λ p h. ground arith) db.providers);
  }
