-- ===== src/Lifetimes/Writes.antt =====
-- Each write of the stores keeps the rows, up to the columns that can change.
use enterprise_kratos.Base.{
  Uuid, Bool, true, false, List, [], ◌∷◌, ◌++◌, inl, inr, ◌≡◌, refl, sym, subst, update,
  find-insert-some, find-update-some, if◌then◌else◌,
}
use enterprise_kratos.Flow.{Flow}
use enterprise_kratos.Identity.{Identity, Credential, Session}
use enterprise_kratos.Store.{Tables}
use enterprise_kratos.Store.Flows
use enterprise_kratos.Store.Identities
use enterprise_kratos.Store.Sessions
use enterprise_kratos.Store.Writes.{HasWrites}
use enterprise_kratos.Lifetimes.{
  Persists, SessionLater, FlowLater, IdentityLater, CredentialLater, Later, Later-IsOrder,
}

module _ {ℓ κ} {A : Type ℓ} (R : A → A → Type κ) (p : A → Bool) (same : (x : A) → R x x) where
  inserted : (z : A) (xs : List A) → Persists R p xs (xs ++ z ∷ [])
  inserted z xs x h = (x, find-insert-some p z x xs h, same x)

  updated :
      (q : A → Bool) (g : A → A)
      → ((x : A) → p (g x) ≡ p x)
      → ((x : A) → R x (g x))
      → (xs : List A) → Persists R p xs (update q g xs)
  updated q g keeps later xs x h = elim (find-update-some p q g keeps x xs h) [
    | inl k ↦ (x, k, same x)
    | inr k ↦ (g x, k, later x)
  ]

module _ (db : Tables) where
  Later-if : (b : Bool) {x y : Tables} → Later db x → Later db y → Later db (if b then x else y)
  Later-if true p q = p
  Later-if false p q = q

  start : Later db db
  start = Later-IsOrder.same db

  sessions_later :
      {rows : List Session}
      → ((t id : Uuid) → Persists SessionLater (Sessions.is_session t id) db.sessions rows)
      → Later db (record db { sessions = rows })
  sessions_later h = record {
    sessions = h;
    flows = start.flows;
    identities = start.identities;
    credentials = start.credentials;
  }

  flows_later :
      {rows : List Flow}
      → ((t id : Uuid) → Persists FlowLater (Flows.is_flow t id) db.flows rows)
      → Later db (record db { flows = rows })
  flows_later h = record {
    sessions = start.sessions;
    flows = h;
    identities = start.identities;
    credentials = start.credentials;
  }

  identities_later :
      {rows : List Identity}
      → ((t id : Uuid) → Persists IdentityLater (Identities.is_identity t id) db.identities rows)
      → Later db (record db { identities = rows })
  identities_later h = record {
    sessions = start.sessions;
    flows = start.flows;
    identities = h;
    credentials = start.credentials;
  }

  credentials_later :
      {rows : List Credential}
      → ((t id : Uuid)
          → Persists CredentialLater (Identities.is_credential t id) db.credentials rows)
      → Later db (record db { credentials = rows })
  credentials_later h = record {
    sessions = start.sessions;
    flows = start.flows;
    identities = start.identities;
    credentials = h;
  }

  untouched :
      (other : Tables)
      → other.sessions ≡ db.sessions
      → other.flows ≡ db.flows
      → other.identities ≡ db.identities
      → other.credentials ≡ db.credentials
      → Later db other
  untouched other s f i c = record {
    sessions = λ t id. subst (Persists SessionLater _ db.sessions) (sym s) (start.sessions t id);
    flows = λ t id. subst (Persists FlowLater _ db.flows) (sym f) (start.flows t id);
    identities =
        λ t id. subst (Persists IdentityLater _ db.identities) (sym i) (start.identities t id);
    credentials =
        λ t id. subst (Persists CredentialLater _ db.credentials) (sym c) (start.credentials t id);
  }

  credential_inserted : (c : Credential) → Later db (Identities.with_credential c db)
  credential_inserted c =
      Later-if _ start
        (credentials_later λ t id. inserted CredentialLater _ (λ x. (refl, refl)) c db.credentials)

pub Later-HasWrites : (tenant : Uuid) → HasWrites Later tenant
Later-HasWrites tenant = record {
  insert_flow = λ id kind ui expires_at db.
      Later-if db _ (start db)
        (flows_later db λ t i. inserted FlowLater _ (λ x. (refl, refl)) _ db.flows);
  update_flow = λ id state identity ui db.
      flows_later db
        λ t i. updated FlowLater _ (λ x. (refl, refl)) _ _ (λ x. refl) (λ x. (refl, refl)) db.flows;
  update_flow_state = λ id state db.
      flows_later db
        λ t i. updated FlowLater _ (λ x. (refl, refl)) _ _ (λ x. refl) (λ x. (refl, refl)) db.flows;
  insert_identity = λ id schema traits state db.
      Later-if db _ (start db)
        (identities_later db λ t i. inserted IdentityLater _ (λ x. refl) _ db.identities);
  update_identity_state = λ id state db.
      identities_later db
        λ t i. updated IdentityLater _ (λ x. refl) _ _ (λ x. refl) (λ x. refl) db.identities;
  update_traits = λ id traits db.
      identities_later db
        λ t i. updated IdentityLater _ (λ x. refl) _ _ (λ x. refl) (λ x. refl) db.identities;
  insert_credential = λ id identity kind identifiers config db. credential_inserted db _;
  upsert_credential = λ id identity kind identifiers config db.
      Later-if db _
        (credentials_later db λ t i.
          updated CredentialLater _ (λ x. (refl, refl)) _ _ (λ x. refl) (λ x. (refl, refl))
            db.credentials)
        (credential_inserted db _);
  insert_session = λ id identity token expires_at aal amr db.
      Later-if db _ (start db)
        (sessions_later db λ t i. inserted SessionLater _ (λ x. inl refl) _ db.sessions);
  revoke_session = λ id db.
      sessions_later db
        λ t i. updated SessionLater _ (λ x. inl refl) _ _ (λ x. refl) (λ x. inr refl) db.sessions;
  revoke_token = λ token db.
      sessions_later db
        λ t i. updated SessionLater _ (λ x. inl refl) _ _ (λ x. refl) (λ x. inr refl) db.sessions;
  upsert_policy = λ p db. untouched db _ refl refl refl refl;
  insert_schema = λ id schema db. Later-if db _ (start db) (untouched db _ refl refl refl refl);
  deactivate_schemas = λ db. untouched db _ refl refl refl refl;
  insert_provider =
      λ id kind name config db. Later-if db _ (start db) (untouched db _ refl refl refl refl);
  update_provider = λ id enabled db. untouched db _ refl refl refl refl;
  delete_provider = λ id db. untouched db _ refl refl refl refl;
}
