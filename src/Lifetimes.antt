-- ===== src/Lifetimes.antt =====
-- What a flow, an identity, a credential or a session keeps, whatever the requests do: its row is
-- not removed, and only some of its columns can change. Providers are left out.
pub mod Writes
pub mod Histories
use enterprise_kratos.Base.{ℕ, Uuid, Bool, List, some, ◌⊎◌, inl, inr, ◌≡◌, refl, ◌∙◌, find, ap}
use enterprise_kratos.Flow.{Flow}
use enterprise_kratos.Identity.{Identity, Credential, Session}
use enterprise_kratos.Store.{Tables}
use enterprise_kratos.Store.Frame.{IsOrder}
use enterprise_kratos.Store.Flows
use enterprise_kratos.Store.Identities
use enterprise_kratos.Store.Sessions

-- What is found by a key stays, up to a relation.
abbrev pub Persists {ℓ κ} :
    {A : Type ℓ} → (A → A → Type κ) → (A → Bool) → List A → List A → Type (ℓ ⊔ κ)
Persists {A} R p xs ys = (x : A) → find p xs ≡ some x → (y : A) × (find p ys ≡ some y) × R x y

-- A session can be revoked, and nothing else can happen to it.
abbrev pub SessionLater : Session → Session → Type 0
SessionLater s s' = (s' ≡ s) ⊎ (s' ≡ Sessions.deactivate s)

-- A flow keeps its type and its expiry.
abbrev pub FlowLater : Flow → Flow → Type 0
FlowLater f f' = (f'.kind ≡ f.kind) × (f'.expires_at ≡ f.expires_at)

abbrev pub IdentityLater : Identity → Identity → Type 0
IdentityLater i i' = i'.schema_id ≡ i.schema_id

-- A credential keeps its identity and its type.
abbrev pub CredentialLater : Credential → Credential → Type 0
CredentialLater c c' = (c'.identity_id ≡ c.identity_id) × (c'.kind ≡ c.kind)

pub record Later (a b : Tables) : Type 0 where
  pub sessions :
      (t id : Uuid) → Persists SessionLater (Sessions.is_session t id) a.sessions b.sessions
  pub flows : (t id : Uuid) → Persists FlowLater (Flows.is_flow t id) a.flows b.flows
  pub identities :
      (t id : Uuid) → Persists IdentityLater (Identities.is_identity t id) a.identities b.identities
  pub credentials :
      (t id : Uuid)
      → Persists CredentialLater (Identities.is_credential t id) a.credentials b.credentials

session_trans : (x y z : Session) → SessionLater x y → SessionLater y z → SessionLater x z
session_trans x y z (inl p) (inl q) = inl (q ∙ p)
session_trans x y z (inl p) (inr q) = inr (q ∙ ap Sessions.deactivate p)
session_trans x y z (inr p) (inl q) = inr (q ∙ p)
session_trans x y z (inr p) (inr q) = inr (q ∙ ap Sessions.deactivate p)

pub Later-IsOrder : IsOrder Later
Later-IsOrder = record {
  same = λ db. record {
    sessions = λ t id x h. (x, h, inl refl);
    flows = λ t id x h. (x, h, (refl, refl));
    identities = λ t id x h. (x, h, refl);
    credentials = λ t id x h. (x, h, (refl, refl));
  };
  then_ = λ p q. record {
    sessions = λ t id x h.
        let (y, k, r) = p.sessions t id x h in
        let (z, l, s) = q.sessions t id y k in (z, l, session_trans x y z r s);
    flows = λ t id x h.
        let (y, k, r) = p.flows t id x h in
        let (z, l, s) = q.flows t id y k in (z, l, (s.0 ∙ r.0, s.1 ∙ r.1));
    identities = λ t id x h.
        let (y, k, r) = p.identities t id x h in
        let (z, l, s) = q.identities t id y k in (z, l, s ∙ r);
    credentials = λ t id x h.
        let (y, k, r) = p.credentials t id x h in
        let (z, l, s) = q.credentials t id y k in (z, l, (s.0 ∙ r.0, s.1 ∙ r.1));
  };
}
