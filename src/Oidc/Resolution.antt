-- ===== src/Oidc/Resolution.antt =====
-- Whom a callback signs in: an identity that was there, or one that it makes.
use enterprise_kratos.Base.{
  Uuid, String, Bool, true, false, some, none, [], ◌∷◌, ◌++◌, ◌⊎◌, inl, inr, ◌≡◌, refl, sym, ap,
  subst, ◌∙◌, arith, find, eq_iff,
}
use enterprise_kratos.Identity.{Identity, Credential, state_active}
use enterprise_kratos.External.{External}
use enterprise_kratos.Errors.{Error, credential_not_found}
use enterprise_kratos.Store.{Tables, Env, World, Result, ok, effects, attempt}
use enterprise_kratos.Store.Identities
use enterprise_kratos.Store.Schemas
use enterprise_kratos.Store.Frame.{IsOrder}
use enterprise_kratos.Store.Keeping.{ensure_default-keeps}
use enterprise_kratos.Store.Outcome.{
  >>=-eq-ok, get_identity-eq-ok, create_identity-eq-ok, create_credential-eq-ok,
}
use enterprise_kratos.Engine.Outcome.{require-eq-ok}
use enterprise_kratos.Registration.Accounts.{looked_up-free}
use enterprise_kratos.Oidc
use enterprise_kratos.Oidc.{Authenticated, CallbackResult}
use enterprise_kratos.Oidc.Client.{OidcClient}

-- The identities, credentials and sessions are the same.
abbrev pub SamePeople : Tables → Tables → Type 0
SamePeople a b =
    (b.identities ≡ a.identities) × (b.credentials ≡ a.credentials) × (b.sessions ≡ a.sessions)

pub SamePeople-IsOrder : IsOrder SamePeople
SamePeople-IsOrder = record {
  same = λ db. (refl, refl, refl);
  then_ = λ p q. (q.0 ∙ p.0, q.1 ∙ p.1, q.2 ∙ p.2);
}

module _ (ext : External) (tenant : Uuid) (a : Authenticated) (db after : Tables)
    (who : Uuid × Bool) where
  -- A credential of the provider and the subject was there, of an active identity.
  pub record Known : Type 0 where
    pub cred : Credential
    pub found :
        find
          (Identities.has_identifier tenant "oidc"
            (Oidc.cred_identifier ext a.provider_id a.claims.sub))
          db.credentials
        ≡ some cred
    pub identity : Identity
    pub is_identity :
        find (Identities.is_identity tenant cred.identity_id) db.identities ≡ some identity
    pub active : identity.state ≡ state_active
    pub answers : who ≡ (cred.identity_id, false)
    pub unwritten : SamePeople db after

  -- None was there, and an active identity was made with one.
  pub record Provisioned : Type 0 where
    pub free :
        find
          (Identities.has_identifier tenant "oidc"
            (Oidc.cred_identifier ext a.provider_id a.claims.sub))
          db.credentials
        ≡ none
    pub identity : Identity
    pub made :
        identity
        ≡ Identities.new_identity identity.id tenant identity.schema_id
            (Oidc.jit_traits a.claims)
            state_active
    pub cred : Credential
    pub is_credential :
        cred
        ≡ Identities.new_credential cred.id tenant identity.id "oidc"
            (Oidc.cred_identifier ext a.provider_id a.claims.sub ∷ [])
            (Oidc.jit_config ext a)
    pub answers : who ≡ (identity.id, true)
    pub identities : after.identities ≡ db.identities ++ identity ∷ []
    pub credentials : after.credentials ≡ db.credentials ++ cred ∷ []
    pub sessions : after.sessions ≡ db.sessions

abbrev pub Resolved : External → Uuid → Authenticated → Tables → Tables → Uuid × Bool → Type 0
Resolved ext tenant a db after who =
    Known ext tenant a db after who ⊎ Provisioned ext tenant a db after who

pub Resolved-moved :
    (ext : External) (tenant : Uuid) (a : Authenticated) (who : Uuid × Bool)
    {db db' after after' : Tables}
    → db ≡ db'
    → after ≡ after'
    → Resolved ext tenant a db after who
    → Resolved ext tenant a db' after' who
Resolved-moved ext tenant a who {db} {db'} {after} {after'} p q h =
    subst (λ x. Resolved ext tenant a db' x who) q
      (subst (λ x. Resolved ext tenant a x after who) p h)

pub ok-injective {ℓ} : {A : Type ℓ} {a b : A} → Result.ok a ≡ ok b → a ≡ b
ok-injective h = cc

module _ ⦃env : Env⦄ (ext : External) (client : OidcClient) (tenant : Uuid) where
  existing-eq-ok :
      (c : Credential) (w : World) (who : Uuid × Bool)
      → (Oidc.existing_identity ext client tenant c w).0 ≡ ok who
      → (i : Identity) × (find (Identities.is_identity tenant c.identity_id) w.db.identities
          ≡ some i)
        × (i.state ≡ state_active)
        × (who ≡ (c.identity_id, false))
        × ((Oidc.existing_identity ext client tenant c w).1.db ≡ w.db)
  unfolding Oidc.existing_identity effects
  existing-eq-ok c w who h =
      let (i, asked, h1, e1) = >>=-eq-ok (Identities.get_identity tenant c.identity_id) _ w h in
      let (row, same) = get_identity-eq-ok tenant c.identity_id w asked in
      let w1 = (Identities.get_identity tenant c.identity_id w).1 in
      let (active, h2, e2) = require-eq-ok w1 _ _ _ h1 in
      (
        i,
        row,
        (eq_iff i.state state_active).0 active,
        sym (ok-injective h2),
        ap (λ x. x.1.db) (e1 ∙ e2) ∙ same,
      )

  provision-eq-ok :
      (a : Authenticated) (w : World) (who : Uuid × Bool)
      → find
          (Identities.has_identifier tenant "oidc"
            (Oidc.cred_identifier ext a.provider_id a.claims.sub))
          w.db.credentials
        ≡ none
      → (Oidc.provision ext client tenant a w).0 ≡ ok who
      → Provisioned ext tenant a w.db (Oidc.provision ext client tenant a w).1.db who
  unfolding Oidc.provision effects
  provision-eq-ok a w who free h =
      let (schema, ensured, h1, e1) = >>=-eq-ok (Schemas.ensure_default tenant) _ w h in
      let kept = (ensure_default-keeps SamePeople-IsOrder tenant (λ id db. ground arith)).keeps w in
      let w1 = (Schemas.ensure_default tenant w).1 in
      let (i, creates, h2, e2) =
        >>=-eq-ok
          (Identities.create_identity tenant schema.id (Oidc.jit_traits a.claims) state_active) _ w1
          h1 in
      let (made, rows) =
        create_identity-eq-ok tenant schema.id (Oidc.jit_traits a.claims) state_active w1 creates in
      let w2 =
        (Identities.create_identity tenant schema.id (Oidc.jit_traits a.claims) state_active
          w1).1 in
      let (c, adds, h3, e3) =
        >>=-eq-ok
          (Identities.create_credential tenant i.id "oidc"
            (Oidc.cred_identifier ext a.provider_id a.claims.sub ∷ []) (Oidc.jit_config ext a))
          _ w2 h2 in
      let (added, credentials) =
        create_credential-eq-ok tenant i.id "oidc"
          (Oidc.cred_identifier ext a.provider_id a.claims.sub ∷ []) (Oidc.jit_config ext a) w2
          adds in
      let whole = ap (λ x. x.1.db) (e1 ∙ e2 ∙ e3) in
      record {
        free = free;
        identity = i;
        made =
            subst
              (λ s.
                i ≡ Identities.new_identity i.id tenant s (Oidc.jit_traits a.claims) state_active)
              (sym (ap (λ (x : Identity). x.schema_id) made)) made;
        cred = c;
        is_credential = added;
        answers = sym (ok-injective h3);
        identities =
            ap (λ (db : Tables). db.identities) (whole ∙ credentials)
            ∙ ap (λ (db : Tables). db.identities) rows
            ∙ ap (λ l. l ++ i ∷ []) kept.0;
        credentials =
            ap (λ (db : Tables). db.credentials) (whole ∙ credentials)
            ∙ ap (λ (db : Tables). db.credentials ++ c ∷ []) rows
            ∙ ap (λ l. l ++ c ∷ []) kept.1;
        sessions =
            ap (λ (db : Tables). db.sessions) (whole ∙ credentials)
            ∙ ap (λ (db : Tables). db.sessions) rows
            ∙ kept.2;
      }

  same_people : {a b : Tables} → b ≡ a → SamePeople a b
  same_people e = (
    ap (λ (db : Tables). db.identities) e,
    ap (λ (db : Tables). db.credentials) e,
    ap (λ (db : Tables). db.sessions) e,
  )

  found-eq-ok :
      (a : Authenticated) (r : Error ⊎ Credential) (w : World) (who : Uuid × Bool)
      → (r ≡ inl credential_not_found
          → find
              (Identities.has_identifier tenant "oidc"
                (Oidc.cred_identifier ext a.provider_id a.claims.sub))
              w.db.credentials
            ≡ none)
      → ((c : Credential)
          → r ≡ inr c
          → find
              (Identities.has_identifier tenant "oidc"
                (Oidc.cred_identifier ext a.provider_id a.claims.sub))
              w.db.credentials
            ≡ some c)
      → (Oidc.found_or_provisioned ext client tenant a r w).0 ≡ ok who
      → Resolved ext tenant a w.db (Oidc.found_or_provisioned ext client tenant a r w).1.db who
  unfolding Oidc.found_or_provisioned effects
  found-eq-ok a (inr c) w who free found h =
      let (i, row, active, answers, same) = existing-eq-ok c w who h in
      inl (record {
        cred = c;
        found = found c refl;
        identity = i;
        is_identity = row;
        active = active;
        answers = answers;
        unwritten = same_people same;
      })
  found-eq-ok a (inl credential_not_found) w who free found h =
      inr (provision-eq-ok a w who (free refl) h)
  found-eq-ok a (inl e) w who free found h = absurd (ground arith)

  looked_up-same :
      (key : String) (w : World)
      → (attempt (Identities.get_by_identifier tenant "oidc" key) w).1.db ≡ w.db
  unfolding Identities.get_by_identifier effects
  looked_up-same key w = ground arith

  looked_up-found :
      (key : String) (w : World) (c : Credential)
      → (attempt (Identities.get_by_identifier tenant "oidc" key) w).0 ≡ ok (inr c)
      → find (Identities.has_identifier tenant "oidc" key) w.db.credentials ≡ some c
  unfolding Identities.get_by_identifier effects
  looked_up-found key w c h = ground arith

  pub resolve_identity-eq-ok :
      (a : Authenticated) (w : World) (who : Uuid × Bool)
      → (Oidc.resolve_identity ext client tenant a w).0 ≡ ok who
      → Resolved ext tenant a w.db (Oidc.resolve_identity ext client tenant a w).1.db who
  unfolding Oidc.resolve_identity
  resolve_identity-eq-ok a w who h =
      let key = Oidc.cred_identifier ext a.provider_id a.claims.sub in
      let (x, tried, h1, e1) =
        >>=-eq-ok (attempt (Identities.get_by_identifier tenant "oidc" key)) _ w h in
      let w1 = (attempt (Identities.get_by_identifier tenant "oidc" key) w).1 in
      let same = looked_up-same key w in
      let found =
        found-eq-ok a x w1 who
          (λ missing.
            subst (λ db. find (Identities.has_identifier tenant "oidc" key) db.credentials ≡ none)
              (sym same) (looked_up-free tenant "oidc" key w (tried ∙ ap ok missing)).0)
          (λ c present.
            subst (λ db. find (Identities.has_identifier tenant "oidc" key) db.credentials ≡ some c)
              (sym same) (looked_up-found key w c (tried ∙ ap ok present)))
          h1 in
      Resolved-moved ext tenant a who same (sym (ap (λ x. x.1.db) e1)) found
