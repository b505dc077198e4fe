-- ===== src/Settings/Takeover.antt =====
-- The row that a new password is written to is found by the identifiers alone.
use enterprise_kratos.Base.{
  Uuid, String, true, List, [], ◌∷◌, Option, some, none, Json, ◌⊎◌, inl, inr, ◌≡◌, refl, ap, ◌∙◌,
  arith, find, find-update_hit, any_of_find, eq_refl,
}
use enterprise_kratos.Flow.{Flow, Ui, success}
use enterprise_kratos.Identity.{Credential, Identity}
use enterprise_kratos.Errors.{Error, credential_not_found}
use enterprise_kratos.Store.{Tables, Env, World, ok, err, M, ignore, attempt, effects, ◌>>=◌, ◌>>◌}
use enterprise_kratos.Store.Flows
use enterprise_kratos.Store.Identities
use enterprise_kratos.Store.Calm.{IsCalm, after_call, >>=-of, >>-of, attempt-of}
use enterprise_kratos.Authenticator.{Authenticator, EnrollResult}
use enterprise_kratos.Authenticator.Registry.{Registry, get}
use enterprise_kratos.Traits.{email_of}
use enterprise_kratos.Settings

same_texts_refl : (xs : List String) → Identities.same_texts xs xs ≡ true
same_texts_refl [] = refl
same_texts_refl (x ∷ xs) = ground (arith, eq_refl x, same_texts_refl xs)

-- The update sets the identifiers by which it found the row.
same_key-set :
    (tenant : Uuid) (kind : String) (identifiers : List String) (config : Json) (c : Credential)
    → Identities.same_key tenant kind identifiers c ≡ true
    → Identities.same_key tenant kind identifiers (Identities.set_credential identifiers config c)
      ≡ true
same_key-set tenant kind identifiers config c h = ground (arith, same_texts_refl identifiers)

password-of :
    (x : Error ⊎ Authenticator) (a : Authenticator) (k : Authenticator → M (Unit {0})) (w : World)
    → x ≡ inr a
    → (Settings.password_authenticator x >>= k) w ≡ k a w
unfolding Settings.password_authenticator effects
password-of (inl e) a k w h = cc
password-of (inr b) a k w h = cc

module _ ⦃env : Env⦄ (calm : IsCalm env) where
  upsert-of :
      (tenant identity : Uuid) (kind : String) (identifiers : List String) (config : Json)
      (c : Credential) (w : World)
      → find (Identities.same_key tenant kind identifiers) w.db.credentials ≡ some c
      → (db : Tables) × (Identities.upsert_credential tenant identity kind identifiers config w
          ≡ (ok tt, after_call db w))
        × (find (Identities.same_key tenant kind identifiers) db.credentials
            ≡ some (Identities.set_credential identifiers config c))
  unfolding Identities.upsert_credential effects
  upsert-of tenant identity kind identifiers config c w h = (
    Identities.with_upsert
        (Identities.new_credential (env.fresh_uuid w.calls) tenant identity kind identifiers config)
        w.db,
    ground (
      arith,
      calm w.calls,
      any_of_find (Identities.same_key tenant kind identifiers) w.db.credentials c h,
    ),
    ground (
      arith,
      any_of_find (Identities.same_key tenant kind identifiers) w.db.credentials c h,
      h,
      find-update_hit (Identities.same_key tenant kind identifiers)
          (Identities.set_credential identifiers config)
          (same_key-set tenant kind identifiers config) w.db.credentials,
    ),
  )

  missing-of :
      (tenant identity : Uuid) (w : World)
      → find (Identities.belongs_to tenant identity "password") w.db.credentials ≡ none
      → Identities.get_by_identity_and_type tenant identity "password" w
        ≡ (err credential_not_found, after_call w.db w)
  unfolding Identities.get_by_identity_and_type effects
  missing-of tenant identity w h = ground (arith, calm w.calls)

  identity-of :
      (tenant identity : Uuid) (i : Identity) (w : World)
      → find (Identities.is_identity tenant identity) w.db.identities ≡ some i
      → Identities.get_identity tenant identity w ≡ (ok i, after_call w.db w)
  unfolding Identities.get_identity effects
  identity-of tenant identity i w h = ground (arith, calm w.calls)

  -- Without a credential of its own, the identifier is the email of the traits.
  identifiers-of :
      (tenant identity : Uuid) (i : Identity) (email : String) (w : World)
      → find (Identities.is_identity tenant identity) w.db.identities ≡ some i
      → email_of i.traits ≡ some email
      → Settings.identifiers_for tenant identity [] (inl credential_not_found) w
        ≡ (ok (some (email ∷ [])), after_call w.db w)
  unfolding Settings.identifiers_for Identities.get_identity effects
  identifiers-of tenant identity i email w h named = ground (arith, calm w.calls)

  marked :
      (tenant id : Uuid) (identity : Option Uuid) (ui : Ui) (w : World)
      → ((ignore (Flows.update tenant id success identity ui) w).0 ≡ ok tt)
        × ((ignore (Flows.update tenant id success identity ui) w).1.db.credentials
            ≡ w.db.credentials)
  unfolding Flows.update Flows.affected effects
  marked tenant id identity ui w = (ground (arith, calm w.calls), ground (arith, calm w.calls))

  -- A new password in the settings of an identity that has no password credential, where the
  -- database does not fail and the authenticator enrolls it without identifiers: if the email of
  -- the identity's traits is the identifier of a password credential of the tenant, whosever that
  -- is, the submission succeeds and that credential has the new configuration, with its identity as
  -- it was.
  pub submit_password-overwrites :
      (reg : Registry) (a : Authenticator) (tenant id identity : Uuid) (f : Flow)
      (values : List (String × String)) (enrolled : EnrollResult) (i : Identity) (email : String)
      (c : Credential) (w v : World)
      → get "password" reg ≡ inr a
      → a.enroll (record { tenant_id = tenant; identity_id = identity; values = values }) w
        ≡ (ok enrolled, v)
      → enrolled.identifiers ≡ []
      → find (Identities.belongs_to tenant identity "password") v.db.credentials ≡ none
      → find (Identities.is_identity tenant identity) v.db.identities ≡ some i
      → email_of i.traits ≡ some email
      → find (Identities.same_key tenant "password" (email ∷ [])) v.db.credentials ≡ some c
      → ((Settings.submit_password reg tenant id identity f values w).0 ≡ ok tt)
        × (find
              (Identities.same_key tenant "password" (email ∷ []))
              (Settings.submit_password reg tenant id identity f values w).1.db.credentials
            ≡ some (record c { identifiers = email ∷ []; config = enrolled.credential_config }))
  unfolding Settings.submit_password Settings.upsert_password
  submit_password-overwrites reg a tenant id identity f values enrolled i email c w v registered
        enrolls bare no_own known named taken =
      let v1 = after_call v.db v in
      let v2 = after_call v.db v1 in
      let (db, upserts, row) =
        upsert-of tenant identity "password" (email ∷ []) enrolled.credential_config c v2 taken in
      let (answers, same) =
        marked tenant id (some identity) (Settings.done_ui f.ui Settings.password_updated)
          (after_call db v2) in
      let whole =
        password-of _ a _ w registered
        ∙ >>=-of (a.enroll _) _ enrolls
        ∙ >>=-of (attempt (Identities.get_by_identity_and_type tenant identity "password")) _
            (attempt-of _ (missing-of tenant identity v no_own))
        ∙ ap
            (λ l.
              (Settings.identifiers_for tenant identity l (inl credential_not_found)
                  >>= rest enrolled)
                v1)
            bare
        ∙ >>=-of (Settings.identifiers_for tenant identity [] (inl credential_not_found))
            (rest enrolled) (identifiers-of tenant identity i email v1 known named)
        ∙ >>-of _ _ upserts in
      (
        ap (λ x. x.0) whole ∙ answers,
        ap (λ x. find (Identities.same_key tenant "password" (email ∷ [])) x.1.db.credentials) whole
            ∙ ap (find (Identities.same_key tenant "password" (email ∷ []))) same
            ∙ row,
      )
    where
      rest : EnrollResult → Option (List String) → M (Unit {0})
      rest e identifiers =
          Settings.upsert_password tenant identity e.credential_config identifiers
          >> ignore (
              Flows.update tenant id success (some identity)
                (Settings.done_ui f.ui Settings.password_updated))
