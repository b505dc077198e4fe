-- ===== src/Authenticator/Password/Laws.antt =====
-- A password that was enrolled is accepted.
use enterprise_kratos.Base.{
  ℕ, String, false, some, [], ◌∷◌, null, ◌≡◌, ◌∙◌, arith, ap, str_eq, value_of,
}
use enterprise_kratos.Store.{World, ok, effects}
use enterprise_kratos.Authenticator.{AuthResult, CompleteFlowRequest, EnrollRequest, EnrollResult}
use enterprise_kratos.Authenticator.Password
use enterprise_kratos.Authenticator.Password.{Bcrypt, Comparison, same, mismatch, broken_hash}

abbrev pub accepted : CompleteFlowRequest → AuthResult
accepted q = record {
  identity_id = q.identity_id;
  aal = "aal1";
  amr = "pwd" ∷ [];
  credential_config = null;
}

module _ (bcrypt : Bcrypt)
    (lawful : (n : ℕ) (plain hash : String)
      → bcrypt.generate Password.cost n plain ≡ some hash
      → bcrypt.compare hash plain ≡ same) where
  hashed_case :
      (r : EnrollRequest) (w : World) (e : EnrollResult)
      → (Password.enroll bcrypt r w).0 ≡ ok e
      → (hash : String) × (bcrypt.generate Password.cost w.calls (value_of "password" r.values)
          ≡ some hash)
        × (e.credential_config ≡ Password.encode_config hash)
        × (str_eq (value_of "password" r.values) "" ≡ false)
  unfolding Password.enroll Password.hashed Password.or_error effects
  hashed_case r w e h = ground arith

  accepts :
      (q : CompleteFlowRequest) (hash : String) (v : World)
      → str_eq (value_of "password" q.values) "" ≡ false
      → q.credential_config ≡ Password.encode_config hash
      → bcrypt.compare hash (value_of "password" q.values) ≡ same
      → Password.complete_flow bcrypt q v ≡ (ok (accepted q), v)
  unfolding Password.complete_flow Password.or_error Password.compared effects
  accepts q hash v typed config matches = ground arith

  pub enroll-accepts :
      (r : EnrollRequest) (w : World) (e : EnrollResult) (q : CompleteFlowRequest) (v : World)
      → (Password.enroll bcrypt r w).0 ≡ ok e
      → value_of "password" q.values ≡ value_of "password" r.values
      → q.credential_config ≡ e.credential_config
      → Password.complete_flow bcrypt q v ≡ (ok (accepted q), v)
  enroll-accepts r w e q v h same_password config =
      let (hash, generated, stored, typed) = hashed_case r w e h in
      accepts q hash v (ap (λ p. str_eq p "") same_password ∙ typed) (config ∙ stored)
        (ap (bcrypt.compare hash) same_password ∙ lawful w.calls _ hash generated)

  -- With a bcrypt whose hashes match the passwords that they were generated from: what was enrolled
  -- for a password completes a flow that submits the same password, at the level aal1.
  pub enroll-complete_flow :
      (r : EnrollRequest) (w : World) (e : EnrollResult) (q : CompleteFlowRequest) (v : World)
      → (Password.enroll bcrypt r w).0 ≡ ok e
      → value_of "password" q.values ≡ value_of "password" r.values
      → q.credential_config ≡ e.credential_config
      → (Password.complete_flow bcrypt q v).0
        ≡ ok (record {
          identity_id = q.identity_id;
          aal = "aal1";
          amr = "pwd" ∷ [];
          credential_config = null;
        })
  enroll-complete_flow r w e q v h same_password config =
      ap (λ x. x.0) (enroll-accepts r w e q v h same_password config)
