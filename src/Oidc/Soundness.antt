-- ===== src/Oidc/Soundness.antt =====
-- What a callback that succeeds has done: whom it signed in, and what it wrote.
use enterprise_kratos.Base.{
  ℕ, Uuid, String, Bool, true, false, Option, some, List, [], ◌∷◌, ◌++◌, ◌≡◌, refl, sym, ap, subst,
  ◌∙◌, arith, any,
}
use enterprise_kratos.Flow.{Flow, State, Ui, success}
use enterprise_kratos.External.{External}
use enterprise_kratos.Store.{Tables, Env, World, ok, effects, ignore}
use enterprise_kratos.Store.Flows
use enterprise_kratos.Store.Policies
use enterprise_kratos.Store.Sessions
use enterprise_kratos.Store.Sessions.Laws as SessionLaws
use enterprise_kratos.Store.Outcome.{>>=-eq-ok, >>-eq-ok, policies-get-eq-ok}
use enterprise_kratos.Engine.{parse_session_ttl}
use enterprise_kratos.Oidc
use enterprise_kratos.Oidc.{Authenticated, CallbackResult}
use enterprise_kratos.Oidc.Client.{OidcClient}
use enterprise_kratos.Oidc.Authentication.{Authentic, authenticate-eq-ok}
use enterprise_kratos.Oidc.Resolution.{
  SamePeople, Resolved, Resolved-moved, resolve_identity-eq-ok, ok-injective,
}

-- A session of the identity, of AAL 1 by OIDC, with a token that no session of the tenant had.
pub record SignedIn (tenant : Uuid) (who : Uuid × Bool) (db after : Tables) (r : CallbackResult)
    : Type 0 where
  pub identity : r.identity_id ≡ who.0
  pub is_new : r.is_new ≡ who.1
  pub owner : r.session.identity_id ≡ who.0
  pub aal : r.session.aal ≡ "aal1"
  pub amr : r.session.amr ≡ "oidc" ∷ []
  pub active : r.session.active ≡ true
  pub fresh : any (Sessions.has_token tenant r.session.token) db.sessions ≡ false
  pub sessions : after.sessions ≡ db.sessions ++ r.session ∷ []
  pub identities : after.identities ≡ db.identities
  pub credentials : after.credentials ≡ db.credentials

module _ ⦃env : Env⦄ (ext : External) (client : OidcClient) (tenant : Uuid) where
  ended-same :
      (id : Uuid) (state : State) (identity : Option Uuid) (ui : Ui) (w : World)
      → SamePeople w.db (ignore (Flows.update tenant id state identity ui) w).1.db
  unfolding Flows.update Flows.affected effects
  ended-same id state identity ui w = ground arith

  created-same :
      (identity : Uuid) (aal : String) (amr : List String) (ttl : ℕ) (w : World)
      → ((Sessions.create tenant identity aal amr ttl w).1.db.identities ≡ w.db.identities)
        × ((Sessions.create tenant identity aal amr ttl w).1.db.credentials ≡ w.db.credentials)
  unfolding Sessions.create effects
  created-same identity aal amr ttl w = ground arith

  complete-eq-ok :
      (f : Flow) (who : Uuid × Bool) (w : World) (r : CallbackResult)
      → (Oidc.complete ext client tenant f who w).0 ≡ ok r
      → SignedIn tenant who w.db (Oidc.complete ext client tenant f who w).1.db r
  unfolding Oidc.complete effects
  complete-eq-ok f who w r h =
      let (pol, asked, h1, e1) = >>=-eq-ok (Policies.get tenant) _ w h in
      let w1 = (Policies.get tenant w).1 in
      let (_, same) = policies-get-eq-ok tenant w asked in
      let create = Sessions.create tenant who.0 "aal1" ("oidc" ∷ []) (parse_session_ttl ext pol) in
      let (s, creates, h2, e2) = >>=-eq-ok create _ w1 h1 in
      let (_, owner, aal, amr, active, _, fresh, rows) =
        SessionLaws.created tenant who.0 "aal1" ("oidc" ∷ []) (parse_session_ttl ext pol) w1 s
          creates in
      let w2 = (create w1).1 in
      let ui = record (f.ui) { internal = some Oidc.complete_internal } in
      let end = ignore (Flows.update tenant f.id success (some who.0) ui) in
      let (_, _, h3, e3) = >>-eq-ok end _ w2 h2 in
      let kept = ended-same f.id success (some who.0) ui w2 in
      let others = created-same who.0 "aal1" ("oidc" ∷ []) (parse_session_ttl ext pol) w1 in
      let whole = ap (λ x. x.1.db) (e1 ∙ e2 ∙ e3) in
      subst (SignedIn tenant who w.db (Oidc.complete ext client tenant f who w).1.db)
        (ok-injective h3)
        (record {
          identity = refl;
          is_new = refl;
          owner = owner;
          aal = aal;
          amr = amr;
          active = active;
          fresh =
              subst (λ (db : Tables). any (Sessions.has_token tenant s.token) db.sessions ≡ false)
                same fresh;
          sessions =
              ap (λ (db : Tables). db.sessions) whole
              ∙ kept.2
              ∙ rows
              ∙ ap (λ (db : Tables). db.sessions ++ s ∷ []) same;
          identities =
              ap (λ (db : Tables). db.identities) whole
              ∙ kept.0
              ∙ others.0
              ∙ ap (λ (db : Tables). db.identities) same;
          credentials =
              ap (λ (db : Tables). db.credentials) whole
              ∙ kept.1
              ∙ others.1
              ∙ ap (λ (db : Tables). db.credentials) same;
        })

-- The whole of a callback.
pub record Accepted (ext : External) (client : OidcClient) (tenant : Uuid) (state code : String)
    (w : World) (after : Tables) (r : CallbackResult) : Type 0 where
  pub authenticated : Authenticated
  pub authentic : Authentic ext client tenant state code w authenticated
  pub who : Uuid × Bool
  pub resolved_in : Tables
  pub resolved : Resolved ext tenant authenticated w.db resolved_in who
  pub signed_in : SignedIn tenant who resolved_in after r

module _ ⦃env : Env⦄ (ext : External) (client : OidcClient) where
  -- A callback that answers without an error was made for a pending flow of the tenant whose ID is
  -- the state, which names an SSO provider of the tenant; the code was exchanged, with the flow's
  -- PKCE verifier, with a provider object of the issuer URL of that provider's config, for a token
  -- that this object's verifier accepts for the client, and whose nonce is the flow's. Then either
  -- a credential of the tenant had the provider and the token's subject as its identifier, of an
  -- identity that is active, and no identity or credential was written; or none had, and one active
  -- identity with the token's email and name and one such credential were added. The answer is a
  -- new session of this identity, of AAL 1 by OIDC, with a token that no session of the tenant had,
  -- and it is the only session added.
  pub handle_callback-Accepted :
      (tenant : Uuid) (state code : String) (w : World) (r : CallbackResult)
      → (Oidc.handle_callback ext client tenant state code w).0 ≡ ok r
      → Accepted ext client tenant state code w
          (Oidc.handle_callback ext client tenant state code w).1.db
          r
  unfolding Oidc.handle_callback
  handle_callback-Accepted tenant state code w r h =
      let (a, authenticates, h1, e1) =
        >>=-eq-ok (Oidc.authenticate ext client tenant state code) _ w h in
      let (authentic, same) = authenticate-eq-ok ext client tenant state code w a authenticates in
      let w1 = (Oidc.authenticate ext client tenant state code w).1 in
      let (who, resolves, h2, e2) = >>=-eq-ok (Oidc.resolve_identity ext client tenant a) _ w1 h1 in
      let w2 = (Oidc.resolve_identity ext client tenant a w1).1 in
      record {
        authenticated = a;
        authentic = authentic;
        who = who;
        resolved_in = w2.db;
        resolved =
            Resolved-moved ext tenant a who same refl
              (resolve_identity-eq-ok ext client tenant a w1 who resolves);
        signed_in =
            subst (λ after. SignedIn tenant who w2.db after r) (sym (ap (λ x. x.1.db) (e1 ∙ e2)))
              (complete-eq-ok ext client tenant a.flow who w2 r h2);
      }
