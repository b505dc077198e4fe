-- ===== src/Server/Isolation.antt =====
-- The server always starts with a registry, and its authenticators leave the tables alone.
use enterprise_kratos.Base.{
  Uuid, String, sym, subst, Option, none, some, List, [], ◌∷◌, ◌++◌, ◌≡◌, refl, true, false, arith,
  str_eq, if◌then◌else◌,
}
use enterprise_kratos.External.{External}
use enterprise_kratos.Store.{Tables, Env, World}
use enterprise_kratos.Store.Frame.{IsOrder, Keeps, Keeps-fail, Keeps-done, keeping}
use enterprise_kratos.Store.Providers
use enterprise_kratos.Authenticator.{Authenticator}
use enterprise_kratos.Authenticator.Keeping.{KeepsAll, EachKeeps, password-KeepsAll}
use enterprise_kratos.Authenticator.Registry.{Registry, register, lookup}
use enterprise_kratos.Authenticator.Password
use enterprise_kratos.Authenticator.Password.{Bcrypt}
use enterprise_kratos.Authenticator.Oidc
use enterprise_kratos.Authenticator.Rest
use enterprise_kratos.Authenticator.Rest.{Service}
use enterprise_kratos.Authenticator.Rest.Soundness.{rest-KeepsAll}
use enterprise_kratos.Oidc.Client.{OidcClient}
use enterprise_kratos.Http.{HttpRequest}
use enterprise_kratos.Http.Router
use enterprise_kratos.Http.Router.{Route}
use enterprise_kratos.Isolation.{SameRows, SameRows-IsOrder}
use enterprise_kratos.Isolation.Web.{NoneReaches, handle_all-SameRows}
use enterprise_kratos.Hydra as HydraClient
use enterprise_kratos.Server
use enterprise_kratos.Server.{RestConfig}

module _ ⦃env : Env⦄ {S : Tables → Tables → Type 0} (o : IsOrder S) where
  list_by_type-keeps :
      (tenant : Uuid) (kind : String) → Keeps S (Providers.list_by_type tenant kind)
  unfolding Providers.list_by_type
  list_by_type-keeps tenant kind = search (keeping, o)

  oidc-KeepsAll : (ext : External) → KeepsAll S (Oidc.adapter ext)
  unfolding Oidc.adapter Oidc.start_flow Oidc.complete_flow Oidc.enroll Oidc.unenroll
  oidc-KeepsAll ext = record {
    start_flow = λ r. search (keeping, o, list_by_type-keeps);
    complete_flow = λ r. Keeps-fail o _;
    enroll = λ r. Keeps-fail o _;
    unenroll = λ r. Keeps-done o tt;
  }

-- A registry that is there, all of whose authenticators keep the relation.
abbrev Started : (Tables → Tables → Type 0) → Option Registry → Type 0
Started S r = (reg : Registry) × (r ≡ some reg) × EachKeeps S reg

module _ {S : Tables → Tables → Type 0} (o : IsOrder S) where
  EachKeeps-append :
      (reg : Registry) (id : String) (a : Authenticator)
      → EachKeeps S reg
      → KeepsAll S a
      → EachKeeps S (reg ++ (id, a) ∷ [])
  EachKeeps-append [] id a each k = (k, tt)
  EachKeeps-append ((j, b) ∷ reg) id a (kb, each) k = (kb, EachKeeps-append reg id a each k)

lookup-append :
    (id j : String) (a : Authenticator) (reg : Registry)
    → lookup id reg ≡ none
    → str_eq j id ≡ false
    → lookup id (reg ++ (j, a) ∷ []) ≡ none
lookup-append id j a [] h k = ground arith
lookup-append id j a ((i, b) ∷ reg) h k = ground (arith, lookup-append id j a reg)

-- No authenticator of the list has the ID, and none of the registry has an ID of the list.
abbrev Apart : String → List RestConfig → Type 0
Apart id [] = Unit
Apart id (c ∷ cs) = (str_eq id c.id ≡ false) × Apart id cs

abbrev AllFresh : List RestConfig → Registry → Type 0
AllFresh [] reg = Unit
AllFresh (c ∷ cs) reg = (lookup c.id reg ≡ none) × Apart c.id cs × AllFresh cs reg

AllFresh-append :
    (cs : List RestConfig) (id : String) (a : Authenticator) (reg : Registry)
    → Apart id cs
    → AllFresh cs reg
    → AllFresh cs (reg ++ (id, a) ∷ [])
AllFresh-append [] id a reg h k = tt
AllFresh-append (c ∷ cs) id a reg (h, hs) (k, ks, rest) =
    (lookup-append c.id id a reg k h, ks, AllFresh-append cs id a reg hs rest)

must_register-fresh :
    (a : Authenticator) (reg : Registry)
    → lookup a.id reg ≡ none
    → Server.must_register a (some reg) ≡ some (reg ++ (a.id, a) ∷ [])
unfolding Server.must_register register
must_register-fresh a reg h = ground arith

module _ {S : Tables → Tables → Type 0} (o : IsOrder S) (getenv : String → String) (ext : External)
    (service : Service) where
  with_services-Started :
      (cs : List RestConfig) (reg : Registry)
      → AllFresh cs reg
      → EachKeeps S reg
      → Started S (Server.with_services getenv ext service cs (some reg))
  unfolding Server.with_services Rest.adapter
  with_services-Started [] reg fresh each = (reg, refl, each)
  with_services-Started (c ∷ cs) reg (unused, apart, fresh) each =
      let a = Server.rest_adapter getenv ext service c in
      elim (str_eq (getenv c.env_key) "")
        as (λ b. Started S (
          Server.with_services getenv ext service cs
            (if b then some reg else Server.must_register a (some reg)))) [
              | true ↦ with_services-Started cs reg fresh each
              | false ↦
                  subst (λ r. Started S (Server.with_services getenv ext service cs r))
                    (sym (must_register-fresh a reg unused))
                    (with_services-Started cs (reg ++ (c.id, a) ∷ [])
                      (AllFresh-append cs c.id a reg apart fresh)
                      (EachKeeps-append o reg c.id a each (rest-KeepsAll o ext service _)))
            ]

  all_fresh :
      (a b : Authenticator) → AllFresh Server.rest_configs (("password", a) ∷ ("oidc", b) ∷ [])
  all_fresh a b = (
    refl,
    (refl, (refl, (refl, tt))),
    (refl, (refl, (refl, tt)), (refl, (refl, tt), (refl, tt, tt))),
  )

  two_registered :
      ⦃env : Env⦄ (bcrypt : Bcrypt)
      → Server.must_register
          (Oidc.adapter ext)
          (Server.must_register (Password.adapter bcrypt) (some []))
        ≡ some (("password", Password.adapter bcrypt) ∷ ("oidc", Oidc.adapter ext) ∷ [])
  unfolding Server.must_register register Password.adapter Oidc.adapter
  two_registered bcrypt = refl

  registry-Started :
      ⦃env : Env⦄ (bcrypt : Bcrypt) → Started S (Server.registry getenv ext service bcrypt)
  unfolding Server.registry
  registry-Started bcrypt =
      subst (λ r. Started S (Server.with_services getenv ext service Server.rest_configs r))
        (sym (two_registered bcrypt))
        (with_services-Started Server.rest_configs
          (("password", Password.adapter bcrypt) ∷ ("oidc", Oidc.adapter ext) ∷ [])
          (all_fresh (Password.adapter bcrypt) (Oidc.adapter ext))
          (password-KeepsAll o bcrypt, (oidc-KeepsAll o ext, tt)))

module _ ⦃env : Env⦄ (getenv : String → String) (ext : External) (service : Service)
    (client : OidcClient) (hydra : HydraClient.Client) (bcrypt : Bcrypt) where
  -- Whatever environment variables the server is started with, and whatever its REST services
  -- answer: the registration of its authenticators does not panic, and with the registry that it
  -- gets, tenants are isolated. For every tenant t and every history of HTTP requests none of which
  -- has in its path the slug of t in the table of tenants, also when calls fail, the flows,
  -- identities, credentials, sessions, schemas, SSO providers and the policy of t, and the table of
  -- tenants, are the same after the history as before it.
  pub registry-SameRows :
      (t : Uuid) (rs : List (Route × HttpRequest)) (w : World)
      → NoneReaches t w.db.tenants rs
      → (reg : Registry) × (Server.registry getenv ext service bcrypt ≡ some reg)
        × SameRows t w.db (Router.handle_all ext client reg (Server.hydra getenv ext hydra) rs w).db
  registry-SameRows t rs w h =
      let (reg, starts, each) = registry-Started (SameRows-IsOrder t) getenv ext service bcrypt in
      (
        reg,
        starts,
        handle_all-SameRows ext client reg (Server.hydra getenv ext hydra) t each rs w h,
      )
