-- ===== src/Tool/DryRun.antt =====
-- A dry run writes nothing.
use enterprise_kratos.Base.{
  ℕ, suc, String, true, false, Option, none, some, ◌⊎◌, inl, inr, ◌≡◌, Uuid, List, str_eq, select,
  ◌==◌, arith, sym, subst, if◌then◌else◌, [], ◌∷◌, refl, ◌&&◌, find, ◌+◌, ◌∙◌, Bool, alike, apart,
}
use enterprise_kratos.External.{External}
use enterprise_kratos.Errors.{Error}
use enterprise_kratos.Store.{Env, World, ok, effects}
use enterprise_kratos.Store.Calm.{IsCalm}
use enterprise_kratos.Store.Frame.{Keeps, Keeps-done, Unwritten, Unwritten-IsOrder, keeping}
use enterprise_kratos.Migration.Config.{KratosConfig}
use enterprise_kratos.Migration.Kratos
use enterprise_kratos.Migration.Kratos.{
  KratosTables, KratosIdentity, KratosCredential, CredentialRow, Sources,
}
use enterprise_kratos.Migration.Keeping.{read_or-keeps}
use enterprise_kratos.Tool
use enterprise_kratos.Tool.{Flags, Databases, Report, reported}

-- How many elements pass a test.
abbrev pub count {ℓ} : {A : Type ℓ} → (A → Bool) → List A → ℕ
count p [] = 0
count p (x ∷ xs) = let rest = count p xs in if p x then suc rest else rest

-- The number that a list of numbers by type has for a type.
abbrev pub number : String → List (String × ℕ) → ℕ
number kind [] = 0
number kind ((k, n) ∷ counts) = let rest = number kind counts in if str_eq k kind then n else rest

-- A row of the network whose type has a name.
abbrev pub is_of_type : Uuid → List (Uuid × String) → String → CredentialRow → Bool
is_of_type nid types kind c = c.nid == nid && is_named kind (find (λ t. t.0 == c.type_id) types)
  where
    is_named : String → Option (Uuid × String) → Bool
    is_named kind none = false
    is_named kind (some t) = str_eq t.1 kind

length-select {ℓ} :
    {A : Type ℓ} (p : A → Bool) (xs : List A) → Tool.length (select p xs) ≡ count p xs
length-select p [] = refl
length-select p (x ∷ xs) = ground (arith, length-select p xs)

length-count {ℓ} : {A : Type ℓ} (xs : List A) → Tool.length xs ≡ count (λ x. true) xs
length-count [] = refl
length-count (x ∷ xs) = ground (arith, length-count xs)

head_counted :
    (kind c k : String) (n : ℕ) (counts : List (String × ℕ)) (b : Bool)
    → str_eq k c ≡ b
    → number kind (Tool.counted_in c counts)
      ≡ (if str_eq c kind then suc (number kind counts) else number kind counts)
    → number kind (if b then (k, n + 1) ∷ counts else (k, n) ∷ Tool.counted_in c counts) ≡ (
        if str_eq c kind
        then suc (number kind ((k, n) ∷ counts))
        else number kind ((k, n) ∷ counts))
head_counted kind c k n counts true h rest = ground (arith, alike k c kind h)
head_counted kind c k n counts false h rest = ground (arith, apart k c kind)

number-counted_in :
    (kind c : String) (counts : List (String × ℕ))
    → number kind (Tool.counted_in c counts)
      ≡ (if str_eq c kind then suc (number kind counts) else number kind counts)
number-counted_in kind c [] = ground arith
number-counted_in kind c ((k, n) ∷ counts) =
    head_counted kind c k n counts (str_eq k c) refl (number-counted_in kind c counts)

number-count_types :
    (kind : String) (cs : List KratosCredential) (counts : List (String × ℕ))
    → number kind (Tool.count_types cs counts)
      ≡ count (λ c. str_eq c.kind kind) cs + number kind counts
number-count_types kind [] counts = ground arith
number-count_types kind (c ∷ cs) counts = ground (
  arith,
  number-count_types kind cs (Tool.counted_in c.kind counts),
  number-counted_in kind c.kind counts,
)

number-types :
    (kind : String) (cs : List KratosCredential)
    → number kind (Tool.count_types cs []) ≡ count (λ c. str_eq c.kind kind) cs
number-types kind cs = ground (arith, number-count_types kind cs [])

count-join_credentials :
    (nid : Uuid) (k : KratosTables) (kind : String) (rows : List CredentialRow)
    → count (λ c. str_eq c.kind kind) (Kratos.join_credentials nid k rows)
      ≡ count (is_of_type nid k.types kind) rows
count-join_credentials nid k kind [] = refl
count-join_credentials nid k kind (c ∷ cs) = ground (arith, count-join_credentials nid k kind cs)

module _ ⦃env : Env⦄ (ext : External) (src : Sources) (dbs : Databases) (flags : Flags) where
  credentials_reported-Unwritten :
      (cfg : KratosConfig) (is : List KratosIdentity) (x : Error ⊎ List KratosCredential)
      → Keeps Unwritten (Tool.credentials_reported ext src dbs flags cfg is x)
  unfolding Tool.credentials_reported
  credentials_reported-Unwritten cfg is (inl e) = Keeps-done Unwritten-IsOrder _
  credentials_reported-Unwritten cfg is (inr cs) = Keeps-done Unwritten-IsOrder _

  identities_reported-Unwritten :
      (cfg : KratosConfig) (k : KratosTables) (nid : Uuid) (x : Error ⊎ List KratosIdentity)
      → Keeps Unwritten (Tool.identities_reported ext src dbs flags cfg k nid x)
  unfolding Tool.identities_reported Kratos.credentials
  identities_reported-Unwritten cfg k nid (inl e) = Keeps-done Unwritten-IsOrder _
  identities_reported-Unwritten cfg k nid (inr is) =
      search (keeping, Unwritten-IsOrder, credentials_reported-Unwritten)

  dry_run_report-Unwritten :
      (cfg : KratosConfig) (k : KratosTables) (nid : Uuid)
      → Keeps Unwritten (Tool.dry_run_report ext src dbs flags cfg k nid)
  unfolding Tool.dry_run_report Kratos.identities
  dry_run_report-Unwritten cfg k nid =
      search (keeping, Unwritten-IsOrder, identities_reported-Unwritten)

  given_or_discovered-Unwritten :
      (k : KratosTables) (nid : Option Uuid) → Keeps Unwritten (Kratos.given_or_discovered k nid)
  unfolding Kratos.given_or_discovered Kratos.discover_nid
  given_or_discovered-Unwritten k (some nid) = Keeps-done Unwritten-IsOrder nid
  given_or_discovered-Unwritten k none = search (keeping, Unwritten-IsOrder)

  new_kratos_reader-Unwritten :
      (k : KratosTables) (nid : Option Uuid) → Keeps Unwritten (Kratos.new_kratos_reader k nid)
  unfolding Kratos.new_kratos_reader
  new_kratos_reader-Unwritten k nid =
      search (keeping, Unwritten-IsOrder, given_or_discovered-Unwritten)

  parse_config-Unwritten : (path : String) → Keeps Unwritten (Kratos.parse_config src path)
  unfolding Kratos.parse_config
  parse_config-Unwritten path = search (keeping, Unwritten-IsOrder, read_or-keeps)

  module _ (dry : flags.dry_run ≡ true) where
    with_reader-Unwritten :
        (cfg : KratosConfig) (k : KratosTables) (x : Error ⊎ Uuid)
        → Keeps Unwritten (Tool.with_reader ext src dbs flags cfg k x)
    unfolding Tool.with_reader
    with_reader-Unwritten cfg k (inl e) = Keeps-done Unwritten-IsOrder _
    with_reader-Unwritten cfg k (inr nid) =
        subst
          (λ b. Keeps Unwritten (
            if b
            then Tool.dry_run_report ext src dbs flags cfg k nid
            else Tool.run_migration ext src dbs flags cfg k nid))
          (sym dry) (dry_run_report-Unwritten cfg k nid)

    with_kratos-Unwritten :
        (cfg : KratosConfig) (nid : Option Uuid) (k : Option KratosTables)
        → Keeps Unwritten (Tool.with_kratos ext src dbs flags cfg nid k)
    unfolding Tool.with_kratos
    with_kratos-Unwritten cfg nid none = Keeps-done Unwritten-IsOrder _
    with_kratos-Unwritten cfg nid (some k) =
        search (keeping, Unwritten-IsOrder, new_kratos_reader-Unwritten, with_reader-Unwritten)

    with_nid-Unwritten :
        (cfg : KratosConfig) (dsn : String) (nid : Option (Option Uuid))
        → Keeps Unwritten (Tool.with_nid ext src dbs flags cfg dsn nid)
    unfolding Tool.with_nid
    with_nid-Unwritten cfg dsn none = Keeps-done Unwritten-IsOrder _
    with_nid-Unwritten cfg dsn (some nid) = with_kratos-Unwritten cfg nid _

    with_config-Unwritten :
        (x : Error ⊎ KratosConfig) → Keeps Unwritten (Tool.with_config ext src dbs flags x)
    unfolding Tool.with_config
    with_config-Unwritten (inl e) = Keeps-done Unwritten-IsOrder _
    with_config-Unwritten (inr cfg) = search (keeping, Unwritten-IsOrder, with_nid-Unwritten)

    dry_run-keeps : Keeps Unwritten (Tool.run_migrate ext src dbs flags)
    unfolding Tool.run_migrate
    dry_run-keeps =
        search (keeping, Unwritten-IsOrder, parse_config-Unwritten, with_config-Unwritten) depth 14

-- Flags, files and databases with which the tool gets as far as the Kratos database k, network nid.
pub record Reaches (ext : External) (src : Sources) (dbs : Databases) (flags : Flags) (n : ℕ)
    (cfg : KratosConfig) (k : KratosTables) (nid : Uuid) : Type 0 where
  pub text : String
  pub config_given : str_eq flags.kratos_config "" ≡ false
  pub tenant_given : str_eq flags.target_tenant "" ≡ false
  pub target_given : str_eq flags.target_db "" ≡ false
  pub reads : src.read_file n flags.kratos_config ≡ some text
  pub parses : src.parse_yaml text ≡ some cfg
  pub dsn_given : str_eq (Tool.or_text cfg.dsn flags.kratos_db) "" ≡ false
  pub network : Tool.nid_flag ext flags.kratos_nid ≡ some (some nid)
  pub opens : dbs.open_kratos (Tool.or_text cfg.dsn flags.kratos_db) ≡ some k

module _ ⦃env : Env⦄ (ext : External) (src : Sources) (dbs : Databases) (flags : Flags)
    (dry : flags.dry_run ≡ true) (w : World) where
  -- With the flag for a dry run, `idpctl migrate` writes nothing to the target, whatever files,
  -- databases and other flags it finds and whatever calls fail.
  pub run_migrate-Unwritten : (Tool.run_migrate ext src dbs flags w).1.db ≡ w.db
  run_migrate-Unwritten = (dry_run-keeps ext src dbs flags dry).keeps w

  run_migrate-reported :
      IsCalm env
      → (cfg : KratosConfig) (k : KratosTables) (nid : Uuid)
      → Reaches ext src dbs flags w.calls cfg k nid
      → (Tool.run_migrate ext src dbs flags w).0
        ≡ ok (
            reported (
              some (
                Tool.report_of cfg
                  (select (λ i. i.nid == nid) k.identities)
                  (Kratos.join_credentials nid k k.credentials))))
  unfolding Tool.run_migrate Tool.with_config Tool.with_nid Tool.with_kratos Tool.with_reader
      Tool.dry_run_report Tool.identities_reported Tool.credentials_reported Kratos.parse_config
      Kratos.read_or Kratos.new_kratos_reader Kratos.given_or_discovered Kratos.identities
      Kratos.credentials effects
  run_migrate-reported calm cfg k nid r = ground (
    arith,
    dry,
    calm (suc w.calls),
    calm (suc (suc w.calls)),
    calm (suc (suc (suc w.calls))),
    r.config_given,
    r.tenant_given,
    r.target_given,
    r.reads,
    r.parses,
    r.dsn_given,
    r.network,
    r.opens,
  )

  -- With the flag for a dry run, where the database does not fail, the other flags are given, the
  -- configuration parses, the network is given and the Kratos database opens: `idpctl migrate` ends
  -- with a report, and its numbers are those of the tables: of the rows of identities of that
  -- network, of the providers of the configuration, and, for every type of credential, of the rows
  -- of credentials of that network whose type has that name.
  pub run_migrate-reports :
      IsCalm env
      → (cfg : KratosConfig) (k : KratosTables) (nid : Uuid) (kind : String)
      → Reaches ext src dbs flags w.calls cfg k nid
      → (report : Report) × ((Tool.run_migrate ext src dbs flags w).0 ≡ ok (reported (some report)))
        × (report.identities ≡ count (λ i. i.nid == nid) k.identities)
        × (report.providers ≡ count (λ p. true) cfg.self_service.methods.oidc.config.providers)
        × (number kind report.credentials ≡ count (is_of_type nid k.types kind) k.credentials)
  run_migrate-reports calm cfg k nid kind r = (
    Tool.report_of cfg (select (λ i. i.nid == nid) k.identities)
        (Kratos.join_credentials nid k k.credentials),
    run_migrate-reported calm cfg k nid r,
    length-select (λ i. i.nid == nid) k.identities,
    length-count cfg.self_service.methods.oidc.config.providers,
    number-types kind (Kratos.join_credentials nid k k.credentials)
        ∙ count-join_credentials nid k kind k.credentials,
  )
