-- ===== src/Bootstrap/Report.antt =====
-- What the diagnosis of a configuration reports.
use delegatd.Prelude.{
  ◌≡◌, refl, ap, sym, subst, ◌∙◌, arith, ℕ, ◌<◌, true, false, Bool, ◌&&◌, all, List, [], ◌∷◌, ◌++◌,
  GoString, codes, ◌==◌, lookup, keys, GoMap, contains-In, is_some, sort_strings, In,
  In-sort_strings, Option, none, some, Result, ok, err, ok_injective, length, inl, inr,
}
use delegatd.Config.Yaml.{decode}
use delegatd.Config.Checks.{Instance}
use delegatd.Config.Load.{YamlPackage, File, Document, load}
use delegatd.Doctor.{Check, CheckResult, run, outcome, probed, passed, report_ok}
use delegatd.Doctor.Order.{outcomes, run-outcomes, member, passes, report_ok-run}
use delegatd.Bootstrap.Checks.{
  Diagnosis, Probes, adapter_check, configured_check, sorted_names, named_check, instance_checks,
  connector_check, provider_check, runtime_check, document_checks, checked, load_doctor,
}

-- The ids of the results, in order.
abbrev pub result_ids : List CheckResult → List GoString
result_ids [] = []
result_ids (r ∷ rs) = r.id ∷ result_ids rs

abbrev check_ids : List Check → List GoString
check_ids [] = []
check_ids (c ∷ cs) = c.id ∷ check_ids cs

abbrev pub prefixed : GoString → List GoString → List GoString
prefixed prefix [] = []
prefixed prefix (name ∷ names) = (prefix ++ name) ∷ prefixed prefix names

-- One id for each configured instance, sorted by name within each section, and one for the store.
abbrev pub configured_ids : Document → List GoString
configured_ids document =
    let config = document.config in
    prefixed (codes "connector.") (sort_strings (keys config.connectors))
    ++ (prefixed (codes "workspace_provider.") (sort_strings (keys config.workspace_providers))
        ++ (prefixed (codes "agent_runtime.") (sort_strings (keys config.agent_runtimes))
            ++ ((codes "store." ++ config.store.kind) ∷ [])))

check_ids-append : (xs ys : List Check) → check_ids (xs ++ ys) ≡ check_ids xs ++ check_ids ys
check_ids-append [] ys = refl
check_ids-append (c ∷ xs) ys = ap (λ r. c.id ∷ r) (check_ids-append xs ys)

check_ids_join :
    (xs ys : List Check) {is js : List GoString}
    → check_ids xs ≡ is
    → check_ids ys ≡ js
    → check_ids (xs ++ ys) ≡ is ++ js
check_ids_join xs ys h k = rw (check_ids-append xs ys) (rw h (rw k refl))

probed-id : (id : GoString) (probe : Option Diagnosis) → (probed id probe).id ≡ id
unfolding probed
probed-id id none = refl
probed-id id (some (detail, failure)) = refl

outcomes-ids : (checks : List Check) → result_ids (outcomes checks) ≡ check_ids checks
unfolding outcomes outcome
outcomes-ids [] = refl
outcomes-ids (c ∷ cs) = rw (probed-id c.id c.probe) (ap (λ r. c.id ∷ r) (outcomes-ids cs))

adapter_check-id {ℓ} :
    {Config : Type ℓ} (id : GoString) (supported : Bool) (r : Result Config)
    (diagnose : Config → Diagnosis)
    → (adapter_check id supported r diagnose).id ≡ id
unfolding configured_check
adapter_check-id id true (ok c) diagnose = refl
adapter_check-id id true (err e) diagnose = refl
adapter_check-id id false r diagnose = refl

named_check-id :
    (check : GoString → Instance → Check) (id : GoString) (o : Option Instance)
    → ((id : GoString) (i : Instance) → (check id i).id ≡ id)
    → (named_check check id o).id ≡ id
named_check-id check id none own = refl
named_check-id check id (some i) own = own id i

instance_checks-ids :
    (prefix : GoString) (check : GoString → Instance → Check) (instances : GoMap Instance)
    (names : List GoString)
    → ((id : GoString) (i : Instance) → (check id i).id ≡ id)
    → check_ids (instance_checks prefix check instances names) ≡ prefixed prefix names
unfolding instance_checks
instance_checks-ids prefix check instances [] own = refl
instance_checks-ids prefix check instances (n ∷ ns) own =
    rw (named_check-id check (prefix ++ n) (lookup n instances) own)
      (ap (λ r. (prefix ++ n) ∷ r) (instance_checks-ids prefix check instances ns own))

both : (a b : Bool) → (a && b) ≡ true → (a ≡ true) × (b ≡ true)
both true b h = (refl, h)
both false b h = cc

all-append :
    (xs ys : List Check)
    → all passes (xs ++ ys) ≡ true
    → (all passes xs ≡ true) × (all passes ys ≡ true)
all-append [] ys h = (refl, h)
all-append (c ∷ xs) ys h = ground (arith, all-append xs ys)

-- A check that passes is of an adapter that is supported, and its configuration decodes.
adapter_check-passes {ℓ} :
    {Config : Type ℓ} (id : GoString) (supported : Bool) (r : Result Config)
    (diagnose : Config → Diagnosis)
    → passes (adapter_check id supported r diagnose) ≡ true
    → (supported ≡ true) × ((config : Config) × (r ≡ ok config))
unfolding configured_check passed
adapter_check-passes id true (ok c) diagnose h = (refl, (c, refl))
adapter_check-passes id true (err e) diagnose h = cc
adapter_check-passes id false r diagnose h = cc

instance_checks-passes :
    (prefix : GoString) (check : GoString → Instance → Check) (instances : GoMap Instance)
    (names : List GoString) (name : GoString) (i : Instance)
    → all passes (instance_checks prefix check instances names) ≡ true
    → In name names
    → lookup name instances ≡ some i
    → passes (check (prefix ++ name) i) ≡ true
unfolding instance_checks
instance_checks-passes prefix check instances [] name i h j found = absurd j
instance_checks-passes prefix check instances (n ∷ ns) name i h (inl same) found =
    let here = (both _ (all passes (instance_checks prefix check instances ns)) h).0 in
    let found_n : lookup n instances ≡ some i = ap (λ m. lookup m instances) (sym same) ∙ found in
    subst (λ m. passes (check (prefix ++ m) i) ≡ true) (sym same)
      (sym (ap (λ o. passes (named_check check (prefix ++ n) o)) found_n) ∙ here)
instance_checks-passes prefix check instances (n ∷ ns) name i h (inr j) found =
    instance_checks-passes prefix check instances ns name i
      (both (passes (named_check check (prefix ++ n) (lookup n instances))) _ h).1 j found

-- Each instance is of a supported kind, and its configuration decodes.
pub record AllSupported (yaml : YamlPackage) (probes : Probes) (document : Document) : Type 0 where
  pub connectors :
      (name : GoString) (i : Instance)
      → lookup name document.config.connectors ≡ some i
      → ((i.kind == codes "github") ≡ true)
        × ((c : probes.GithubConfig) × (decode yaml.marshal probes.read_github i.config ≡ ok c))
  pub workspace_providers :
      (name : GoString) (i : Instance)
      → lookup name document.config.workspace_providers ≡ some i
      → ((i.kind == codes "docker") ≡ true)
        × ((c : Unit {0}) × (decode yaml.marshal probes.read_docker i.config ≡ ok c))
  pub agent_runtimes :
      (name : GoString) (i : Instance)
      → lookup name document.config.agent_runtimes ≡ some i
      → ((i.kind == codes "omp") ≡ true)
        × ((c : Unit {0}) × (decode yaml.marshal probes.read_omp i.config ≡ ok c))
  pub store :
      ((document.config.store.kind == codes "sqlite") ≡ true)
      × ((c : probes.SqliteConfig) × (decode yaml.marshal probes.read_sqlite
              document.config.store.config
            ≡ ok c))

named_there :
    (name : GoString) (instances : GoMap Instance) {i : Instance}
    → lookup name instances ≡ some i
    → In name (sorted_names instances)
named_there name instances found =
    (In-sort_strings name (keys instances)).1 (contains-In name instances (ap is_some found))

module _ (yaml : YamlPackage) (probes : Probes) where
  document_checks-ids :
      (document : Document)
      → check_ids (document_checks yaml probes document) ≡ configured_ids document
  unfolding document_checks
  document_checks-ids document =
      let config = document.config in
      check_ids_join _ _
        (instance_checks-ids _ _ config.connectors _ (λ id i. adapter_check-id id _ _ _))
        (check_ids_join _ _
          (instance_checks-ids _ _ config.workspace_providers _ (λ id i. adapter_check-id id _ _ _))
          (check_ids_join _ _
            (instance_checks-ids _ _ config.agent_runtimes _ (λ id i. adapter_check-id id _ _ _))
            (ap (λ id. id ∷ []) (adapter_check-id (codes "store." ++ config.store.kind) _ _ _))))

  document_checks-AllSupported :
      (document : Document)
      → all passes (document_checks yaml probes document) ≡ true
      → AllSupported yaml probes document
  unfolding document_checks
  document_checks-AllSupported document h =
      let config = document.config in
      let (connectors, h1) =
        all-append
          (instance_checks (codes "connector.") (connector_check yaml probes document.dir)
            config.connectors (sorted_names config.connectors))
          _ h in
      let (providers, h2) =
        all-append
          (instance_checks (codes "workspace_provider.") (provider_check yaml probes)
            config.workspace_providers (sorted_names config.workspace_providers))
          _ h1 in
      let (runtimes, h3) =
        all-append
          (instance_checks (codes "agent_runtime.") (runtime_check yaml probes)
            config.agent_runtimes (sorted_names config.agent_runtimes))
          _ h2 in
      record {
        connectors = λ name i found. adapter_check-passes _ _ _ _ (
            instance_checks-passes _ _ config.connectors _ name i connectors
              (named_there name config.connectors found) found);
        workspace_providers = λ name i found. adapter_check-passes _ _ _ _ (
            instance_checks-passes _ _ config.workspace_providers _ name i providers
              (named_there name config.workspace_providers found) found);
        agent_runtimes = λ name i found. adapter_check-passes _ _ _ _ (
            instance_checks-passes _ _ config.agent_runtimes _ name i runtimes
              (named_there name config.agent_runtimes found) found);
        store = adapter_check-passes _ _ _ _ (both _ true h3).0;
      }

  checked-checks :
      (r : Result Document) {document : Document} {checks : List Check}
      → checked yaml probes r ≡ ok (document, checks)
      → document_checks yaml probes document ≡ checks
  unfolding checked
  checked-checks (err e) h = cc
  checked-checks (ok d) {document} {checks} h =
      let out = ok_injective h in
      ap (document_checks yaml probes) (sym (ap (λ (o : Document × List Check). o.0) out))
      ∙ ap (λ (o : Document × List Check). o.1) out

  load_doctor-checks :
      (file : File) (document : Document) (checks : List Check)
      → load_doctor yaml probes file ≡ ok (document, checks)
      → document_checks yaml probes document ≡ checks
  unfolding load_doctor
  load_doctor-checks file document checks h = checked-checks (load yaml file) h

  -- When a configuration loads, and in whatever order the goroutines of its diagnosis finish, the
  -- report has one result for each configured instance, sorted by name within its section, and one
  -- for the store.
  pub result_ids-run_load_doctor :
      (file : File) (document : Document) (checks : List Check) (order : List ℕ)
      → load_doctor yaml probes file ≡ ok (document, checks)
      → ((n : ℕ) → n < length checks → member n order ≡ true)
      → result_ids (run order checks) ≡ configured_ids document
  result_ids-run_load_doctor file document checks order h done =
      ap result_ids (run-outcomes order checks done)
      ∙ outcomes-ids checks
      ∙ ap check_ids (sym (load_doctor-checks file document checks h))
      ∙ document_checks-ids document

  -- When a configuration loads and its report is good, after all goroutines have finished, each
  -- instance is of a supported kind, and its configuration decodes.
  pub report_ok-AllSupported :
      (file : File) (document : Document) (checks : List Check) (order : List ℕ)
      → load_doctor yaml probes file ≡ ok (document, checks)
      → ((n : ℕ) → n < length checks → member n order ≡ true)
      → report_ok (run order checks) ≡ true
      → AllSupported yaml probes document
  report_ok-AllSupported file document checks order h done good =
      document_checks-AllSupported document (
        ap (all passes) (load_doctor-checks file document checks h)
        ∙ sym (report_ok-run order checks done)
        ∙ good)
