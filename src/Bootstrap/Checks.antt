-- ===== src/Bootstrap/Checks.antt =====
-- internal/bootstrap/doctor.go: `LoadDoctor`, which makes one check for each configured adapter.
use delegatd.Prelude.{
  Bool, List, [], ◌∷◌, ◌++◌, GoString, codes, ◌==◌, lookup, keys, GoMap, sort_strings, Option, none,
  some, Result, ok, err, wrapped, diagnostic, if◌then◌else◌,
}
use delegatd.Config.Yaml.{Read, decode}
use delegatd.Config.Checks.{Instance}
use delegatd.Config.Load.{YamlPackage, File, Document, load}
use delegatd.Doctor.{Check, Failure}
use delegatd.Bootstrap.{config_safe_reason}

abbrev pub Diagnosis : Type 0
Diagnosis = GoString × Option Failure

-- The packages of the adapters: their configurations, and what the probes answer that
-- `NewDoctorCheck` makes of them, given the directory of the configuration. The configurations of
-- Docker and OMP have no fields.
pub record Probes : Type 1 where
  pub GithubConfig : Type 0
  pub SqliteConfig : Type 0
  pub read_github : GoString → Read GithubConfig
  pub read_docker : GoString → Read (Unit {0})
  pub read_omp : GoString → Read (Unit {0})
  pub read_sqlite : GoString → Read SqliteConfig
  pub github : GithubConfig → GoString → Diagnosis
  pub docker : Diagnosis
  pub omp : Diagnosis
  pub sqlite : SqliteConfig → GoString → Diagnosis

-- `failedCheck`
abbrev pub failed_check : GoString → GoString → Check
failed_check id reason = record { id = id; probe = some ([], some (record { reason = reason })) }

unfoldable pub configured_check {ℓ} :
    {Config : Type ℓ} → GoString → Result Config → (Config → Diagnosis) → Check
configured_check id (err e) diagnose =
    failed_check id (id ++ codes " configuration contains unknown or invalid fields")
configured_check id (ok config) diagnose = record { id = id; probe = some (diagnose config) }

abbrev pub unsupported_check : GoString → Check
unsupported_check id = failed_check id (id ++ codes " adapter kind is unsupported")

-- one arm of the switches: the adapter of the kind, or the default
abbrev pub adapter_check {ℓ} :
    {Config : Type ℓ} → GoString → Bool → Result Config → (Config → Diagnosis) → Check
adapter_check id supported config diagnose =
    if supported then configured_check id config diagnose else unsupported_check id

-- `sortedNames`
abbrev pub sorted_names : GoMap Instance → List GoString
sorted_names instances = sort_strings (keys instances)

-- a name that is not there has the zero instance, whose kind no adapter supports
abbrev pub named_check : (GoString → Instance → Check) → GoString → Option Instance → Check
named_check check id none = unsupported_check id
named_check check id (some i) = check id i

-- The loops over the names of the instances.
unfoldable pub instance_checks :
    GoString → (GoString → Instance → Check) → GoMap Instance → List GoString → List Check
instance_checks prefix check instances [] = []
instance_checks prefix check instances (name ∷ names) =
    named_check check (prefix ++ name) (lookup name instances)
    ∷ instance_checks prefix check instances names

module _ (yaml : YamlPackage) (probes : Probes) where
  abbrev pub connector_check : GoString → GoString → Instance → Check
  connector_check dir id i =
      adapter_check id (i.kind == codes "github") (decode yaml.marshal probes.read_github i.config)
        (λ config. probes.github config dir)

  abbrev pub provider_check : GoString → Instance → Check
  provider_check id i =
      adapter_check id (i.kind == codes "docker") (decode yaml.marshal probes.read_docker i.config)
        (λ config. probes.docker)

  abbrev pub runtime_check : GoString → Instance → Check
  runtime_check id i =
      adapter_check id (i.kind == codes "omp") (decode yaml.marshal probes.read_omp i.config)
        (λ config. probes.omp)

  abbrev pub store_check : GoString → Instance → Check
  store_check dir i =
      adapter_check (codes "store." ++ i.kind) (i.kind == codes "sqlite")
        (decode yaml.marshal probes.read_sqlite i.config) (λ config. probes.sqlite config dir)

  unfoldable pub document_checks : Document → List Check
  document_checks document =
      let config = document.config in
      instance_checks (codes "connector.") (connector_check document.dir) config.connectors
        (sorted_names config.connectors)
      ++ (instance_checks (codes "workspace_provider.") provider_check config.workspace_providers
            (sorted_names config.workspace_providers)
          ++ (instance_checks (codes "agent_runtime.") runtime_check config.agent_runtimes
                (sorted_names config.agent_runtimes)
              ++ (store_check document.dir config.store ∷ [])))

  unfoldable pub checked : Result Document → Result (Document × List Check)
  checked (err e) = err (wrapped diagnostic (config_safe_reason e) e)
  checked (ok document) = ok (document, document_checks document)

  -- `LoadDoctor`
  unfoldable pub load_doctor : File → Result (Document × List Check)
  load_doctor file = checked (load yaml file)
