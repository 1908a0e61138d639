-- ===== src/Examples/Config.antt =====
-- A deployment configuration, a repository configuration, and a doctor's report.
use delegatd.Prelude.{
  ◌≡◌, refl, ◌<◌, ℕ, true, List, [], ◌∷◌, arith, GoString, codes, ok, none, some, pos, length,
  sort_strings, lookup, insert, ◌==◌, trim_space, trim_left, trim_right, contains_any, has_prefix,
  has_suffix, split,
}
use delegatd.Domain.Task.{RepositoryConfiguration}
use delegatd.Policy.Request.{normalize_request, normalize_actions, normalize_paths}
use delegatd.Policy.Paths.{normalize_instruction_path}
use delegatd.Config.Yaml.{
  Node, Nodes, node, child, leaf, document_node, mapping_node, Read, value, at_end, scalar,
  contains_alias, decode_single_document, decode, contains_environment_interpolation, interpolates,
  mapping_value, value_in, root_of, check_tail, mapping_of, only_document,
}
use delegatd.Config.Checks.{
  Instance, Config, is_instance_name, validate_instance, validate_instances, check_instances,
  validate_resources, check_resources, check_resource,
}
use delegatd.Config.Load.{YamlPackage, File, Document, load, read_root, validate_config}
use delegatd.Config.Repository.{
  Durations, RepositoryYaml, decode_repository, normalize_repository, normalize_instructions,
  normalize_commands, positive_duration,
}
use delegatd.Config.Valid.{IsValidConfig, load-IsValidConfig}
use delegatd.Config.Commands.{IsNormalRepository, decode_repository-IsNormalRepository}
use delegatd.Doctor.{Check, run}
use delegatd.Doctor.Order.{member, outcomes, run-outcomes}

abbrev pub entry : GoString → Nodes → Nodes
entry key rest = child (scalar key) (child (node mapping_node [] [] leaf) rest)

abbrev pub root_node : Node
root_node = node mapping_node [] [] (
    entry (codes "store") (
      entry (codes "connectors")
        (entry (codes "workspace_providers") (entry (codes "agent_runtimes") leaf))))

abbrev pub document : Read Node
document = value (node document_node [] [] (child root_node leaf)) at_end

abbrev pub instance_of : GoString → Instance
instance_of kind = record { kind = kind; config = root_node }

abbrev pub deployment : Config
deployment = record {
  version = pos 1;
  store = instance_of (codes "memory");
  connectors = (codes "hub", instance_of (codes "github")) ∷ [];
  workspace_providers = (codes "box", instance_of (codes "docker")) ∷ [];
  agent_runtimes = (codes "omp", instance_of (codes "omp")) ∷ [];
  resources =
      (
        codes "site",
        record { kind = codes "repository"; connector = codes "hub"; config = root_node },
      )
      ∷ [];
  policy = record { actions = []; protected_paths = [] };
}

abbrev yaml : YamlPackage
yaml = record {
  document = λ input. document;
  marshal = λ n. ok [];
  as_config = λ written. value deployment at_end;
  as_store = λ written. value (pos 1, instance_of (codes "memory")) at_end;
}

abbrev pub file : File
file = record {
  absolute = ok (codes "/etc/delegatd.yaml");
  directory = codes "/etc";
  opened = none;
  content = codes "version: 1";
  read_error = none;
  close_error = none;
}

abbrev loaded : Document
loaded = record { path = codes "/etc/delegatd.yaml"; dir = codes "/etc"; config = deployment }

deployment_loads : load yaml file ≡ ok loaded
unfolding load read_root decode_single_document root_of check_tail contains_alias
    contains_environment_interpolation interpolates decode mapping_of only_document validate_config
    mapping_value value_in validate_instance validate_instances check_instances validate_resources
    check_resources check_resource is_instance_name sort_strings normalize_request normalize_actions
    normalize_paths lookup ◌==◌
deployment_loads = refl

load-IsValidConfig_example : IsValidConfig deployment
load-IsValidConfig_example = load-IsValidConfig yaml file loaded deployment_loads

abbrev pub minutes : Durations
minutes = record { parse = λ text. some (pos 60); print = λ d. codes "1m0s" }

abbrev written_repository : RepositoryConfiguration
written_repository = record {
  version = pos 1;
  instructions = codes " AGENTS.md" ∷ [];
  policy = record { actions = []; protected_paths = [] };
  required = record { name = codes "test "; run = codes "make"; timeout = codes "60s" } ∷ [];
}

abbrev normal_repository : RepositoryConfiguration
normal_repository = record {
  version = pos 1;
  instructions = codes "AGENTS.md" ∷ [];
  policy = record { actions = []; protected_paths = [] };
  required = record { name = codes "test"; run = codes "make"; timeout = codes "1m0s" } ∷ [];
}

abbrev pub repository_yaml : RepositoryYaml
repository_yaml = record {
  document = λ input. document;
  marshal = λ n. ok [];
  as_repository = λ written. value written_repository at_end;
}

repository_decodes :
    decode_repository minutes repository_yaml (codes "version: 1") ≡ ok normal_repository
unfolding decode_repository decode_single_document root_of check_tail contains_alias decode
    mapping_of only_document normalize_repository normalize_instructions normalize_commands
    positive_duration normalize_instruction_path trim_space trim_left trim_right is_instance_name
    normalize_request normalize_actions normalize_paths lookup insert contains_any has_prefix
    has_suffix split ◌==◌
repository_decodes = refl

decode_repository-IsNormalRepository_example : IsNormalRepository minutes normal_repository
decode_repository-IsNormalRepository_example =
    decode_repository-IsNormalRepository minutes repository_yaml (codes "version: 1")
      normal_repository repository_decodes

abbrev checks : List Check
checks =
    record { id = codes "store"; probe = some (codes "ready", none) }
    ∷ record { id = codes "omp"; probe = none }
    ∷ []

abbrev both : List ℕ
both = 1 ∷ 0 ∷ []

both_finish : (n : ℕ) → n < length checks → member n both ≡ true
unfolding member
both_finish n l = ground arith

run-outcomes_example : run both checks ≡ outcomes checks
run-outcomes_example = run-outcomes both checks both_finish
