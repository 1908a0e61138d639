-- ===== src/Examples/Bootstrap.antt =====
-- A task that is submitted and shown through a configuration, over the in-memory store.
use delegatd.Prelude.{
  ◌≡◌, refl, [], codes, ok, Option, none, some, pos, lookup, insert, ◌==◌, sort_strings,
}
use delegatd.Domain.Id.{new_id, is_id_body, parse_task_id, parse_resource_id}
use delegatd.Domain.Snapshot.{new_snapshot, parse_snapshot, canonical_json}
use delegatd.Domain.Task.{Task, configuration_json, request_json, input_json, policy_json}
use delegatd.Policy.Request.{normalize_request, normalize_actions, normalize_paths}
use delegatd.Policy.Resolve.{resolve, deny_all, grant, add_paths}
use delegatd.Memory.{
  Store, new, validate_draft, create_task, check_snapshots, parse_snapshots, create_parsed,
  create_locked, commit, stored_resource, identity_taken, copy_task,
}
use delegatd.Control.Store.{memory_store, memory_store-IsTaskStore, AnyTask}
use delegatd.Control.Submit.{
  new_task_service, prepare, submit_manual_repository, capture, clone_repository_configuration,
  copy_actions, store_draft, answered,
}
use delegatd.Control.Show.{live}
use delegatd.Config.Yaml.{
  value, at_end, contains_alias, decode_single_document, decode, contains_environment_interpolation,
  interpolates, mapping_value, value_in, mapping_count, count_in, root_of, check_tail, mapping_of,
  only_document,
}
use delegatd.Config.Checks.{
  is_instance_name, validate_instance, validate_instances, check_instances, validate_resources,
  check_resources, check_resource,
}
use delegatd.Config.Load.{
  YamlPackage, load, read_root, validate_config, load_store, store_sections, StoreDocument,
}
use delegatd.Bootstrap.{
  Adapters, Environment, submit_task, submit_selected, submit_opened, submit_sourced, select,
  select_resource, select_connector, select_store, show_task,
}
use delegatd.Bootstrap.Roundtrip.{show_task-submit_task}
use delegatd.Examples.Verbatim.{verbatim, verbatim-IsCodec, decode_verbatim, encode_verbatim, flat}
use delegatd.Examples.Memory.{noon}
use delegatd.Examples.Control.{random_letters, input, source, material, request, service}
use delegatd.Examples.Config.{deployment, file, instance_of, entry}
use delegatd.Config.Yaml.{Node, node, child, leaf, document_node, mapping_node, scalar}

-- the configuration file as both readers of it see it
abbrev root_with_version : Node
root_with_version = node mapping_node [] [] (
    child (scalar (codes "version")) (
      child (scalar (codes "1")) (
        entry (codes "store") (
          entry (codes "connectors")
            (entry (codes "workspace_providers") (entry (codes "agent_runtimes") leaf))))))

abbrev versioned_yaml : YamlPackage
versioned_yaml = record {
  document = λ text. value (node document_node [] [] (child root_with_version leaf)) at_end;
  marshal = λ n. ok [];
  as_config = λ written. value deployment at_end;
  as_store = λ written. value (pos 1, instance_of (codes "sqlite")) at_end;
}

abbrev final_state : Option Store
final_state =
    (submit_manual_repository verbatim (memory_store verbatim) live (some service) (codes "site")
      (codes "hub") input request source (some new)).1

abbrev adapters : Adapters (memory_store verbatim)
adapters = record {
  StoreConfig = Unit;
  AppConfig = Unit;
  ResourceConfig = Unit;
  read_store = λ written. value tt at_end;
  read_app = λ written. value tt at_end;
  read_resource = λ written. value tt at_end;
  open_store = λ config dir. ok (some new);
  open_store_read_only = λ config dir. ok final_state;
  new_repository_source = λ app resource dir. ok (ok material);
}

abbrev environment : Environment
environment = record { random = random_letters; clock = noon; ids = none }

abbrev store_document : StoreDocument
store_document = record {
  path = codes "/etc/delegatd.yaml";
  dir = codes "/etc";
  version = pos 1;
  store = instance_of (codes "sqlite");
}

task_submitted :
    (t : Task) × (submit_task verbatim
        (memory_store verbatim)
        adapters
        versioned_yaml
        live
        environment
        file
        (codes "site")
        input
      ≡ (ok t, some final_state))
unfolding submit_task submit_selected submit_opened submit_sourced select select_resource
    select_connector load read_root decode_single_document root_of check_tail contains_alias
    contains_environment_interpolation interpolates decode mapping_of only_document validate_config
    mapping_value value_in validate_instance validate_instances check_instances validate_resources
    check_resources check_resource is_instance_name new_task_service submit_manual_repository
    store_draft answered prepare capture clone_repository_configuration copy_actions
    normalize_request normalize_actions normalize_paths resolve deny_all grant add_paths
    configuration_json request_json input_json policy_json new_snapshot parse_snapshot
    canonical_json decode_verbatim encode_verbatim flat new_id parse_task_id parse_resource_id
    is_id_body sort_strings ◌==◌ create_task create_parsed create_locked commit stored_resource
    validate_draft check_snapshots parse_snapshots copy_task identity_taken lookup insert
task_submitted = (_, refl)

store_loads : load_store versioned_yaml file ≡ ok store_document
unfolding load_store store_sections read_root decode_single_document root_of check_tail
    contains_alias contains_environment_interpolation interpolates decode mapping_of only_document
    mapping_value value_in mapping_count count_in validate_instance is_instance_name ◌==◌
store_loads = refl

store_selected :
    select_store verbatim (memory_store verbatim) adapters versioned_yaml live store_document
    ≡ ok tt
unfolding select_store decode mapping_of only_document ◌==◌
store_selected = refl

show_task-submit_task_example :
    show_task verbatim
      (memory_store verbatim)
      adapters
      versioned_yaml
      live
      environment
      file
      task_submitted.0.id
    ≡ ok task_submitted.0
show_task-submit_task_example =
    show_task-submit_task verbatim (memory_store verbatim) AnyTask
      (memory_store-IsTaskStore verbatim verbatim-IsCodec) adapters versioned_yaml live environment
      (codes "site") input task_submitted.0 final_state tt environment file file store_document tt
      task_submitted.1 store_loads store_selected refl
