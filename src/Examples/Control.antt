-- ===== src/Examples/Control.antt =====
-- The task service over the in-memory store.
use delegatd.Prelude.{
  ◌≡◌, refl, [], GoString, codes, GoError, sentinel, canceled, plain, wrapped, store, Result, ok,
  Option, some, pos, true, sort_strings, lookup, insert, ◌==◌, In,
}
use delegatd.Domain.Id.{new_id, is_id_body, parse_task_id, parse_resource_id}
use delegatd.Domain.Input.{TaskInput, task_source_manual}
use delegatd.Domain.Snapshot.{new_snapshot, parse_snapshot, canonical_json}
use delegatd.Domain.Task.{
  PolicyRequest, EffectivePolicy, RepositoryMaterial, TaskDraft, Task, deny, configuration_json,
  request_json, input_json, policy_json,
}
use delegatd.Policy.Request.{normalize_request, normalize_actions, normalize_paths}
use delegatd.Policy.Resolve.{resolve, deny_all, grant, add_paths}
use delegatd.Memory.{
  Store, new, validate_draft, create_task, check_snapshots, parse_snapshots, create_parsed,
  create_locked, commit, stored_resource, identity_taken, copy_task,
}
use delegatd.Control.Failure.{new_failure, task_cancelled}
use delegatd.Control.Store.{IsTaskStore, memory_store, memory_store-IsTaskStore, AnyTask}
use delegatd.Control.Submit.{
  Context, TaskService, prepare, submit_manual_repository, capture, clone_repository_configuration,
  copy_actions, store_draft, answered,
}
use delegatd.Control.Draft.{validate_draft-prepare, prepare-denies}
use delegatd.Control.Show.{
  show, live, submit_manual_repository-atomic, show-submit_manual_repository,
}
use delegatd.Examples.Verbatim.{verbatim, verbatim-IsCodec, decode_verbatim, encode_verbatim, flat}
use delegatd.Examples.Memory.{noon}

-- 26 letters of the alphabet of identifiers, as `rand.Text` returns them
abbrev pub random_letters : GoString
random_letters = codes "ABCDEFGHIJKLMNOPQRSTUVWXYZ"

abbrev pub service : TaskService
service = record { has_store = true; new_id = new_id random_letters; now = noon }

abbrev pub input : TaskInput
input = record { version = pos 1; source = task_source_manual; instructions = codes "fix" }

abbrev pub request : PolicyRequest
request = record { actions = []; protected_paths = [] }

abbrev pub material : RepositoryMaterial
material = record {
  external_ref = codes "acme/site";
  external_identity = codes "42";
  revision = codes "abc";
  configuration = record { version = pos 1; instructions = []; policy = request; required = [] };
}

abbrev pub source : Option (Result RepositoryMaterial)
source = some (ok material)

abbrev prepared : Result TaskDraft
prepared = prepare verbatim live (some service) (codes "site") (codes "github") input request source

prepared_draft : (draft : TaskDraft) × (prepared ≡ ok draft)
unfolding prepare capture clone_repository_configuration copy_actions normalize_request
    normalize_actions normalize_paths resolve deny_all grant add_paths configuration_json
    request_json input_json policy_json new_snapshot parse_snapshot canonical_json decode_verbatim
    encode_verbatim flat new_id parse_task_id parse_resource_id is_id_body sort_strings ◌==◌
prepared_draft = (_, refl)

abbrev submitted : Result Task × Option Store
submitted =
    submit_manual_repository verbatim (memory_store verbatim) live (some service) (codes "site")
      (codes "github") input request source (some new)

submitted_task : (t : Task) × (s : Option Store) × (submitted ≡ (ok t, s))
unfolding submit_manual_repository store_draft answered prepare capture
    clone_repository_configuration copy_actions normalize_request normalize_actions normalize_paths
    resolve deny_all grant add_paths configuration_json request_json input_json policy_json
    new_snapshot parse_snapshot canonical_json decode_verbatim encode_verbatim flat new_id
    parse_task_id parse_resource_id is_id_body sort_strings ◌==◌ create_task create_parsed
    create_locked commit stored_resource validate_draft check_snapshots parse_snapshots copy_task
    identity_taken lookup insert
submitted_task = (_, _, refl)

validate_draft-prepare_example : validate_draft verbatim prepared_draft.0 ≡ ok tt
validate_draft-prepare_example =
    validate_draft-prepare verbatim verbatim-IsCodec live (some service) (codes "site")
      (codes "github") input request source prepared_draft.0 prepared_draft.1

prepare-denies_example :
    (policy : EffectivePolicy) × (operator_policy : PolicyRequest) × (new_snapshot verbatim
        (policy_json policy)
      ≡ ok prepared_draft.0.policy)
    × (normalize_request request ≡ ok operator_policy)
    × (policy.default_action ≡ deny)
    × ((action decision : GoString)
        → lookup action policy.actions ≡ some decision
        → decision ≡ deny)
    × ((path : GoString) → In path operator_policy.protected_paths → In path policy.protected_paths)
prepare-denies_example =
    prepare-denies verbatim verbatim-IsCodec live (some service) (codes "site") (codes "github")
      input request source prepared_draft.0 prepared_draft.1

-- a context that is cancelled before the call
abbrev too_late : Context
too_late = record live { at_entry = some (sentinel canceled) }

submit_manual_repository-atomic_example : ◌≡◌ {A = Option Store} (some new) (some new)
submit_manual_repository-atomic_example =
    submit_manual_repository-atomic (memory_store verbatim) AnyTask
      (memory_store-IsTaskStore verbatim verbatim-IsCodec) verbatim too_late (some service)
      (codes "site") (codes "github") input request source (some new) (some new)
      (new_failure task_cancelled (sentinel canceled))
      (unfold submit_manual_repository store_draft prepare in refl)

show-submit_manual_repository_example :
    show (memory_store verbatim) live (some service) submitted_task.0.id submitted_task.1
    ≡ ok submitted_task.0
show-submit_manual_repository_example =
    show-submit_manual_repository (memory_store verbatim) AnyTask
      (memory_store-IsTaskStore verbatim verbatim-IsCodec) verbatim live (some service)
      (codes "site") (codes "github") input request source (some new) submitted_task.1
      submitted_task.0 service refl submitted_task.2 tt

memory_store-IsTaskStore_example : IsTaskStore (memory_store verbatim) AnyTask
memory_store-IsTaskStore_example = memory_store-IsTaskStore verbatim verbatim-IsCodec

abbrev not_found : GoError
not_found = wrapped store (codes "task not found") (plain [])
