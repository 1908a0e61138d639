-- ===== src/Control/Submit.antt =====
-- `SubmitManualRepository` of internal/control/task.go.
use delegatd.Prelude.{
  Bool, ◌&&◌, ◌||◌, not, [], ◌∷◌, GoString, codes, ◌==◌, is_empty, GoMap, insert, Option, none,
  some, pos, int_eqb, Result, ok, err, GoError, plain, ◌>>=◌, if◌then◌else◌,
}
use delegatd.Domain.Id.{new_id, parse_task_id, parse_resource_id, task_prefix, resource_prefix}
use delegatd.Domain.Time.{Time, is_zero, to_utc}
use delegatd.Domain.Input.{TaskInput, task_source_manual}
use delegatd.Domain.Json.{Codec}
use delegatd.Domain.Snapshot.{Snapshot, new_snapshot}
use delegatd.Domain.Task.{
  PolicyRequest, RepositoryConfiguration, RepositoryMaterial, TaskDraft, Task, pending,
  kind_repository, manual_submission, request_json, configuration_json, input_json, policy_json,
}
use delegatd.Policy.Request.{normalize_request}
use delegatd.Policy.Resolve.{resolve}
use delegatd.Memory.{guard}
use delegatd.Control.Failure.{new_failure, failure_from_cause, task_failed, task_cancelled}
use delegatd.Control.Store.{TaskStore}

-- What `ctx.Err()` returns each time the call reads it, `none` for a nil or a live context: at
-- entry, after a failed `Snapshot`, at the entry of the store's method, and after its failure.
pub record Context : Type 0 where
  pub at_entry : Option GoError
  pub after_source : Option GoError
  pub at_store : Option GoError
  pub after_store : Option GoError

-- `TaskService`, without the store itself: `has_store` says that the interface is not nil. `new_id`
-- and `now` are what the functions return in the call at hand.
pub record TaskService : Type 0 where
  pub has_store : Bool
  pub new_id : GoString → GoString
  pub now : Time

or_new_id : GoString → Option (GoString → GoString) → GoString → GoString
or_new_id random none = new_id random
or_new_id random (some f) = f

or_now : Time → Option Time → Time
or_now clock none = to_utc clock
or_now clock (some t) = t

-- `NewTaskService`; `random` is what `rand.Text` returns, `clock` what `time.Now` returns.
unfoldable pub new_task_service :
    GoString → Time → Bool → Option (GoString → GoString) → Option Time → TaskService
unfolding or_new_id or_now
new_task_service random clock has_store ids now = record {
  has_store = has_store;
  new_id = or_new_id random ids;
  now = or_now clock now;
}

-- `if err != nil { return …, NewFailure(reason, err) }`
abbrev pub attempt {ℓ} : {A : Type ℓ} → GoString → Result A → Result A
attempt reason (ok a) = ok a
attempt reason (err e) = err (new_failure reason e)

abbrev pub cancelled : Option GoError → Result (Unit {0})
cancelled none = ok tt
cancelled (some e) = err (new_failure task_cancelled e)

abbrev pub bad_configuration : GoString
bad_configuration = codes "repository configuration is invalid"

abbrev pub bad_input : GoString
bad_input = codes "task input is invalid"

abbrev pub not_configured : GoError
not_configured = new_failure task_failed (plain (codes "task service is not configured"))

-- The service, if it is there, has a store, and the names are not empty.
abbrev pub configured : Option TaskService → GoString → GoString → Result TaskService
configured none name connector = err not_configured
configured (some service) name connector =
    if service.has_store && not (is_empty name || is_empty connector)
    then ok service
    else err not_configured

-- `source.Snapshot(ctx)`, where the source is nil or returns the result.
abbrev pub from_source : Context → Option (Result RepositoryMaterial) → Result RepositoryMaterial
from_source ctx none = err not_configured
from_source ctx (some (ok material)) = ok material
from_source ctx (some (err e)) = err (failure_from_cause ctx.after_source e)

abbrev pub complete : RepositoryMaterial → Bool
complete m = not (
    is_empty m.external_ref
    || is_empty m.external_identity
    || is_empty m.revision
    || not (int_eqb m.configuration.version (pos 1)))

-- the loop that copies the actions
unfoldable pub copy_actions : GoMap GoString → GoMap GoString → GoMap GoString
copy_actions [] copied = copied
copy_actions ((name, decision) ∷ m) copied = copy_actions m (insert name decision copied)

-- `cloneRepositoryConfiguration`; a copied list is the list.
unfoldable pub clone_repository_configuration : RepositoryConfiguration → RepositoryConfiguration
clone_repository_configuration c = record c {
  policy = record c.policy { actions = copy_actions c.policy.actions [] };
}

abbrev pub manual : TaskInput → Bool
manual input =
    int_eqb input.version (pos 1)
    && input.source == task_source_manual
    && not (is_empty input.instructions)

-- The snapshots of a draft.
pub record Captured : Type 0 where
  pub configuration : Snapshot
  pub requested_policy : Snapshot
  pub input : Snapshot
  pub policy : Snapshot

unfoldable pub capture : Codec → TaskInput → PolicyRequest → RepositoryMaterial → Result Captured
capture codec input operator material = do
  let configuration = clone_repository_configuration material.configuration
  repository_policy ← attempt bad_configuration (normalize_request configuration.policy)
  operator_policy ← attempt task_failed (normalize_request operator)
  _ ← attempt bad_input (guard (manual input) (plain (codes "invalid normalized task input")))
  configuration_snapshot ← attempt bad_configuration (
      new_snapshot codec (configuration_json (record configuration { policy = repository_policy })))
  requested_policy ← attempt bad_configuration (new_snapshot codec (request_json repository_policy))
  input_snapshot ← attempt bad_input (new_snapshot codec (input_json input))
  policy ←
      attempt task_failed
        (new_snapshot codec (policy_json (resolve operator_policy repository_policy [])))
  ok (record {
    configuration = configuration_snapshot;
    requested_policy = requested_policy;
    input = input_snapshot;
    policy = policy;
  })

abbrev pub draft_of : TaskService → GoString → GoString → RepositoryMaterial → Captured → TaskDraft
draft_of service name connector material captured = record {
  id = service.new_id task_prefix;
  status = pending;
  resource = record {
    candidate_id = service.new_id resource_prefix;
    name = name;
    kind = kind_repository;
    connector = connector;
    external_ref = material.external_ref;
    external_identity = material.external_identity;
    revision = material.revision;
    configuration = captured.configuration;
    requested_policy = captured.requested_policy;
  };
  input = captured.input;
  configuration = captured.configuration;
  policy = captured.policy;
  created_at = to_utc service.now;
  initial_history = record {
    sequence = pos 1;
    status = pending;
    occurred_at = to_utc service.now;
    reason = manual_submission;
  };
}

-- All that comes before the call of the store: the draft, or the failure.
unfoldable pub prepare :
    Codec
    → Context
    → Option TaskService
    → GoString
    → GoString
    → TaskInput
    → PolicyRequest
    → Option (Result RepositoryMaterial)
    → Result TaskDraft
prepare codec ctx service name connector input operator source = do
  _ ← cancelled ctx.at_entry
  this ← configured service name connector
  material ← from_source ctx source
  _ ←
      attempt bad_configuration
        (guard (complete material) (plain (codes "repository material is incomplete")))
  captured ← capture codec input operator material
  _ ←
      attempt task_failed
        (guard (not (is_zero this.now)) (plain (codes "task clock returned zero")))
  _ ← attempt task_failed (parse_task_id (this.new_id task_prefix))
  _ ← attempt task_failed (parse_resource_id (this.new_id resource_prefix))
  ok (draft_of this name connector material captured)

-- What is done with the store's answer.
unfoldable pub answered {ℓ} : {S : Type ℓ} → Option GoError → Result Task × S → Result Task × S
answered ctx (ok t, s) = (ok t, s)
answered ctx (err e, s) = (err (failure_from_cause ctx e), s)

unfoldable pub store_draft :
    (store : TaskStore) → Context → Result TaskDraft → store.State → Result Task × store.State
store_draft store ctx (err e) s = (err e, s)
store_draft store ctx (ok draft) s =
    answered ctx.after_store (store.create_task ctx.at_store draft s)

-- `SubmitManualRepository`, on the state behind the store
unfoldable pub submit_manual_repository :
    Codec
    → (store : TaskStore) → Context
    → Option TaskService
    → GoString
    → GoString
    → TaskInput
    → PolicyRequest
    → Option (Result RepositoryMaterial)
    → store.State
    → Result Task × store.State
submit_manual_repository codec store ctx service name connector input operator source s =
    store_draft store ctx (prepare codec ctx service name connector input operator source) s
