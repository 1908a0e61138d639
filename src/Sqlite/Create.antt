-- ===== src/Sqlite/Create.antt =====
-- `CreateTask` of internal/store/sqlite/store.go.
use delegatd.Prelude.{
  Bool, true, false, ◌&&◌, not, Option, none, some, GoString, codes, ◌==◌, is_empty, Result, ok,
  err, GoError, plain, sentinel, store_corrupt, ◌>>=◌, ◌>>◌, if◌then◌else◌,
}
use delegatd.Domain.Id.{parse_resource_id}
use delegatd.Domain.Json.{Codec}
use delegatd.Domain.Snapshot.{Snapshot, parse_snapshot, new_snapshot}
use delegatd.Domain.Task.{TaskDraft, Task, ResourceSnapshot}
use delegatd.Memory.{guard, store_error, not_submitted, conflict}
use delegatd.Sqlite.Engine.{Engine, ResourceRow, TaskRow, HistoryRow, ResourceUpdate}
use delegatd.Sqlite.Draft.{validate_task_draft, TimeText, format_time, resource_json, is_ok}

-- The handle: nil or closed, opened read-only, or opened for writing.
pub data Access : Type 0 where
  closed read_only writable : Access

abbrev pub can_write : Access → Bool
can_write closed = false
can_write read_only = false
can_write writable = true

abbrev pub state_unavailable : GoString
state_unavailable = codes "state store is unavailable"

-- `storeError("task could not be submitted", err)` around a failed call
abbrev pub submitted {ℓ} : {A : Type ℓ} → Result A → Result A
submitted (ok a) = ok a
submitted (err e) = err (store_error not_submitted e)

-- A call of `panic`, which no caller here recovers from.
abbrev pub panicked : GoError
panicked = plain (codes "panic")

-- `mustSnapshot`
abbrev pub must {ℓ} : {A : Type ℓ} → Result A → Result A
must (ok a) = ok a
must (err e) = err panicked

module _ (codec : Codec) (times : TimeText) (engine : Engine) (ctx : Option GoError)
    (draft : TaskDraft) where
  abbrev pub new_row : ResourceRow
  new_row = record {
    id = draft.resource.candidate_id;
    name = draft.resource.name;
    kind = draft.resource.kind;
    connector_instance = draft.resource.connector;
    external_ref = draft.resource.external_ref;
    external_identity = draft.resource.external_identity;
    revision = draft.resource.revision;
    configuration_json = draft.configuration.bytes;
    policy_request_json = draft.resource.requested_policy.bytes;
    onboarded_at = format_time times draft.created_at;
    updated_at = format_time times draft.created_at;
  }

  abbrev pub row_update : GoString → ResourceUpdate
  row_update id = record {
    kind = draft.resource.kind;
    external_ref = draft.resource.external_ref;
    revision = draft.resource.revision;
    configuration_json = draft.configuration.bytes;
    policy_request_json = draft.resource.requested_policy.bytes;
    updated_at = format_time times draft.created_at;
    id = id;
  }

  -- The case of `sql.ErrNoRows`: the resource is onboarded, unless its identity has an owner.
  unfoldable pub onboard :
      engine.Transaction → Option GoString → Result (GoString × engine.Transaction)
  onboard t (some owner) = err conflict
  onboard t none = do
    t' ← submitted (engine.insert_resource ctx new_row t)
    ok (draft.resource.candidate_id, t')

  abbrev pub bound_to : ResourceRow → Bool
  bound_to r =
      r.connector_instance == draft.resource.connector
      && r.external_identity == draft.resource.external_identity

  abbrev pub sound : ResourceRow → Bool
  sound r = is_ok (parse_resource_id r.id) && not (is_empty r.kind)

  -- The default case: the stored resource is refreshed, if it is bound to the identity of the draft.
  unfoldable pub refresh : engine.Transaction → ResourceRow → Result (GoString × engine.Transaction)
  refresh t r = do
    guard (bound_to r) conflict
    guard (sound r) (store_error state_unavailable (sentinel store_corrupt))
    t' ← submitted (engine.update_resource ctx (row_update r.id) t)
    ok (r.id, t')

  unfoldable pub bind_resource :
      engine.Transaction → Option ResourceRow → Result (GoString × engine.Transaction)
  bind_resource t (some r) = refresh t r
  bind_resource t none = do
    owner ←
        submitted (engine.owner_of ctx draft.resource.connector draft.resource.external_identity t)
    onboard t owner

  abbrev pub snapshot_of : GoString → ResourceSnapshot
  snapshot_of id = record {
    id = id;
    name = draft.resource.name;
    kind = draft.resource.kind;
    connector = draft.resource.connector;
    revision = draft.resource.revision;
  }

  abbrev pub task_row : GoString → Snapshot → TaskRow
  task_row id json = record {
    id = draft.id;
    resource_id = id;
    status = draft.status;
    resource_json = json.bytes;
    input_json = draft.input.bytes;
    configuration_json = draft.configuration.bytes;
    policy_json = draft.policy.bytes;
    created_at = format_time times draft.created_at;
  }

  abbrev pub history_row : HistoryRow
  history_row = record {
    task_id = draft.id;
    sequence = draft.initial_history.sequence;
    status = draft.initial_history.status;
    occurred_at = format_time times draft.initial_history.occurred_at;
    reason = draft.initial_history.reason;
  }

  -- The statements between `BeginTx` and `Commit`; the id is that of the resource.
  unfoldable pub write_task : engine.Transaction → Result (GoString × engine.Transaction)
  write_task t = do
    found ← submitted (engine.resource_by_name ctx draft.resource.name t)
    bound ← bind_resource t found
    json ← submitted (new_snapshot codec (resource_json (snapshot_of bound.0)))
    t2 ← submitted (engine.insert_task ctx (task_row bound.0 json) bound.1)
    t3 ← submitted (engine.insert_history ctx history_row t2)
    ok (bound.0, t3)

  -- The task that is returned.
  unfoldable pub returned_task : GoString → Result Task
  returned_task id = do
    input ← must (parse_snapshot codec draft.input.bytes)
    configuration ← must (parse_snapshot codec draft.configuration.bytes)
    policy ← must (parse_snapshot codec draft.policy.bytes)
    ok (record {
      id = draft.id;
      status = draft.status;
      created_at = draft.created_at;
      resource = snapshot_of id;
      input = input;
      configuration = configuration;
      policy = policy;
    })

  unfoldable pub committed :
      GoString → Result (Unit {0}) × engine.Database → Result Task × engine.Database
  committed id (ok u, d) = (returned_task id, d)
  committed id (err e, d) = (err (store_error not_submitted e), d)

  -- A failure runs the deferred `Rollback`, which undoes whatever the transaction did since `t`.
  unfoldable pub finish :
      engine.Transaction → Result (GoString × engine.Transaction) → Result Task × engine.Database
  finish t (err e) = (err e, engine.rollback t)
  finish t (ok (id, t')) = committed id (engine.commit t')

  unfoldable pub transacted :
      engine.Database → Result engine.Transaction → Result Task × engine.Database
  transacted d (err e) = (err (store_error not_submitted e), d)
  transacted d (ok t) = finish t (write_task t)

  unfoldable pub validated : engine.Database → Result (Unit {0}) → Result Task × engine.Database
  validated d (err e) = (err (store_error not_submitted e), d)
  validated d (ok u) = transacted d (engine.begin ctx d)

  -- `CreateTask`
  unfoldable pub create_task : Access → engine.Database → Result Task × engine.Database
  create_task access d =
      if can_write access
      then validated d (validate_task_draft codec draft)
      else (err (store_error state_unavailable (plain (codes "store is read-only or closed"))), d)
