-- ===== src/Memory.antt =====
-- internal/store/memory/store.go: the in-memory task store. A method takes the store behind its
-- pointer, nil or not, and returns what is behind it after the call; the mutex makes each call one
-- step. The context's error at entry is an argument, `none` for a nil or a live context.
pub mod Snapshots
pub mod Outcome
pub mod Binding
pub mod Invariant
pub mod Laws
pub mod Traces
use delegatd.Prelude.{
  ◌≡◌, refl, Bool, true, false, ◌&&◌, ◌||◌, not, List, [], ◌∷◌, arith, GoString, codes, ◌==◌,
  is_empty, GoMap, lookup, insert, contains, Option, none, some, Result, ok, err, GoError, plain,
  sentinel, wrapped, store, task_not_found, resource_conflict, ◌>>=◌, ◌>>◌, if◌then◌else◌, pos,
  int_eqb,
}
use delegatd.Domain.Id.{parse_task_id, parse_resource_id}
use delegatd.Domain.Time.{Time, is_zero, is_utc, same_instant}
use delegatd.Domain.Json.{Codec}
use delegatd.Domain.Snapshot.{Snapshot, parse_snapshot}
use delegatd.Domain.Task.{
  ResourceSnapshot, ResourceDraft, TaskHistoryEntry, TaskDraft, Task, pending, manual_submission,
}

pub record Resource : Type 0 where
  pub id : GoString
  pub name : GoString
  pub kind : GoString
  pub connector : GoString
  pub external_ref : GoString
  pub external_identity : GoString
  pub revision : GoString
  pub configuration : Snapshot
  pub requested_policy : Snapshot
  pub onboarded_at : Time
  pub updated_at : Time

pub record Store : Type 0 where
  pub resources : GoMap Resource
  pub tasks : GoMap Task
  pub history : GoMap (List TaskHistoryEntry)

-- `New`
abbrev pub new : Store
new = record { resources = []; tasks = []; history = [] }

-- `storeError`
abbrev pub store_error : GoString → GoError → GoError
store_error reason cause = wrapped store reason cause

abbrev pub not_submitted : GoString
not_submitted = codes "task could not be submitted"

abbrev pub conflict : GoError
conflict =
    store_error (codes "resource conflicts with stored onboarding") (sentinel resource_conflict)

-- The loop over the snapshots of `validateDraft`.
unfoldable pub check_snapshots : Codec → List Snapshot → Result (Unit {0})
check_snapshots codec [] = ok tt
check_snapshots codec (s ∷ ss) = do _ ← parse_snapshot codec s.bytes; check_snapshots codec ss

abbrev pub guard : Bool → GoError → Result (Unit {0})
guard true e = ok tt
guard false e = err e

-- The metadata and the time of the task are good.
abbrev pub metadata_ok : TaskDraft → Bool
metadata_ok draft =
    draft.status == pending && not (is_zero draft.created_at) && is_utc draft.created_at.location

abbrev pub resource_ok : ResourceDraft → Bool
resource_ok r = not (
    is_empty r.name
    || is_empty r.kind
    || is_empty r.connector
    || is_empty r.external_ref
    || is_empty r.external_identity
    || is_empty r.revision)

abbrev pub history_ok : TaskDraft → Bool
history_ok draft =
    let entry = draft.initial_history in
    int_eqb entry.sequence (pos 1)
    && entry.status == draft.status
    && same_instant entry.occurred_at draft.created_at
    && entry.reason == manual_submission

abbrev pub draft_snapshots : TaskDraft → List Snapshot
draft_snapshots draft =
    draft.resource.configuration ∷ draft.resource.requested_policy ∷ draft.input
    ∷ draft.configuration ∷ draft.policy ∷ []

unfoldable pub validate_draft : Codec → TaskDraft → Result (Unit {0})
validate_draft codec draft = do
  _ ← parse_task_id draft.id
  guard (metadata_ok draft) (plain (codes "invalid task metadata"))
  _ ← parse_resource_id draft.resource.candidate_id
  guard (resource_ok draft.resource) (plain (codes "incomplete resource metadata"))
  guard (draft.resource.configuration.bytes == draft.configuration.bytes)
      (plain (codes "configuration snapshots differ"))
  check_snapshots codec (draft_snapshots draft)
  guard (history_ok draft) (plain (codes "invalid initial task history"))

-- The snapshots that `CreateTask` parses before it takes the lock.
pub record Parsed : Type 0 where
  pub configuration : Snapshot
  pub requested_policy : Snapshot
  pub input : Snapshot
  pub task_configuration : Snapshot
  pub policy : Snapshot

unfoldable pub parse_snapshots : Codec → TaskDraft → Result Parsed
parse_snapshots codec draft = do
  configuration ← parse_snapshot codec draft.resource.configuration.bytes
  requested_policy ← parse_snapshot codec draft.resource.requested_policy.bytes
  input ← parse_snapshot codec draft.input.bytes
  task_configuration ← parse_snapshot codec draft.configuration.bytes
  policy ← parse_snapshot codec draft.policy.bytes
  ok (record {
    configuration = configuration;
    requested_policy = requested_policy;
    input = input;
    task_configuration = task_configuration;
    policy = policy;
  })

-- The resource is bound to the connector and the external identity of the draft.
abbrev pub same_identity : ResourceDraft → Resource → Bool
same_identity draft r =
    r.connector == draft.connector && r.external_identity == draft.external_identity

-- The loop that looks for another resource with the identity of the draft.
unfoldable pub identity_taken : ResourceDraft → GoMap Resource → Bool
identity_taken draft [] = false
identity_taken draft ((k, r) ∷ m) =
    (not (r.name == draft.name) && same_identity draft r) || identity_taken draft m

-- The fields of a known resource that a new task refreshes.
abbrev pub refreshed : TaskDraft → Parsed → Resource → Resource
refreshed draft parsed r = record r {
  kind = draft.resource.kind;
  external_ref = draft.resource.external_ref;
  revision = draft.resource.revision;
  configuration = parsed.configuration;
  requested_policy = parsed.requested_policy;
  updated_at = draft.created_at;
}

abbrev pub onboarded : TaskDraft → Parsed → Resource
onboarded draft parsed = record {
  id = draft.resource.candidate_id;
  name = draft.resource.name;
  kind = draft.resource.kind;
  connector = draft.resource.connector;
  external_ref = draft.resource.external_ref;
  external_identity = draft.resource.external_identity;
  revision = draft.resource.revision;
  configuration = parsed.configuration;
  requested_policy = parsed.requested_policy;
  onboarded_at = draft.created_at;
  updated_at = draft.created_at;
}

-- The resource that is stored under the name of the draft, or the conflict.
unfoldable pub stored_resource : TaskDraft → Parsed → Option Resource → Result Resource
stored_resource draft parsed none = ok (onboarded draft parsed)
stored_resource draft parsed (some r) =
    if same_identity draft.resource r then ok (refreshed draft parsed r) else err conflict

abbrev pub created_task : TaskDraft → Parsed → Resource → Task
created_task draft parsed r = record {
  id = draft.id;
  status = draft.status;
  created_at = draft.created_at;
  resource = record {
    id = r.id;
    name = r.name;
    kind = r.kind;
    connector = r.connector;
    revision = r.revision;
  };
  input = parsed.input;
  configuration = parsed.task_configuration;
  policy = parsed.policy;
}

-- `copyTask`
unfoldable pub copy_task : Codec → Task → Result Task
copy_task codec t = do
  input ← parse_snapshot codec t.input.bytes
  configuration ← parse_snapshot codec t.configuration.bytes
  policy ← parse_snapshot codec t.policy.bytes
  ok (record t { input = input; configuration = configuration; policy = policy })

-- The writes of `CreateTask`, and the copy that it returns.
abbrev pub written : TaskDraft → Parsed → Resource → Store → Store
written draft parsed r s = record {
  resources = insert draft.resource.name r s.resources;
  tasks = insert draft.id (created_task draft parsed r) s.tasks;
  history = insert draft.id (draft.initial_history ∷ []) s.history;
}

unfoldable pub commit : Codec → TaskDraft → Parsed → Store → Result Resource → Result Task × Store
commit codec draft parsed s (err e) = (err e, s)
commit codec draft parsed s (ok r) =
    (copy_task codec (created_task draft parsed r), written draft parsed r s)

-- What `CreateTask` does while it holds the lock.
unfoldable pub create_locked : Codec → TaskDraft → Parsed → Store → Result Task × Store
create_locked codec draft parsed s =
    if contains draft.id s.tasks
    then (err (store_error not_submitted (plain (codes "duplicate task"))), s)
    else if identity_taken draft.resource s.resources
    then (err conflict, s)
    else commit codec draft parsed s
        (stored_resource draft parsed (lookup draft.resource.name s.resources))

unfoldable pub create_parsed : Codec → TaskDraft → Store → Result Parsed → Result Task × Store
create_parsed codec draft s (err e) = (err (store_error not_submitted e), s)
create_parsed codec draft s (ok parsed) = create_locked codec draft parsed s

-- `CreateTask`
unfoldable pub create_task :
    Codec → Option GoError → TaskDraft → Option Store → Result Task × Option Store
create_task codec (some e) draft s = (err (store_error not_submitted e), s)
create_task codec none draft none =
    (err (store_error (codes "task store is unavailable") (plain (codes "store is nil"))), none)
create_task codec none draft (some s) =
    let (result, s') =
      create_parsed codec draft s (validate_draft codec draft >> parse_snapshots codec draft) in
    (result, some s')

found : Codec → Option Task → Result Task
found codec none = err (store_error (codes "task not found") (sentinel task_not_found))
found codec (some t) = copy_task codec t

-- `Task`
unfoldable pub task : Codec → Option GoError → GoString → Option Store → Result Task
unfolding found
task codec (some e) id s = err (store_error (codes "task store is unavailable") e)
task codec none id none =
    err (store_error (codes "task store is unavailable") (plain (codes "store is nil")))
task codec none id (some s) = found codec (lookup id s.tasks)

entries : Option (List TaskHistoryEntry) → List TaskHistoryEntry
entries none = []
entries (some es) = es

-- `History`
unfoldable pub task_history : GoString → Option Store → List TaskHistoryEntry
unfolding entries
task_history id none = []
task_history id (some s) = entries (lookup id s.history)
