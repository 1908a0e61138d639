-- ===== src/Sqlite/Read.antt =====
-- `Task` of internal/store/sqlite/store.go.
use delegatd.Prelude.{
  Bool, true, false, Option, none, some, GoString, codes, ◌==◌, Result, ok, err, GoError, plain,
  sentinel, task_not_found, store_corrupt, ◌>>=◌, ◌>>◌,
}
use delegatd.Domain.Id.{parse_task_id}
use delegatd.Domain.Json.{Codec}
use delegatd.Domain.Snapshot.{parse_snapshot}
use delegatd.Domain.Task.{Task, ResourceSnapshot, pending}
use delegatd.Memory.{guard, store_error}
use delegatd.Config.Yaml.{Read}
use delegatd.Sqlite.Engine.{Engine, TaskRow}
use delegatd.Sqlite.Draft.{
  TimeText, parse_stored_time, decode_resource_snapshot, stored_resource_ok,
}
use delegatd.Sqlite.Create.{Access, closed, read_only, writable, state_unavailable}

-- `storeError("state store is unavailable", err)` around a failed call
abbrev pub unavailable {ℓ} : {A : Type ℓ} → Result A → Result A
unavailable (ok a) = ok a
unavailable (err e) = err (store_error state_unavailable e)

abbrev pub missing : GoError
missing = store_error (codes "task not found") (sentinel task_not_found)

abbrev pub corrupt : GoError
corrupt = store_error state_unavailable (sentinel store_corrupt)

-- `encoding/json` at the type `ResourceSnapshot`, with unknown fields refused
abbrev pub ResourceReader : Type 0
ResourceReader = GoString → Read ResourceSnapshot

-- the row that was read
unfoldable pub task_of_row : Codec → TimeText → ResourceReader → GoString → TaskRow → Result Task
task_of_row codec times reader id row = do
  guard (row.status == pending) corrupt
  resource ← unavailable (decode_resource_snapshot (reader row.resource_json))
  guard (stored_resource_ok resource) corrupt
  created ← unavailable (parse_stored_time times row.created_at)
  input ← unavailable (parse_snapshot codec row.input_json)
  configuration ← unavailable (parse_snapshot codec row.configuration_json)
  policy ← unavailable (parse_snapshot codec row.policy_json)
  ok (record {
    id = id;
    status = row.status;
    created_at = created;
    resource = resource;
    input = input;
    configuration = configuration;
    policy = policy;
  })

unfoldable pub task_of : Codec → TimeText → ResourceReader → GoString → Option TaskRow → Result Task
task_of codec times reader id none = err missing
task_of codec times reader id (some row) = task_of_row codec times reader id row

abbrev pub is_open : Access → Bool
is_open closed = false
is_open read_only = true
is_open writable = true

-- `err != nil` of `ParseTaskID`
abbrev pub known_id : Result GoString → Result (Unit {0})
known_id (ok id) = ok tt
known_id (err e) = err missing

-- `Task`
unfoldable pub task :
    Codec
    → TimeText
    → ResourceReader
    → (engine : Engine) → Option GoError
    → Access
    → GoString
    → engine.Database
    → Result Task
task codec times reader engine ctx access id d = do
  guard (is_open access) (store_error state_unavailable (plain (codes "store is closed")))
  _ ← known_id (parse_task_id id)
  row ← unavailable (engine.task_by_id ctx id d)
  task_of codec times reader id row
