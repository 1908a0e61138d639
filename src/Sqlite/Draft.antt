-- ===== src/Sqlite/Draft.antt =====
-- `validateTaskDraft`, the stored forms of times, and the resource snapshot of a task, in
-- internal/store/sqlite/store.go.
use delegatd.Prelude.{
  Bool, true, false, ◌&&◌, not, GoString, codes, ◌==◌, is_empty, ◌||◌, Result, ok, err, plain,
  ◌>>=◌, ◌>>◌, pos, int_eqb, if◌then◌else◌,
}
use delegatd.Domain.Id.{parse_task_id, parse_resource_id}
use delegatd.Domain.Time.{Time, is_utc, to_utc, same_time}
use delegatd.Domain.Json.{Codec, Json, text, object, field, end}
use delegatd.Domain.Task.{TaskDraft, ResourceSnapshot, manual_submission}
use delegatd.Memory.{guard, metadata_ok, resource_ok, check_snapshots, draft_snapshots}
use delegatd.Config.Yaml.{Read, value, fault, at_end, another, broken}

-- The first history entry has the very time of the task, at its location.
abbrev pub history_matches : TaskDraft → Bool
history_matches draft =
    let entry = draft.initial_history in
    int_eqb entry.sequence (pos 1)
    && entry.status == draft.status
    && same_time entry.occurred_at draft.created_at
    && entry.reason == manual_submission

unfoldable pub validate_task_draft : Codec → TaskDraft → Result (Unit {0})
validate_task_draft codec draft = do
  _ ← parse_task_id draft.id
  guard (metadata_ok draft) (plain (codes "invalid task metadata"))
  _ ← parse_resource_id draft.resource.candidate_id
  guard (resource_ok draft.resource) (plain (codes "incomplete resource metadata"))
  guard (draft.resource.configuration.bytes == draft.configuration.bytes)
      (plain (codes "configuration snapshots differ"))
  check_snapshots codec (draft_snapshots draft)
  guard (history_matches draft) (plain (codes "invalid initial task history"))

-- `Format` and `Parse` of package time, in the layout RFC3339Nano.
pub record TimeText : Type 0 where
  pub format : Time → GoString
  pub parse : GoString → Result Time

abbrev pub format_time : TimeText → Time → GoString
format_time times instant = times.format (to_utc instant)

unfoldable pub parse_stored_time : TimeText → GoString → Result Time
parse_stored_time times text_read = do
  parsed ← times.parse text_read
  (if is_utc parsed.location then ok parsed else err (plain (codes "stored timestamp is not UTC")))

-- The value that `json.Marshal` sees.
unfoldable pub resource_json : ResourceSnapshot → Json
resource_json r = object (
    field (codes "id") (text r.id) (
      field (codes "name") (text r.name) (
        field (codes "kind") (text r.kind) (
          field (codes "connector") (text r.connector)
            (field (codes "revision") (text r.revision) end)))))

-- `decodeResourceSnapshot`, of what a decoder that refuses unknown fields reads
unfoldable pub decode_resource_snapshot : Read ResourceSnapshot → Result ResourceSnapshot
decode_resource_snapshot (fault e) = err e
decode_resource_snapshot (value r at_end) = ok r
decode_resource_snapshot (value r another) =
    err (plain (codes "resource snapshot contains multiple values"))
decode_resource_snapshot (value r (broken e)) = err e

abbrev pub is_ok {ℓ} : {A : Type ℓ} → Result A → Bool
is_ok (ok a) = true
is_ok (err e) = false

-- the test of `Task` on a decoded resource
unfoldable pub stored_resource_ok : ResourceSnapshot → Bool
stored_resource_ok r =
    is_ok (parse_resource_id r.id)
    && not (is_empty r.name || is_empty r.kind || is_empty r.connector || is_empty r.revision)
