-- ===== src/Examples/Memory.antt =====
-- Two tasks in a store.
use delegatd.Prelude.{
  ◌≡◌, ◌≢◌, refl, List, [], ◌∷◌, GoString, codes, ok, pos, Option, none, some, lookup, insert, ◌==◌,
  GoError, ◌↔◌,
}
use delegatd.Domain.Id.{is_id_body, parse_task_id, parse_resource_id, new_id, task_prefix}
use delegatd.Domain.Time.{Time, utc}
use delegatd.Domain.Snapshot.{Snapshot, parse_snapshot, canonical_json}
use delegatd.Domain.Task.{TaskDraft, Task, pending, kind_repository, manual_submission}
use delegatd.Memory.{
  Store, Parsed, new, created_task, onboarded, written, validate_draft, parse_snapshots,
  identity_taken, stored_resource, copy_task, create_locked, create_parsed, commit, check_snapshots,
  create_task, task, task_history,
}
use delegatd.Memory.Snapshots.{IsValidDraft}
use delegatd.Memory.Outcome.{Admits, create_task-succeeds_iff}
use delegatd.Memory.Laws.{create_task-frame}
use delegatd.Memory.Traces.{
  Call, run, IsValidStore, run-IsValid, task-run, Onboarded, onboarding-run,
}
use delegatd.Examples.Verbatim.{verbatim, verbatim-IsCodec, decode_verbatim, encode_verbatim}

abbrev pub noon : Time
noon = record { instant = pos 12; location = utc }

abbrev pub snapshot : Snapshot
snapshot = record { bytes = codes "{}" }

abbrev pub first_id : GoString
first_id = new_id (codes "ABCDEFGHIJKLMNOPQRSTUVWXYZ") task_prefix

abbrev pub draft_of : GoString → GoString → TaskDraft
draft_of id name = record {
  id = id;
  status = pending;
  resource = record {
    candidate_id = codes "resource_ABCDEFGHIJKLMNOPQRSTUVWXYZ";
    name = name;
    kind = kind_repository;
    connector = codes "github";
    external_ref = codes "acme/site";
    external_identity = codes "42";
    revision = codes "abc";
    configuration = snapshot;
    requested_policy = snapshot;
  };
  input = snapshot;
  configuration = snapshot;
  policy = snapshot;
  created_at = noon;
  initial_history = record {
    sequence = pos 1;
    status = pending;
    occurred_at = noon;
    reason = manual_submission;
  };
}

abbrev pub draft : TaskDraft
draft = draft_of (codes "task_ABCDEFGHIJKLMNOPQRSTUVWXYZ") (codes "site")

abbrev pub parsed : Parsed
parsed = record {
  configuration = snapshot;
  requested_policy = snapshot;
  input = snapshot;
  task_configuration = snapshot;
  policy = snapshot;
}

abbrev pub stored : Store
stored = written draft parsed (onboarded draft parsed) new

abbrev pub created : Task
created = created_task draft parsed (onboarded draft parsed)

pub create_draft : create_task verbatim none draft (some new) ≡ (ok created, some stored)
unfolding create_task create_parsed create_locked commit stored_resource validate_draft
    check_snapshots parse_snapshots copy_task identity_taken lookup insert ◌==◌ parse_task_id
    parse_resource_id is_id_body parse_snapshot canonical_json decode_verbatim encode_verbatim
create_draft = refl

task-created : task verbatim none draft.id (some stored) ≡ ok created
unfolding task copy_task lookup insert ◌==◌ parse_snapshot canonical_json decode_verbatim
    encode_verbatim
task-created = refl

draft_valid : validate_draft verbatim draft ≡ ok tt
unfolding validate_draft check_snapshots ◌==◌ parse_task_id parse_resource_id is_id_body
    parse_snapshot canonical_json decode_verbatim encode_verbatim
draft_valid = refl

create_task-succeeds_iff_example :
    ((t : Task) × (s' : Option Store) × (create_task verbatim none draft (some new) ≡ (ok t, s')))
    ↔ (IsValidDraft verbatim draft × Admits draft new)
create_task-succeeds_iff_example = create_task-succeeds_iff verbatim verbatim-IsCodec draft new

create_task-frame_example :
    (task_history draft.id (some stored) ≡ draft.initial_history ∷ [])
    × ((c : Option GoError) (id : GoString)
        → id ≢ draft.id
        → (task verbatim c id (some stored) ≡ task verbatim c id (some new))
          × (task_history id (some stored) ≡ task_history id (some new)))
create_task-frame_example =
    create_task-frame verbatim verbatim-IsCodec none draft (some new) (some stored) created
      create_draft

abbrev calls : List Call
calls =
    (none, draft) ∷ (none, draft_of (codes "task_BBCDEFGHIJKLMNOPQRSTUVWXYZ") (codes "site")) ∷ []

run-IsValid_example : IsValidStore verbatim (run verbatim (some new) calls)
run-IsValid_example = run-IsValid verbatim verbatim-IsCodec calls

task-run_example : task verbatim none draft.id (run verbatim (some stored) calls) ≡ ok created
task-run_example =
    task-run verbatim verbatim-IsCodec draft.id created (some stored) calls task-created

onboarding-run_example :
    Onboarded (codes "site") (onboarded draft parsed) (run verbatim (some stored) calls)
onboarding-run_example =
    onboarding-run verbatim verbatim-IsCodec (codes "site") (onboarded draft parsed) (some stored)
      calls
      (
        onboarded draft parsed,
        unfold insert lookup ◌==◌ in refl,
        record {
          id = refl;
          name = refl;
          connector = refl;
          external_identity = refl;
          onboarded_at = refl;
        },
      )
