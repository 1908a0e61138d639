-- ===== src/Memory/Snapshots.antt =====
-- The snapshots of a valid draft parse, and what was parsed is copied as it is.
use delegatd.Prelude.{
  ◌≡◌, refl, Bool, true, false, List, [], ◌∷◌, arith, GoString, ◌==◌, All, ok, GoError, >>=-eq-ok,
}
use delegatd.Domain.Id.{parse_task_id, parse_resource_id}
use delegatd.Domain.Json.{Codec}
use delegatd.Domain.Snapshot.{Snapshot, parse_snapshot, IsCanonical}
use delegatd.Domain.Task.{TaskDraft, Task}
use delegatd.Memory.{
  Parsed, check_snapshots, guard, metadata_ok, resource_ok, history_ok, draft_snapshots,
  validate_draft, parse_snapshots, copy_task,
}

-- The snapshot parses.
abbrev pub Parses : Codec → Snapshot → Type 0
Parses codec s = (p : Snapshot) × (parse_snapshot codec s.bytes ≡ ok p)

-- Everything that `validateDraft` asks of a draft.
pub record IsValidDraft (codec : Codec) (draft : TaskDraft) : Type 0 where
  pub good_id : parse_task_id draft.id ≡ ok draft.id
  pub good_metadata : metadata_ok draft ≡ true
  pub good_resource_id :
      parse_resource_id draft.resource.candidate_id ≡ ok draft.resource.candidate_id
  pub good_resource : resource_ok draft.resource ≡ true
  pub one_configuration : (draft.resource.configuration.bytes == draft.configuration.bytes) ≡ true
  pub good_snapshots : All (Parses codec) (draft_snapshots draft)
  pub good_history : history_ok draft ≡ true

pub guard-true : (b : Bool) (e : GoError) {u : Unit {0}} → guard b e ≡ ok u → b ≡ true
guard-true true e h = refl
guard-true false e h = cc

pub check_snapshots-Parses :
    (codec : Codec) (ss : List Snapshot) {u : Unit {0}}
    → check_snapshots codec ss ≡ ok u
    → All (Parses codec) ss
unfolding check_snapshots
check_snapshots-Parses codec [] h = tt
check_snapshots-Parses codec (s ∷ ss) h =
    let (p, parsed, rest) = >>=-eq-ok (parse_snapshot codec s.bytes) _ h in
    ((p, parsed), check_snapshots-Parses codec ss rest)

Parses-check_snapshots :
    (codec : Codec) (ss : List Snapshot) → All (Parses codec) ss → check_snapshots codec ss ≡ ok tt
unfolding check_snapshots
Parses-check_snapshots codec [] h = refl
Parses-check_snapshots codec (s ∷ ss) h = rw h.0.1 (Parses-check_snapshots codec ss h.1)

pub same_task_id : (v : GoString) {id : GoString} → parse_task_id v ≡ ok id → parse_task_id v ≡ ok v
unfolding parse_task_id
same_task_id v h = ground arith

pub same_resource_id :
    (v : GoString) {id : GoString} → parse_resource_id v ≡ ok id → parse_resource_id v ≡ ok v
unfolding parse_resource_id
same_resource_id v h = ground arith

-- A draft that `validateDraft` accepts has ids of their grammars, a pending status, a UTC time, a
-- whole resource, one configuration, snapshots that parse, and a first history entry that agrees.
pub validate_draft-IsValidDraft :
    (codec : Codec) (draft : TaskDraft)
    → validate_draft codec draft ≡ ok tt
    → IsValidDraft codec draft
unfolding validate_draft
validate_draft-IsValidDraft codec draft h =
    let (id, hid, h1) = >>=-eq-ok (parse_task_id draft.id) _ h in
    let (u1, hmeta, h2) = >>=-eq-ok (guard (metadata_ok draft) _) _ h1 in
    let (rid, hrid, h3) = >>=-eq-ok (parse_resource_id draft.resource.candidate_id) _ h2 in
    let (u2, hres, h4) = >>=-eq-ok (guard (resource_ok draft.resource) _) _ h3 in
    let (u3, hconf, h5) =
      >>=-eq-ok (guard (draft.resource.configuration.bytes == draft.configuration.bytes) _) _ h4 in
    let (u4, hsnap, hhist) = >>=-eq-ok (check_snapshots codec (draft_snapshots draft)) _ h5 in
    record {
      good_id = same_task_id draft.id hid;
      good_metadata = guard-true (metadata_ok draft) _ hmeta;
      good_resource_id = same_resource_id draft.resource.candidate_id hrid;
      good_resource = guard-true (resource_ok draft.resource) _ hres;
      one_configuration = guard-true _ _ hconf;
      good_snapshots = check_snapshots-Parses codec (draft_snapshots draft) hsnap;
      good_history = guard-true (history_ok draft) _ hhist;
    }

pub IsValidDraft-validate_draft :
    (codec : Codec) (draft : TaskDraft)
    → IsValidDraft codec draft
    → validate_draft codec draft ≡ ok tt
unfolding validate_draft
IsValidDraft-validate_draft codec draft v = rw v.good_id (
    rw v.good_metadata (
      rw v.good_resource_id (
        rw v.good_resource (
          rw v.one_configuration (
            rw (Parses-check_snapshots codec (draft_snapshots draft) v.good_snapshots)
              (rw v.good_history))))))

-- The snapshots that were parsed are in canonical form.
pub record AllParsed (codec : Codec) (draft : TaskDraft) (parsed : Parsed) : Type 0 where
  pub configuration :
      parse_snapshot codec draft.resource.configuration.bytes ≡ ok parsed.configuration
  pub requested_policy :
      parse_snapshot codec draft.resource.requested_policy.bytes ≡ ok parsed.requested_policy
  pub input : parse_snapshot codec draft.input.bytes ≡ ok parsed.input
  pub task_configuration :
      parse_snapshot codec draft.configuration.bytes ≡ ok parsed.task_configuration
  pub policy : parse_snapshot codec draft.policy.bytes ≡ ok parsed.policy

pub parse_snapshots-total :
    (codec : Codec) (draft : TaskDraft)
    → All (Parses codec) (draft_snapshots draft)
    → (parsed : Parsed) × (parse_snapshots codec draft ≡ ok parsed) × AllParsed codec draft parsed
unfolding parse_snapshots
parse_snapshots-total codec draft ((c, hc), ((r, hr), ((i, hi), ((t, ht), ((p, hp), u))))) = (
  record { configuration = c; requested_policy = r; input = i; task_configuration = t; policy = p },
  rw hc (rw hr (rw hi (rw ht (rw hp)))),
  record {
    configuration = hc;
    requested_policy = hr;
    input = hi;
    task_configuration = ht;
    policy = hp;
  },
)

pub copy_task-canonical :
    (codec : Codec) (t : Task)
    → IsCanonical codec t.input
    → IsCanonical codec t.configuration
    → IsCanonical codec t.policy
    → copy_task codec t ≡ ok t
unfolding copy_task
copy_task-canonical codec t i c p = rw i (rw c (rw p))
