-- ===== src/Sqlite/Outcome.antt =====
-- What `CreateTask` of internal/store/sqlite/store.go does when it succeeds, and when it fails.
use delegatd.Prelude.{
  ◌≡◌, refl, ap, ◌∙◌, subst, true, Option, GoString, ◌==◌, Result, ok, err, GoError, All, >>=-eq-ok,
  Bool-cases, inl, inr,
}
use delegatd.Domain.Id.{parse_resource_id, parse_task_id}
use delegatd.Domain.Json.{Codec}
use delegatd.Domain.Task.{TaskDraft, Task}
use delegatd.Memory.{guard, resource_ok, draft_snapshots, metadata_ok, check_snapshots}
use delegatd.Memory.Snapshots.{guard-true, Parses, check_snapshots-Parses, same_task_id}
use delegatd.Sqlite.Engine.{Engine, IsEngine}
use delegatd.Sqlite.Draft.{validate_task_draft, TimeText, is_ok}
use delegatd.Sqlite.Create.{
  Access, can_write, snapshot_of, write_task, returned_task, committed, finish, transacted,
  validated, create_task,
}
use delegatd.Sqlite.Effect.{Writes, write_task-Writes}

-- What `validateTaskDraft` asks of a draft, as far as the store goes on to use it.
pub record IsGoodDraft (codec : Codec) (draft : TaskDraft) : Type 0 where
  pub good_id : parse_task_id draft.id ≡ ok draft.id
  pub good_metadata : metadata_ok draft ≡ true
  pub good_candidate : is_ok (parse_resource_id draft.resource.candidate_id) ≡ true
  pub good_resource : resource_ok draft.resource ≡ true
  pub good_snapshots : All (Parses codec) (draft_snapshots draft)

validate_task_draft-IsGoodDraft :
    (codec : Codec) (draft : TaskDraft) {u : Unit {0}}
    → validate_task_draft codec draft ≡ ok u
    → IsGoodDraft codec draft
unfolding validate_task_draft
validate_task_draft-IsGoodDraft codec draft h =
    let (id, hid, h1) = >>=-eq-ok (parse_task_id draft.id) _ h in
    let (u1, hmeta, h2) = >>=-eq-ok (guard (metadata_ok draft) _) _ h1 in
    let (rid, hrid, h3) = >>=-eq-ok (parse_resource_id draft.resource.candidate_id) _ h2 in
    let (u2, hres, h4) = >>=-eq-ok (guard (resource_ok draft.resource) _) _ h3 in
    let (u3, hconf, h5) =
      >>=-eq-ok (guard (draft.resource.configuration.bytes == draft.configuration.bytes) _) _ h4 in
    let (u4, hsnap, hhist) = >>=-eq-ok (check_snapshots codec (draft_snapshots draft)) _ h5 in
    record {
      good_id = same_task_id draft.id hid;
      good_metadata = guard-true (metadata_ok draft) _ hmeta;
      good_candidate = ap is_ok hrid;
      good_resource = guard-true (resource_ok draft.resource) _ hres;
      good_snapshots = check_snapshots-Parses codec (draft_snapshots draft) hsnap;
    }

module _ (codec : Codec) (times : TimeText) (engine : Engine) (laws : IsEngine engine)
    (ctx : Option GoError) (draft : TaskDraft) where
  -- No call of `mustSnapshot` panics on a draft that was accepted.
  returned_task-total :
      (id : GoString)
      → All (Parses codec) (draft_snapshots draft)
      → (task : Task) × (returned_task codec times engine ctx draft id ≡ ok task)
  unfolding returned_task
  returned_task-total id ((c, hc), ((r, hr), ((i, hi), ((t, ht), ((p, hp), u))))) = (
    record {
      id = draft.id;
      status = draft.status;
      created_at = draft.created_at;
      resource = snapshot_of codec times engine ctx draft id;
      input = i;
      configuration = t;
      policy = p;
    },
    rw hi (rw ht (rw hp)),
  )

  -- A submission that succeeded.
  pub record Committed (d : engine.Database) (task : Task) (d' : engine.Database) : Type 0 where
    pub start : engine.Transaction
    pub out : GoString × engine.Transaction
    pub good : IsGoodDraft codec draft
    pub started : engine.begin ctx d ≡ ok start
    pub writes : Writes codec times engine laws ctx draft start out
    pub returned : returned_task codec times engine ctx draft out.0 ≡ ok task
    pub holds : laws.content d' ≡ laws.inside out.1

  -- What a call leaves behind.
  Leaves : engine.Database → Result Task × engine.Database → Type 0
  Leaves d (ok task, d') = Committed d task d'
  Leaves d (err e, d') = d' ≡ d

  committed-Leaves :
      (d : engine.Database) (t : engine.Transaction) (out : GoString × engine.Transaction)
      → IsGoodDraft codec draft
      → engine.begin ctx d ≡ ok t
      → Writes codec times engine laws ctx draft t out
      → (made : Result (Unit {0}) × engine.Database) → engine.commit out.1 ≡ made
      → Leaves d (committed codec times engine ctx draft out.0 made)
  unfolding Leaves committed
  committed-Leaves d t out good begun w (ok u, d') h =
      let (task, returned) = returned_task-total out.0 good.good_snapshots in
      rw returned (record {
        start = t;
        out = out;
        good = good;
        started = begun;
        writes = w;
        returned = returned;
        holds = laws.commit-content h;
      })
  committed-Leaves d t out good begun w (err e, d') h =
      laws.commit-base h ∙ w.based ∙ (laws.begin-inside begun).0

  finish-Leaves :
      (d : engine.Database) (t : engine.Transaction) (r : Result (GoString × engine.Transaction))
      → IsGoodDraft codec draft
      → engine.begin ctx d ≡ ok t
      → write_task codec times engine ctx draft t ≡ r
      → Leaves d (finish codec times engine ctx draft t r)
  unfolding Leaves finish
  finish-Leaves d t (err e) good begun h = laws.rollback-base t ∙ (laws.begin-inside begun).0
  finish-Leaves d t (ok out) good begun h =
      committed-Leaves d t out good begun
        (write_task-Writes codec times engine laws ctx draft t out h) (engine.commit out.1) refl

  transacted-Leaves :
      (d : engine.Database) (r : Result engine.Transaction)
      → IsGoodDraft codec draft
      → engine.begin ctx d ≡ r
      → Leaves d (transacted codec times engine ctx draft d r)
  unfolding Leaves transacted
  transacted-Leaves d (err e) good h = refl
  transacted-Leaves d (ok t) good h = finish-Leaves d t _ good h refl

  validated-Leaves :
      (d : engine.Database) (r : Result (Unit {0}))
      → validate_task_draft codec draft ≡ r
      → Leaves d (validated codec times engine ctx draft d r)
  unfolding Leaves validated
  validated-Leaves d (err e) h = refl
  validated-Leaves d (ok u) h =
      transacted-Leaves d _ (validate_task_draft-IsGoodDraft codec draft h) refl

  create_task-Leaves :
      (access : Access) (d : engine.Database)
      → Leaves d (create_task codec times engine ctx draft access d)
  unfolding Leaves create_task
  create_task-Leaves access d = elim (Bool-cases (can_write access)) [
    | inl e ↦ rw e (validated-Leaves d _ refl)
    | inr e ↦ rw e refl
  ]

  pub create_task-Committed :
      (access : Access) (d d' : engine.Database) (task : Task)
      → create_task codec times engine ctx draft access d ≡ (ok task, d')
      → Committed d task d'
  unfolding Leaves
  create_task-Committed access d d' task h = subst (Leaves d) h (create_task-Leaves access d)

  -- A call of `CreateTask` that returns an error leaves the database as it was, for any engine that
  -- keeps to `IsEngine`.
  pub create_task-rolled_back :
      (access : Access) (d d' : engine.Database) (e : GoError)
      → create_task codec times engine ctx draft access d ≡ (err e, d')
      → d' ≡ d
  unfolding Leaves
  create_task-rolled_back access d d' e h = subst (Leaves d) h (create_task-Leaves access d)
