-- ===== src/Sqlite/Laws.antt =====
-- What the SQLite store's `CreateTask` records, and what its `Task` then returns.
use delegatd.Prelude.{
  ◌≡◌, ◌≢◌, refl, ap, sym, ◌∙◌, subst, true, false, Option, none, some, GoString, ℤ, ◌==◌, eq_iff,
  eq_refl, arith, Result, ok, err, GoError, ok_injective, >>=-eq-ok,
}
use delegatd.Domain.Utf8.{utf8_valid}
use delegatd.Domain.Id.{parse_resource_id}
use delegatd.Domain.Json.{Codec}
use delegatd.Domain.Time.{is_utc}
use delegatd.Domain.Snapshot.{Snapshot, parse_snapshot, new_snapshot}
use delegatd.Domain.Task.{TaskDraft, Task, ResourceSnapshot, pending}
use delegatd.Config.Yaml.{value, at_end}
use delegatd.Sqlite.Engine.{Engine, IsEngine, Tables, TaskRow, HistoryRow}
use delegatd.Sqlite.Draft.{
  TimeText, format_time, parse_stored_time, decode_resource_snapshot, stored_resource_ok,
  resource_json, is_ok,
}
use delegatd.Sqlite.Create.{
  Access, must, snapshot_of, task_row, history_row, returned_task, create_task,
}
use delegatd.Sqlite.Read.{ResourceReader, task, task_of, task_of_row, is_open}
use delegatd.Sqlite.Effect.{Keeps}
use delegatd.Sqlite.Outcome.{IsGoodDraft, create_task-Committed}

-- The strings of the snapshot are UTF-8, which is what JSON can carry.
pub record IsText (r : ResourceSnapshot) : Type 0 where
  pub name : utf8_valid r.name ≡ true
  pub kind : utf8_valid r.kind ≡ true
  pub connector : utf8_valid r.connector ≡ true
  pub revision : utf8_valid r.revision ≡ true

-- `encoding/json` reads back what it wrote, of a resource whose strings are UTF-8.
abbrev pub ReadsBack : Codec → ResourceReader → Type 0
ReadsBack codec reader =
    (r : ResourceSnapshot) (s : Snapshot)
    → IsText r
    → stored_resource_ok r ≡ true
    → new_snapshot codec (resource_json r) ≡ ok s
    → reader s.bytes ≡ value r at_end

-- A task that the columns can hold: its time survives the layout, which has the years 0 to 9999,
-- and its resource's strings survive JSON.
pub record Storable (times : TimeText) (t : Task) : Type 0 where
  pub time : times.parse (format_time times t.created_at) ≡ ok t.created_at
  pub strings : IsText t.resource

-- A row of the table of tasks that holds a task: its strings as they are, its resource and its time
-- as texts.
pub record HoldsTask (codec : Codec) (times : TimeText) (row : TaskRow) (t : Task) : Type 0 where
  pub id : row.id ≡ t.id
  pub resource_id : row.resource_id ≡ t.resource.id
  pub status : row.status ≡ t.status
  pub resource :
      (json : Snapshot) × (new_snapshot codec (resource_json t.resource) ≡ ok json)
      × (row.resource_json ≡ json.bytes)
  pub input : parse_snapshot codec row.input_json ≡ ok t.input
  pub configuration : parse_snapshot codec row.configuration_json ≡ ok t.configuration
  pub policy : parse_snapshot codec row.policy_json ≡ ok t.policy
  pub created_at : row.created_at ≡ format_time times t.created_at

-- A row of the history that holds the first entry of a draft.
pub record HoldsEntry (times : TimeText) (row : HistoryRow) (draft : TaskDraft) : Type 0 where
  pub task_id : row.task_id ≡ draft.id
  pub sequence : row.sequence ≡ draft.initial_history.sequence
  pub status : row.status ≡ draft.initial_history.status
  pub occurred_at : row.occurred_at ≡ format_time times draft.initial_history.occurred_at
  pub reason : row.reason ≡ draft.initial_history.reason

eq_ne : (j k : GoString) → k ≢ j → (j == k) ≡ false
eq_ne j k other = ground (arith, eq_iff j k)

must-ok {ℓ} : {A : Type ℓ} (m : Result A) {a : A} → must m ≡ ok a → m ≡ ok a
must-ok (ok a) h = h
must-ok (err e) h = cc

module _ (codec : Codec) (times : TimeText) (engine : Engine) (laws : IsEngine engine)
    (ctx : Option GoError) (draft : TaskDraft) where
  stored_resource_ok-snapshot_of :
      (id : GoString)
      → IsGoodDraft codec draft
      → is_ok (parse_resource_id id) ≡ true
      → stored_resource_ok (snapshot_of codec times engine ctx draft id) ≡ true
  unfolding stored_resource_ok
  stored_resource_ok-snapshot_of id good known = rw known (ground (arith, good.good_resource))

  pending_status : IsGoodDraft codec draft → (draft.status == pending) ≡ true
  pending_status good = ground (arith, good.good_metadata)

  stored_time :
      IsGoodDraft codec draft
      → times.parse (format_time times draft.created_at) ≡ ok draft.created_at
      → parse_stored_time times (format_time times draft.created_at) ≡ ok draft.created_at
  unfolding parse_stored_time
  stored_time good h =
      let at_utc : is_utc draft.created_at.location ≡ true = ground (arith, good.good_metadata) in
      rw h (rw at_utc)

  -- What a task row of the draft reads as.
  task_of_row-returned_task :
      (reader : ResourceReader) (id : GoString) (json : Snapshot) (t : Task)
      → ReadsBack codec reader
      → IsGoodDraft codec draft
      → is_ok (parse_resource_id id) ≡ true
      → new_snapshot codec (resource_json (snapshot_of codec times engine ctx draft id)) ≡ ok json
      → Storable times t
      → returned_task codec times engine ctx draft id ≡ ok t
      → task_of_row codec times reader draft.id (task_row codec times engine ctx draft id json)
        ≡ ok t
  unfolding task_of_row returned_task decode_resource_snapshot
  task_of_row-returned_task reader id json t reads good known encoded storable returned =
      let (i, hi, k1) = >>=-eq-ok (must (parse_snapshot codec draft.input.bytes)) _ returned in
      let (c, hc, k2) = >>=-eq-ok (must (parse_snapshot codec draft.configuration.bytes)) _ k1 in
      let (p, hp, k3) = >>=-eq-ok (must (parse_snapshot codec draft.policy.bytes)) _ k2 in
      let snapshot = snapshot_of codec times engine ctx draft id in
      let same_resource : t.resource ≡ snapshot =
        ap (λ (u : Task). u.resource) (sym (ok_injective k3)) in
      let same_time : t.created_at ≡ draft.created_at =
        ap (λ (u : Task). u.created_at) (sym (ok_injective k3)) in
      let whole = stored_resource_ok-snapshot_of id good known in
      rw (pending_status good) (
        rw (reads snapshot json (subst IsText same_resource storable.strings) whole encoded) (
          rw whole (
            rw
              (stored_time good
                (subst (λ u. times.parse (format_time times u) ≡ ok u) same_time storable.time))
              (rw (must-ok _ hi) (rw (must-ok _ hc) (rw (must-ok _ hp) k3))))))

  pub own_id :
      (access : Access) (d d' : engine.Database) (t : Task)
      → create_task codec times engine ctx draft access d ≡ (ok t, d')
      → t.id ≡ draft.id
  unfolding returned_task
  own_id access d d' t h =
      let done = create_task-Committed codec times engine laws ctx draft access d d' t h in
      let (i, hi, k1) = >>=-eq-ok (must (parse_snapshot codec draft.input.bytes)) _ done.returned in
      let (c, hc, k2) = >>=-eq-ok (must (parse_snapshot codec draft.configuration.bytes)) _ k1 in
      let (p, hp, k3) = >>=-eq-ok (must (parse_snapshot codec draft.policy.bytes)) _ k2 in
      ap (λ (u : Task). u.id) (sym (ok_injective k3))

  -- Under the laws of the database, and of a JSON decoder that reads back what was written: after a
  -- successful `CreateTask`, `Task` with the task's id returns the task that was returned, in a live
  -- context on an open store, if the task is one that the columns can hold.
  pub task-create_task :
      (reader : ResourceReader) (access later : Access) (d d' : engine.Database) (t : Task)
      → ReadsBack codec reader
      → create_task codec times engine ctx draft access d ≡ (ok t, d')
      → Storable times t
      → is_open later ≡ true
      → task codec times reader engine none later draft.id d' ≡ ok t
  unfolding task task_of
  task-create_task reader access later d d' t reads h storable opened =
      let done = create_task-Committed codec times engine laws ctx draft access d d' t h in
      let w = done.writes in
      let row = task_row codec times engine ctx draft done.out.0 w.json in
      let stored : (laws.content d').tasks draft.id ≡ some row =
        ap (λ (u : Tables). u.tasks draft.id) done.holds
        ∙ w.task_added draft.id
        ∙ rw (eq_refl draft.id) refl in
      rw opened (
        rw done.good.good_id (
          rw (laws.task_by_id-content draft.id d') (
            rw stored (
              task_of_row-returned_task reader done.out.0 w.json t reads done.good
                (w.good_id done.good.good_candidate) w.encoded storable done.returned))))

  -- The row of the draft holds the task that is returned.
  task_row-HoldsTask :
      (id : GoString) (json : Snapshot) (t : Task)
      → new_snapshot codec (resource_json (snapshot_of codec times engine ctx draft id)) ≡ ok json
      → returned_task codec times engine ctx draft id ≡ ok t
      → HoldsTask codec times (task_row codec times engine ctx draft id json) t
  unfolding returned_task
  task_row-HoldsTask id json t encoded returned =
      let (i, hi, k1) = >>=-eq-ok (must (parse_snapshot codec draft.input.bytes)) _ returned in
      let (c, hc, k2) = >>=-eq-ok (must (parse_snapshot codec draft.configuration.bytes)) _ k1 in
      let (p, hp, k3) = >>=-eq-ok (must (parse_snapshot codec draft.policy.bytes)) _ k2 in
      subst (HoldsTask codec times (task_row codec times engine ctx draft id json))
        (ok_injective k3)
        (record {
          id = refl;
          resource_id = refl;
          status = refl;
          resource = (json, encoded, refl);
          input = must-ok _ hi;
          configuration = must-ok _ hc;
          policy = must-ok _ hp;
          created_at = refl;
        })

  -- What a successful call did to the tables.
  pub record Recorded (before after : Tables) (t : Task) : Type 0 where
    pub new : before.tasks draft.id ≡ none
    pub there : (row : TaskRow) × (after.tasks draft.id ≡ some row) × HoldsTask codec times row t
    pub other_tasks : (k : GoString) → k ≢ draft.id → after.tasks k ≡ before.tasks k
    pub entry :
        (row : HistoryRow) × (after.history draft.id draft.initial_history.sequence ≡ some row)
        × HoldsEntry times row draft
    pub other_history :
        (k : GoString) (n : ℤ) → k ≢ draft.id → after.history k n ≡ before.history k n
    pub resources : Keeps before after

  -- Under the laws of the database, a successful `CreateTask` adds a row that holds the returned
  -- task, under an id that was not there, and the draft's initial history entry; it changes no other
  -- task and no history of another task; and every resource keeps its id, name, connector, external
  -- identity and onboarding time.
  pub create_task-effect :
      (access : Access) (d d' : engine.Database) (t : Task)
      → create_task codec times engine ctx draft access d ≡ (ok t, d')
      → Recorded (laws.content d) (laws.content d') t
  create_task-effect access d d' t h =
      let done = create_task-Committed codec times engine laws ctx draft access d d' t h in
      let w = done.writes in
      let begun : laws.inside done.start ≡ laws.content d = (laws.begin-inside done.started).1 in
      record {
        new = ap (λ (u : Tables). u.tasks draft.id) (sym begun) ∙ w.fresh;
        there = (
          _,
          ap (λ (u : Tables). u.tasks draft.id) done.holds
              ∙ w.task_added draft.id
              ∙ rw (eq_refl draft.id) refl,
          task_row-HoldsTask done.out.0 w.json t w.encoded done.returned,
        );
        other_tasks = λ k other.
            ap (λ (u : Tables). u.tasks k) done.holds
            ∙ w.task_added k
            ∙ rw (eq_ne draft.id k other) (ap (λ (u : Tables). u.tasks k) begun);
        entry = (
          history_row codec times engine ctx draft,
          ap (λ (u : Tables). u.history draft.id draft.initial_history.sequence) done.holds
              ∙ w.history_added,
          record {
            task_id = refl;
            sequence = refl;
            status = refl;
            occurred_at = refl;
            reason = refl;
          },
        );
        other_history = λ k n other.
            ap (λ (u : Tables). u.history k n) done.holds
            ∙ w.history_kept k n other
            ∙ ap (λ (u : Tables). u.history k n) begun;
        resources =
            subst (λ u. Keeps u (laws.content d')) begun
              (subst (Keeps (laws.inside done.start)) (sym done.holds) w.keeps);
      }
