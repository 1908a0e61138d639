-- ===== src/Memory/Laws.antt =====
-- What a successful `CreateTask` changes, and what `Task` and `History` then return.
use delegatd.Prelude.{
  ◌≡◌, ◌≢◌, refl, ap, sym, ◌∙◌, subst, inl, inr, [], ◌∷◌, GoString, lookup, lookup-insert_self,
  lookup-insert_ne, Option, none, some, ok, GoError, ok_injective,
}
use delegatd.Domain.Json.{Codec, IsCodec}
use delegatd.Domain.Snapshot.{IsCanonical, parse_snapshot-IsCanonical}
use delegatd.Domain.Task.{TaskDraft, Task}
use delegatd.Memory.{
  Resource, Store, Parsed, stored_resource, created_task, written, create_task, task, task_history,
}
use delegatd.Memory.Snapshots.{IsValidDraft, copy_task-canonical}
use delegatd.Memory.Outcome.{Admits, first, second, create_parsed-cases}

-- A successful call: the store was there, and the writes are those of one task.
pub record Success (codec : Codec) (draft : TaskDraft) (t : Task) (h h' : Option Store)
    : Type 0 where
  pub before : Store
  pub parsed : Parsed
  pub resource : Resource
  pub started : h ≡ some before
  pub kept :
      stored_resource draft parsed (lookup draft.resource.name before.resources) ≡ ok resource
  pub returned : t ≡ created_task draft parsed resource
  pub left : h' ≡ some (written draft parsed resource before)
  pub valid : IsValidDraft codec draft
  pub admitted : Admits draft before
  pub parsed_input : IsCanonical codec parsed.input
  pub input : IsCanonical codec t.input
  pub configuration : IsCanonical codec t.configuration
  pub policy : IsCanonical codec t.policy

history-written_self :
    (draft : TaskDraft) (parsed : Parsed) (r : Resource) (s : Store)
    → task_history draft.id (some (written draft parsed r s)) ≡ draft.initial_history ∷ []
unfolding task_history
history-written_self draft parsed r s =
    rw (lookup-insert_self draft.id (draft.initial_history ∷ []) s.history)

history-written :
    (id : GoString) (draft : TaskDraft) (parsed : Parsed) (r : Resource) (s : Store)
    → id ≢ draft.id
    → task_history id (some (written draft parsed r s)) ≡ task_history id (some s)
unfolding task_history
history-written id draft parsed r s ne =
    rw (lookup-insert_ne draft.id id (draft.initial_history ∷ []) s.history ne)

pub task-written :
    (codec : Codec) (c : Option GoError) (id : GoString) (draft : TaskDraft) (parsed : Parsed)
    (r : Resource) (s : Store)
    → id ≢ draft.id
    → task codec c id (some (written draft parsed r s)) ≡ task codec c id (some s)
unfolding task
task-written codec (some e) id draft parsed r s ne = refl
task-written codec none id draft parsed r s ne =
    rw (lookup-insert_ne draft.id id (created_task draft parsed r) s.tasks ne)

module _ (codec : Codec) (laws : IsCodec codec) where
  pub create_task-Success :
      (ctx : Option GoError) (draft : TaskDraft) (h h' : Option Store) (t : Task)
      → create_task codec ctx draft h ≡ (ok t, h')
      → Success codec draft t h h'
  unfolding create_task
  create_task-Success (some x) draft h h' t e = cc
  create_task-Success none draft none h' t e = cc
  create_task-Success none draft (some s) h' t e = elim (create_parsed-cases codec laws draft s) [
    | inl (x, rejected) ↦ cc (ap first e, ap first rejected)
    | inr st ↦
        let same : created_task draft st.parsed st.resource ≡ t =
          ok_injective (sym (ap first st.result) ∙ ap first e) in
        let a = st.all_parsed in
        record {
          before = s;
          parsed = st.parsed;
          resource = st.resource;
          started = refl;
          kept = st.kept;
          returned = sym same;
          left = sym (ap second e) ∙ ap (λ o. some (second o)) st.result;
          valid = st.valid;
          admitted = st.admitted;
          parsed_input = parse_snapshot-IsCanonical codec laws _ st.parsed.input a.input;
          input =
              subst (λ (u : Task). IsCanonical codec u.input) same
                (parse_snapshot-IsCanonical codec laws _ st.parsed.input a.input);
          configuration =
              subst (λ (u : Task). IsCanonical codec u.configuration) same
                (parse_snapshot-IsCanonical codec laws _ st.parsed.task_configuration
                  a.task_configuration);
          policy =
              subst (λ (u : Task). IsCanonical codec u.policy) same
                (parse_snapshot-IsCanonical codec laws _ st.parsed.policy a.policy);
        }
  ]

  -- Under the laws of the JSON codec: after a successful `CreateTask`, `Task` with the task's id
  -- returns the task that was returned.
  pub task-create_task :
      (ctx : Option GoError) (draft : TaskDraft) (h h' : Option Store) (t : Task)
      → create_task codec ctx draft h ≡ (ok t, h')
      → task codec none draft.id h' ≡ ok t
  unfolding task
  task-create_task ctx draft h h' t e =
      let st = create_task-Success ctx draft h h' t e in
      rw st.left (
        rw (lookup-insert_self draft.id (created_task draft st.parsed st.resource) st.before.tasks)
          (rw (← st.returned) (copy_task-canonical codec t st.input st.configuration st.policy)))

  -- Under the laws of the JSON codec, a successful `CreateTask` changes what `Task` and `History`
  -- return for its own id alone; for that id the history is the initial entry.
  pub create_task-frame :
      (ctx : Option GoError) (draft : TaskDraft) (h h' : Option Store) (t : Task)
      → create_task codec ctx draft h ≡ (ok t, h')
      → (task_history draft.id h' ≡ draft.initial_history ∷ [])
        × ((c : Option GoError) (id : GoString)
            → id ≢ draft.id
            → (task codec c id h' ≡ task codec c id h) × (task_history id h' ≡ task_history id h))
  create_task-frame ctx draft h h' t e =
      let st = create_task-Success ctx draft h h' t e in
      let r = st.resource in
      (
        rw st.left (history-written_self draft st.parsed r st.before),
        λ c id ne. (
          rw st.left (rw st.started (task-written codec c id draft st.parsed r st.before ne)),
          rw st.left (rw st.started (history-written id draft st.parsed r st.before ne)),
        ),
      )
