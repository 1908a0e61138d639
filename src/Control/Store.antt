-- ===== src/Control/Store.antt =====
-- `TaskStore` of internal/control/task.go: the boundary between the task service and a store, and
-- what the service relies on. The in-memory store stays within it.
use delegatd.Prelude.{◌≡◌, refl, Option, none, GoString, Result, ok, err, GoError}
use delegatd.Domain.Json.{Codec, IsCodec}
use delegatd.Domain.Task.{TaskDraft, Task}
use delegatd.Memory.{Store, create_task, task}
use delegatd.Memory.Outcome.{create_task-atomic}
use delegatd.Memory.Laws.{create_task-Success, task-create_task}

-- The methods take the state behind the store; the first argument is the error of the context when
-- the method is entered.
pub record TaskStore : Type 1 where
  pub State : Type 0
  pub create_task : Option GoError → TaskDraft → State → Result Task × State
  pub task : Option GoError → GoString → State → Result Task

-- A failed creation changes nothing; a task that was created has the id of its draft, and is read
-- back by it if it is `Storable`: of those that the store can hold as they are.
pub record IsTaskStore (store : TaskStore) (Storable : Task → Type 0) : Type 0 where
  pub atomic :
      (ctx : Option GoError) (draft : TaskDraft) (s s' : store.State) (e : GoError)
      → store.create_task ctx draft s ≡ (err e, s')
      → s' ≡ s
  pub own_id :
      (ctx : Option GoError) (draft : TaskDraft) (s s' : store.State) (t : Task)
      → store.create_task ctx draft s ≡ (ok t, s')
      → t.id ≡ draft.id
  pub read_back :
      (ctx : Option GoError) (draft : TaskDraft) (s s' : store.State) (t : Task)
      → store.create_task ctx draft s ≡ (ok t, s')
      → Storable t
      → store.task none draft.id s' ≡ ok t

-- The in-memory store behind its pointer.
abbrev pub memory_store : Codec → TaskStore
memory_store codec = record {
  State = Option Store;
  create_task = create_task codec;
  task = task codec;
}

abbrev pub AnyTask : Task → Type 0
AnyTask t = Unit

-- Under the laws of the JSON codec, the in-memory store keeps what the task service relies on, of
-- any task: a failed `CreateTask` changes nothing, and a created task has the id of its draft and is
-- read back by it.
pub memory_store-IsTaskStore :
    (codec : Codec) → IsCodec codec → IsTaskStore (memory_store codec) AnyTask
memory_store-IsTaskStore codec laws = record {
  atomic = create_task-atomic codec laws;
  own_id = λ ctx draft s s' t h.
      let st = create_task-Success codec laws ctx draft s s' t h in rw st.returned refl;
  read_back = λ ctx draft s s' t h storable. task-create_task codec laws ctx draft s s' t h;
}
