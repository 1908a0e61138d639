-- ===== src/Control/Show.antt =====
-- `Show` of internal/control/task.go, and what the task service promises over any store that keeps
-- to `IsTaskStore`.
use delegatd.Prelude.{
  ◌≡◌, refl, ap, sym, subst, true, GoString, codes, Option, none, some, Result, ok, err, GoError,
  plain, ◌>>=◌, if◌then◌else◌,
}
use delegatd.Domain.Id.{parse_task_id}
use delegatd.Domain.Input.{TaskInput}
use delegatd.Domain.Json.{Codec}
use delegatd.Domain.Task.{PolicyRequest, RepositoryMaterial, TaskDraft, Task}
use delegatd.Control.Failure.{new_failure, failure_from_cause}
use delegatd.Control.Store.{TaskStore, IsTaskStore}
use delegatd.Control.Submit.{
  Context, TaskService, cancelled, attempt, prepare, answered, store_draft,
  submit_manual_repository,
}
use delegatd.Control.Draft.{prepare-task_id}

abbrev pub store_ready : Option TaskService → Result (Unit {0})
store_ready none = err (
    new_failure (codes "state store is unavailable") (plain (codes "task store is not configured")))
store_ready (some service) =
    if service.has_store
    then ok tt
    else err (
        new_failure (codes "state store is unavailable")
          (plain (codes "task store is not configured")))

-- `failureFromCause` of the error of a result
abbrev pub explained {ℓ} : {A : Type ℓ} → Option GoError → Result A → Result A
explained ctx (ok a) = ok a
explained ctx (err e) = err (failure_from_cause ctx e)

-- `Show`
unfoldable pub show :
    (store : TaskStore) → Context → Option TaskService → GoString → store.State → Result Task
show store ctx service id s = do
  _ ← cancelled ctx.at_entry
  _ ← store_ready service
  _ ← attempt (codes "task not found") (parse_task_id id)
  explained ctx.after_store (store.task ctx.at_store id s)

-- A context without an error, at every point.
abbrev pub live : Context
live = record { at_entry = none; after_source = none; at_store = none; after_store = none }

answered-ok {ℓ} :
    {S : Type ℓ} (ctx : Option GoError) (out : Result Task × S) {t : Task} {s' : S}
    → answered ctx out ≡ (ok t, s')
    → out ≡ (ok t, s')
unfolding answered
answered-ok ctx (ok t, s) h = h
answered-ok ctx (err e, s) h = cc (ap (λ o. o.0) h)

answered-err {ℓ} :
    {S : Type ℓ} (ctx : Option GoError) (out : Result Task × S) {e : GoError} {s' : S}
    → answered ctx out ≡ (err e, s')
    → (cause : GoError) × (out ≡ (err cause, s'))
unfolding answered
answered-err ctx (ok t, s) h = cc (ap (λ o. o.0) h)
answered-err ctx (err e, s) h = (e, ap (λ x. (err e, x)) (ap (λ o. o.1) h))

show-live :
    (store : TaskStore) (reader : TaskService) (id : GoString) (s : store.State) (t : Task)
    → reader.has_store ≡ true
    → parse_task_id id ≡ ok id
    → store.task none id s ≡ ok t
    → show store live (some reader) id s ≡ ok t
unfolding show
show-live store reader id s t ready good there = rw ready (rw good (rw there))

module _ (store : TaskStore) (Storable : Task → Type 0) (laws : IsTaskStore store Storable)
    (codec : Codec) where
  stored-ok :
      (ctx : Context) (r : Result TaskDraft) (s s' : store.State) (t : Task)
      → store_draft store ctx r s ≡ (ok t, s')
      → (draft : TaskDraft) × (r ≡ ok draft) × (store.create_task ctx.at_store draft s ≡ (ok t, s'))
  unfolding store_draft
  stored-ok ctx (err e) s s' t h = cc (ap (λ o. o.0) h)
  stored-ok ctx (ok draft) s s' t h =
      (draft, refl, answered-ok ctx.after_store (store.create_task ctx.at_store draft s) h)

  stored-err :
      (ctx : Context) (r : Result TaskDraft) (s s' : store.State) (e : GoError)
      → store_draft store ctx r s ≡ (err e, s')
      → s' ≡ s
  unfolding store_draft
  stored-err ctx (err x) s s' e h = sym (ap (λ o. o.1) h)
  stored-err ctx (ok draft) s s' e h =
      let (cause, q) = answered-err ctx.after_store (store.create_task ctx.at_store draft s) h in
      laws.atomic ctx.at_store draft s s' cause q

  module _ (ctx : Context) (service : Option TaskService) (name connector : GoString)
      (input : TaskInput) (operator : PolicyRequest) (source : Option (Result RepositoryMaterial))
      (s s' : store.State) where
    -- A submission that fails leaves the store as it was, for any store that keeps to
    -- `IsTaskStore`.
    pub submit_manual_repository-atomic :
        (e : GoError)
        → submit_manual_repository codec store ctx service name connector input operator source s
          ≡ (err e, s')
        → s' ≡ s
    unfolding submit_manual_repository
    submit_manual_repository-atomic e h =
        stored-err ctx (prepare codec ctx service name connector input operator source) s s' e h

    -- A task that was submitted, and is of those that the store can hold, is shown by its id, as it
    -- was returned, to a service that has the store, in a live context; the store keeps to
    -- `IsTaskStore`.
    pub show-submit_manual_repository :
        (t : Task) (reader : TaskService)
        → reader.has_store ≡ true
        → submit_manual_repository codec store ctx service name connector input operator source s
          ≡ (ok t, s')
        → Storable t
        → show store live (some reader) t.id s' ≡ ok t
    unfolding submit_manual_repository
    show-submit_manual_repository t reader ready h storable =
        let r = prepare codec ctx service name connector input operator source in
        let (draft, prepared, created) = stored-ok ctx r s s' t h in
        let own = laws.own_id ctx.at_store draft s s' t created in
        show-live store reader t.id s' t ready
          (rw own
            (prepare-task_id codec ctx service name connector input operator source draft prepared))
          (subst (λ id. store.task none id s' ≡ ok t) (sym own)
            (laws.read_back ctx.at_store draft s s' t created storable))
