-- ===== src/Bootstrap/Roundtrip.antt =====
-- A task that `submitTask` records is shown by `showTask`.
use delegatd.Prelude.{
  ◌≡◌, refl, ap, GoString, Option, none, some, some_injective, Result, ok, err, true,
}
use delegatd.Domain.Input.{TaskInput}
use delegatd.Domain.Json.{Codec}
use delegatd.Domain.Task.{RepositoryMaterial, Task}
use delegatd.Control.Store.{TaskStore, IsTaskStore}
use delegatd.Control.Submit.{Context, new_task_service}
use delegatd.Control.Show.{show, live, show-submit_manual_repository}
use delegatd.Config.Load.{YamlPackage, File, StoreDocument, load_store}
use delegatd.Bootstrap.{
  Adapters, Environment, Selected, submit_sourced, submit_opened, submit_selected, submit_task,
  select, select_store, show_task,
}

paired {ℓ κ} :
    {A : Type ℓ} {B : Type κ} (x : A × B) {a : A} {b : B} → x.0 ≡ a → x.1 ≡ b → x ≡ (a, b)
paired (x, y) p q = cc (p, q)

ready :
    (env : Environment) (ids : Option (GoString → GoString))
    → (new_task_service env.random env.clock true ids none).has_store ≡ true
unfolding new_task_service
ready env ids = refl

module _ (codec : Codec) (task_store : TaskStore) (Storable : Task → Type 0)
    (laws : IsTaskStore task_store Storable) (adapters : Adapters task_store)
    (yaml : YamlPackage) where
  -- The task can be shown on the state, by any service that `showTask` makes.
  abbrev Shown : Task → task_store.State → Type 0
  Shown t s =
      (env : Environment)
      → show task_store live (some (new_task_service env.random env.clock true none none)) t.id s
        ≡ ok t

  module _ (ctx : Context) (env : Environment) (resource_name : GoString) (input : TaskInput)
      (t : Task) (s' : task_store.State) (storable : Storable t) where
    sourced-Shown :
        (selected : Selected codec task_store adapters yaml ctx)
        (source : Result (Result RepositoryMaterial)) (s : task_store.State)
        → submit_sourced codec task_store adapters yaml ctx env resource_name input selected source
            s
          ≡ (ok t, some s')
        → Shown t s'
    unfolding submit_sourced
    sourced-Shown selected (err e) s h = cc (ap (λ o. o.0) h)
    sourced-Shown selected (ok source) s h = λ reader.
        show-submit_manual_repository task_store Storable laws codec ctx
          (some (new_task_service env.random env.clock true env.ids none)) resource_name
          selected.connector_name input selected.document.config.policy (some source) s s' t
          (new_task_service reader.random reader.clock true none none) (ready reader none)
          (paired _ (ap (λ o. o.0) h) (some_injective (ap (λ o. o.1) h))) storable

    opened-Shown :
        (selected : Selected codec task_store adapters yaml ctx) (r : Result task_store.State)
        → submit_opened codec task_store adapters yaml ctx env resource_name input selected r
          ≡ (ok t, some s')
        → Shown t s'
    unfolding submit_opened
    opened-Shown selected (err e) h = cc (ap (λ o. o.0) h)
    opened-Shown selected (ok s) h =
        sourced-Shown selected
          (adapters.new_repository_source selected.app selected.resource selected.document.dir) s h

    selected-Shown :
        (r : Result (Selected codec task_store adapters yaml ctx))
        → submit_selected codec task_store adapters yaml ctx env resource_name input r
          ≡ (ok t, some s')
        → Shown t s'
    unfolding submit_selected
    selected-Shown (err e) h = cc (ap (λ o. o.0) h)
    selected-Shown (ok selected) h =
        opened-Shown selected (adapters.open_store selected.store_config selected.document.dir) h

    -- When `submitTask` returns a task that the store can hold and leaves a state, `showTask` with the task's id returns
    -- that task, in a live context, if the store's configuration loads and is chosen, and opening
    -- the store for reading finds that state; the store keeps to `IsTaskStore`.
    pub show_task-submit_task :
        (reader : Environment) (file reader_file : File) (document : StoreDocument)
        (store_config : adapters.StoreConfig)
        → submit_task codec task_store adapters yaml ctx env file resource_name input
          ≡ (ok t, some s')
        → load_store yaml reader_file ≡ ok document
        → select_store codec task_store adapters yaml live document ≡ ok store_config
        → adapters.open_store_read_only store_config document.dir ≡ ok s'
        → show_task codec task_store adapters yaml live reader reader_file t.id ≡ ok t
    unfolding submit_task show_task
    show_task-submit_task reader file reader_file document store_config h l c o = rw l (
        rw c (
          rw o (
            selected-Shown (select codec task_store adapters yaml ctx file resource_name) h
              reader)))
