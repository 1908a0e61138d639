-- ===== src/Sqlite/Engine.antt =====
-- The database behind internal/store/sqlite/store.go: the rows of its three tables, the statements
-- that the store executes, and what it relies on. The engine is a parameter.
use delegatd.Prelude.{
  ◌≡◌, ◌≢◌, Option, none, some, GoString, ◌==◌, Result, ok, err, GoError, ℤ, if◌then◌else◌,
}

pub record ResourceRow : Type 0 where
  pub id : GoString
  pub name : GoString
  pub kind : GoString
  pub connector_instance : GoString
  pub external_ref : GoString
  pub external_identity : GoString
  pub revision : GoString
  pub configuration_json : GoString
  pub policy_request_json : GoString
  pub onboarded_at : GoString
  pub updated_at : GoString

-- The columns that the UPDATE sets, and the id that it looks for.
pub record ResourceUpdate : Type 0 where
  pub kind : GoString
  pub external_ref : GoString
  pub revision : GoString
  pub configuration_json : GoString
  pub policy_request_json : GoString
  pub updated_at : GoString
  pub id : GoString

pub record TaskRow : Type 0 where
  pub id : GoString
  pub resource_id : GoString
  pub status : GoString
  pub resource_json : GoString
  pub input_json : GoString
  pub configuration_json : GoString
  pub policy_json : GoString
  pub created_at : GoString

pub record HistoryRow : Type 0 where
  pub task_id : GoString
  pub sequence : ℤ
  pub status : GoString
  pub occurred_at : GoString
  pub reason : GoString

-- The statements, on the database or within a transaction; the first argument is the error of the
-- context. A statement that fails changes nothing.
pub record Engine : Type 1 where
  pub Database : Type 0
  pub Transaction : Type 0
  pub begin : Option GoError → Database → Result Transaction
  pub commit : Transaction → Result (Unit {0}) × Database
  pub rollback : Transaction → Database
  pub resource_by_name : Option GoError → GoString → Transaction → Result (Option ResourceRow)
  pub owner_of : Option GoError → GoString → GoString → Transaction → Result (Option GoString)
  pub insert_resource : Option GoError → ResourceRow → Transaction → Result Transaction
  pub update_resource : Option GoError → ResourceUpdate → Transaction → Result Transaction
  pub insert_task : Option GoError → TaskRow → Transaction → Result Transaction
  pub insert_history : Option GoError → HistoryRow → Transaction → Result Transaction
  pub task_by_id : Option GoError → GoString → Database → Result (Option TaskRow)

-- What the tables hold: a resource by its name, a task by its id, a history entry by its key.
pub record Tables : Type 0 where
  pub resources : GoString → Option ResourceRow
  pub tasks : GoString → Option TaskRow
  pub history : GoString → ℤ → Option HistoryRow

abbrev pub updated_row : ResourceUpdate → ResourceRow → ResourceRow
updated_row u r =
    if r.id == u.id
    then record r {
      kind = u.kind;
      external_ref = u.external_ref;
      revision = u.revision;
      configuration_json = u.configuration_json;
      policy_request_json = u.policy_request_json;
      updated_at = u.updated_at;
    }
    else r

abbrev pub updated : ResourceUpdate → Option ResourceRow → Option ResourceRow
updated u none = none
updated u (some r) = some (updated_row u r)

-- What the store relies on. `content` and `inside` are what the tables hold, in the database and as
-- the transaction sees them; `base` is the database that the transaction began on.
pub record IsEngine (e : Engine) : Type 0 where
  pub content : e.Database → Tables
  pub inside : e.Transaction → Tables
  pub base : e.Transaction → e.Database
  pub begin-inside :
      {ctx : Option GoError} {d : e.Database} {t : e.Transaction}
      → e.begin ctx d ≡ ok t
      → (base t ≡ d) × (inside t ≡ content d)
  pub rollback-base : (t : e.Transaction) → e.rollback t ≡ base t
  pub commit-content :
      {t : e.Transaction} {u : Unit {0}} {d : e.Database}
      → e.commit t ≡ (ok u, d)
      → content d ≡ inside t
  pub commit-base :
      {t : e.Transaction} {x : GoError} {d : e.Database} → e.commit t ≡ (err x, d) → d ≡ base t
  pub found_by_name :
      {ctx : Option GoError} {n : GoString} {t : e.Transaction} {o : Option ResourceRow}
      → e.resource_by_name ctx n t ≡ ok o
      → ((inside t).resources n ≡ o) × ((r : ResourceRow) → o ≡ some r → r.name ≡ n)
  pub no_owner :
      {ctx : Option GoError} {c i : GoString} {t : e.Transaction}
      → e.owner_of ctx c i t ≡ ok none
      → {n : GoString} {r : ResourceRow} → (inside t).resources n ≡ some r
      → r.connector_instance ≡ c
      → r.external_identity ≢ i
  -- PRIMARY KEY (id), UNIQUE (name) and UNIQUE (connector_instance, external_identity)
  pub insert_resource-inside :
      {ctx : Option GoError} {row : ResourceRow} {t t' : e.Transaction}
      → e.insert_resource ctx row t ≡ ok t'
      → (base t' ≡ base t)
        × ((inside t).resources row.name ≡ none)
        × ((n : GoString)
            → (inside t').resources n
              ≡ (if row.name == n then some row else (inside t).resources n))
        × ((inside t').tasks ≡ (inside t).tasks)
        × ((inside t').history ≡ (inside t).history)
  pub update_resource-inside :
      {ctx : Option GoError} {u : ResourceUpdate} {t t' : e.Transaction}
      → e.update_resource ctx u t ≡ ok t'
      → (base t' ≡ base t)
        × ((n : GoString) → (inside t').resources n ≡ updated u ((inside t).resources n))
        × ((inside t').tasks ≡ (inside t).tasks)
        × ((inside t').history ≡ (inside t).history)
  -- PRIMARY KEY (id)
  pub insert_task-inside :
      {ctx : Option GoError} {row : TaskRow} {t t' : e.Transaction}
      → e.insert_task ctx row t ≡ ok t'
      → (base t' ≡ base t)
        × ((inside t).tasks row.id ≡ none)
        × ((k : GoString)
            → (inside t').tasks k ≡ (if row.id == k then some row else (inside t).tasks k))
        × ((inside t').resources ≡ (inside t).resources)
        × ((inside t').history ≡ (inside t).history)
  pub insert_history-inside :
      {ctx : Option GoError} {row : HistoryRow} {t t' : e.Transaction}
      → e.insert_history ctx row t ≡ ok t'
      → (base t' ≡ base t)
        × ((inside t').history row.task_id row.sequence ≡ some row)
        × ((k : GoString) (n : ℤ)
            → k ≢ row.task_id
            → (inside t').history k n ≡ (inside t).history k n)
        × ((inside t').resources ≡ (inside t).resources)
        × ((inside t').tasks ≡ (inside t).tasks)
  -- Reading under a live context finds what is there.
  pub task_by_id-content :
      (k : GoString) (d : e.Database) → e.task_by_id none k d ≡ ok ((content d).tasks k)
