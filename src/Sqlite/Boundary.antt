-- ===== src/Sqlite/Boundary.antt =====
-- The SQLite store behind the boundary of the task service.
use delegatd.Prelude.{refl}
use delegatd.Domain.Json.{Codec}
use delegatd.Control.Store.{TaskStore, IsTaskStore}
use delegatd.Sqlite.Engine.{Engine, IsEngine}
use delegatd.Sqlite.Draft.{TimeText}
use delegatd.Sqlite.Create.{writable, create_task}
use delegatd.Sqlite.Read.{ResourceReader, task}
use delegatd.Sqlite.Outcome.{create_task-rolled_back}
use delegatd.Sqlite.Laws.{ReadsBack, Storable, task-create_task, own_id}

module _ (codec : Codec) (times : TimeText) (reader : ResourceReader) (engine : Engine) where
  -- The store, opened for writing.
  abbrev pub sqlite_store : TaskStore
  sqlite_store = record {
    State = engine.Database;
    create_task = λ ctx draft. create_task codec times engine ctx draft writable;
    task = λ ctx id. task codec times reader engine ctx writable id;
  }

  -- Under the laws of the database, and of a JSON decoder that reads back what was written, the
  -- SQLite store keeps what the task service relies on, of the tasks that its columns can hold: a
  -- failed `CreateTask` changes nothing, and a created task has the id of its draft and is read back
  -- by it.
  pub sqlite_store-IsTaskStore :
      IsEngine engine → ReadsBack codec reader → IsTaskStore sqlite_store (Storable times)
  sqlite_store-IsTaskStore laws reads = record {
    atomic = λ ctx draft. create_task-rolled_back codec times engine laws ctx draft writable;
    own_id = λ ctx draft. own_id codec times engine laws ctx draft writable;
    read_back = λ ctx draft d d' t h storable.
        task-create_task codec times engine laws ctx draft reader writable writable d d' t reads h
          storable refl;
  }
