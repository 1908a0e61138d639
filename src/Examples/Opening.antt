-- ===== src/Examples/Opening.antt =====
-- Opening a new file of which the journal is rejected, and one that is accepted.
use delegatd.Prelude.{
  ◌≡◌, refl, true, false, List, [], ◌∷◌, ◌++◌, All, GoString, In, keys, codes, ◌==◌, contains_text,
  has_prefix, lookup, insert, none, pos, ok, err, GoError, plain,
}
use delegatd.Sqlite.Schema.{
  ObjectDefinition, current_schema_version, expected_tables, check_columns, validate_table_columns,
  check_table, check_objects, validate_schema, versioned, migrate,
}
use delegatd.Sqlite.Migration.{IsExpected}
use delegatd.Sqlite.Complete.{names_of}
use delegatd.Sqlite.Open.{
  Paths, Place, missing, FileEvent, created, prepare_database_file, Driver, require_delete_journal,
  migrated, open_database, opened, open_prepared, open_resolved, open_store, resolve_database_path,
}
use delegatd.Sqlite.Opened.{LeavesNothing, open_store-LeavesNothing, open_store-IsExpected}
use delegatd.Examples.Schema.{versions}

abbrev root : Paths
root = record { is_abs = λ path. true; join = λ dir path. dir ++ path; abs = λ path. ok path }

abbrev new_file : Place
new_file = record {
  windows = false;
  parent = ok true;
  stat = missing (plain (codes "file does not exist"));
  create = none;
  close = none;
}

abbrev driver : GoString → Driver versions
driver mode = record { open_error = none; ping = none; database = pos 1; journal = ok mode }

rejected :
    (e : GoError) × (events : List FileEvent) × (open_store versions []
        (driver (codes "wal"))
        (λ path. new_file)
        root
        (codes "/state.db")
        []
      ≡ (err e, events))
unfolding open_store resolve_database_path open_resolved prepare_database_file open_prepared
    open_database require_delete_journal opened ◌==◌
rejected = (_, _, refl)

open_store-LeavesNothing_example : LeavesNothing rejected.1
open_store-LeavesNothing_example =
    open_store-LeavesNothing versions [] (driver (codes "wal")) (λ path. new_file) root
      (codes "/state.db") [] rejected.0 rejected.1 rejected.2

returned :
    open_store versions [] (driver (codes "delete")) (λ path. new_file) root (codes "/state.db") []
    ≡ (ok (pos 1), created ∷ [])
unfolding open_store resolve_database_path open_resolved prepare_database_file open_prepared
    open_database require_delete_journal opened migrated migrate versioned validate_schema
    check_objects check_table validate_table_columns check_columns lookup insert ◌==◌ contains_text
    has_prefix
returned = refl

open_store-IsExpected_example :
    (versions.user_version (pos 1) ≡ ok current_schema_version)
    × ((os : List ObjectDefinition) × (versions.objects (pos 1) ≡ ok os)
        × All (IsExpected versions (pos 1)) os
        × ((k : GoString) → In k (keys expected_tables) → In k (names_of os)))
open_store-IsExpected_example =
    open_store-IsExpected versions [] (driver (codes "delete")) (λ path. new_file) root
      (codes "/state.db") [] (pos 1) (created ∷ []) returned
