-- ===== src/Sqlite/Open.antt =====
-- `Open` and `OpenReadOnly` of internal/store/sqlite/store.go. What the operating system and the
-- driver answer are arguments; the files that a call creates and removes are its events.
use delegatd.Prelude.{
  ℕ, ◌%◌, Bool, true, false, ◌||◌, List, [], ◌∷◌, ◌++◌, GoString, codes, is_empty, Option, none,
  some, Result, ok, err, GoError, plain, if◌then◌else◌, eqb, ◌>>=◌, ◌>>◌,
}
use delegatd.Memory.{guard, store_error}
use delegatd.Sqlite.Create.{state_unavailable}
use delegatd.Sqlite.Schema.{SchemaEngine, migrate, validate_schema}

-- package filepath
pub record Paths : Type 0 where
  pub is_abs : GoString → Bool
  pub join : GoString → GoString → GoString
  pub abs : GoString → Result GoString

unfoldable pub resolve_database_path : Paths → GoString → GoString → Result GoString
resolve_database_path paths configured dir =
    if is_empty configured
    then err (plain (codes "state store path is required"))
    else paths.abs (if paths.is_abs configured then configured else paths.join dir configured)

-- What `Stat` says of the file: that it is missing, another error, or whether it is a regular file
-- and its permission bits.
pub data FileStat : Type 0 where
  missing : GoError → FileStat
  unstattable : GoError → FileStat
  found : Bool → ℕ → FileStat

-- What the operating system answers about a path: `Stat` of its parent and of itself, and the errors
-- of creating and closing a file there.
pub record Place : Type 0 where
  pub windows : Bool
  pub parent : Result Bool
  pub stat : FileStat
  pub create : Option GoError
  pub close : Option GoError

-- The file was created; `Remove` was called on it, of which the answer is ignored.
pub data FileEvent : Type 0 where
  created removed : FileEvent

abbrev pub unless : Option GoError → Result (Unit {0})
unless none = ok tt
unless (some e) = err e

abbrev pub usable : Bool → Bool → ℕ → Result (Unit {0})
usable windows regular permissions = do
  guard regular (plain (codes "state store path is not a regular file"))
  guard (windows || eqb (permissions % 64) 0)
      (plain (codes "state store permissions are too broad"))

abbrev pub not_created : Result (Unit {0}) → Result Bool
not_created (ok u) = ok false
not_created (err e) = err e

abbrev pub create_file : Option GoError → Option GoError → Result Bool × List FileEvent
create_file (some e) close = (err e, [])
create_file none (some e) = (err e, created ∷ removed ∷ [])
create_file none none = (ok true, created ∷ [])

abbrev pub prepare_file : Place → FileStat → Result Bool × List FileEvent
prepare_file place (missing e) = create_file place.create place.close
prepare_file place (unstattable e) = (err e, [])
prepare_file place (found regular permissions) =
    (not_created (usable place.windows regular permissions), [])

abbrev pub in_parent : Place → Result Bool → Result Bool × List FileEvent
in_parent place (err e) = (err e, [])
in_parent place (ok false) = (err (plain (codes "state store parent is not a directory")), [])
in_parent place (ok true) = prepare_file place place.stat

-- `prepareDatabaseFile`: whether the file was created, and the events
unfoldable pub prepare_database_file : Place → Result Bool × List FileEvent
prepare_database_file place = in_parent place place.parent

module _ (engine : SchemaEngine) where
  -- What the driver answers: the errors of `sql.Open` and of the ping, the database, and its journal
  -- mode.
  pub record Driver : Type 0 where
    pub open_error : Option GoError
    pub ping : Option GoError
    pub database : engine.Database
    pub journal : Result GoString

  unfoldable pub require_delete_journal : Result GoString → Result (Unit {0})
  require_delete_journal journal = do
    mode ← journal
    guard (engine.equal_fold mode (codes "delete"))
        (plain (codes "state store journal mode is unsupported"))

  unfoldable pub migrated : Result (Unit {0}) × engine.Database → Result engine.Database
  migrated (r, d) = do r; validate_schema engine d; ok d

  -- from `sql.Open` on
  unfoldable pub open_database : List GoString → Driver → Result engine.Database
  open_database statements driver = do
    unless driver.open_error
    unless driver.ping
    require_delete_journal driver.journal
    migrated (migrate engine statements driver.database)

  abbrev pub unavailable {ℓ} : {A : Type ℓ} → Result A → Result A
  unavailable (ok a) = ok a
  unavailable (err e) = err (store_error state_unavailable e)

  -- `cleanup`: a file that was created is removed.
  abbrev pub cleanup : Bool → List FileEvent
  cleanup true = removed ∷ []
  cleanup false = []

  unfoldable pub opened :
      Bool → List FileEvent → Result engine.Database → Result engine.Database × List FileEvent
  opened was_created events (ok d) = (ok d, events)
  opened was_created events (err e) =
      (err (store_error state_unavailable e), events ++ cleanup was_created)

  unfoldable pub open_prepared :
      List GoString
      → Driver
      → Result Bool × List FileEvent
      → Result engine.Database × List FileEvent
  open_prepared statements driver (err e, events) = (err (store_error state_unavailable e), events)
  open_prepared statements driver (ok was_created, events) =
      opened was_created events (open_database statements driver)

  unfoldable pub open_resolved :
      List GoString
      → Driver
      → (GoString → Place)
      → Result GoString
      → Result engine.Database × List FileEvent
  open_resolved statements driver places (err e) = (err (store_error state_unavailable e), [])
  open_resolved statements driver places (ok path) =
      open_prepared statements driver (prepare_database_file (places path))

  -- `Open`
  unfoldable pub open_store :
      List GoString
      → Driver
      → (GoString → Place)
      → Paths
      → GoString
      → GoString
      → Result engine.Database × List FileEvent
  open_store statements driver places paths configured dir =
      open_resolved statements driver places (resolve_database_path paths configured dir)

  abbrev pub existing : FileStat → Result (Bool × ℕ)
  existing (missing e) = err e
  existing (unstattable e) = err e
  existing (found regular permissions) = ok (regular, permissions)

  -- `OpenReadOnly`
  unfoldable pub open_read_only :
      Driver → (GoString → Place) → Paths → GoString → GoString → Result engine.Database
  open_read_only driver places paths configured dir = do
    path ← unavailable (resolve_database_path paths configured dir)
    file ← unavailable (existing (places path).stat)
    unavailable (usable (places path).windows file.0 file.1)
    unavailable (unless driver.open_error)
    unavailable (unless driver.ping)
    unavailable (require_delete_journal driver.journal)
    unavailable (validate_schema engine driver.database)
    ok driver.database
