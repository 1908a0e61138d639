-- ===== src/Sqlite/Opened.antt =====
-- What opening the SQLite store leaves, and what it makes sure of.
use delegatd.Prelude.{
  ◌≡◌, refl, ap, subst, Bool, true, false, List, [], ◌∷◌, ◌++◌, All, GoString, In, keys, Option,
  none, some, Result, ok, err, GoError, ok_injective, >>=-eq-ok, inl, inr, ◌⊎◌,
}
use delegatd.Sqlite.Schema.{
  ObjectDefinition, SchemaEngine, current_schema_version, expected_tables, migrate, validate_schema,
}
use delegatd.Sqlite.Migration.{IsExpected, validate_schema-IsExpected}
use delegatd.Sqlite.Complete.{names_of, validate_schema_complete}
use delegatd.Sqlite.Open.{
  Paths, Place, FileStat, missing, unstattable, found, FileEvent, created, removed, unless,
  not_created, create_file, prepare_file, in_parent, prepare_database_file, Driver,
  require_delete_journal, migrated, open_database, opened, open_prepared, open_resolved, open_store,
  resolve_database_path,
}

-- No file was created, or the one that was created was removed.
abbrev pub LeavesNothing : List FileEvent → Type 0
LeavesNothing events = (events ≡ []) ⊎ (events ≡ created ∷ removed ∷ [])

-- The events of preparing the file, with what it returned.
abbrev Prepared : Result Bool × List FileEvent → Type 0
Prepared (err e, events) = LeavesNothing events
Prepared (ok false, events) = events ≡ []
Prepared (ok true, events) = events ≡ created ∷ []

create_file-Prepared : (create close : Option GoError) → Prepared (create_file create close)
create_file-Prepared (some e) close = inl refl
create_file-Prepared none (some e) = inr refl
create_file-Prepared none none = refl

kept-Prepared : (r : Result (Unit {0})) → Prepared (not_created r, [])
kept-Prepared (ok u) = refl
kept-Prepared (err e) = inl refl

prepare_file-Prepared : (place : Place) (stat : FileStat) → Prepared (prepare_file place stat)
prepare_file-Prepared place (missing e) = create_file-Prepared place.create place.close
prepare_file-Prepared place (unstattable e) = inl refl
prepare_file-Prepared place (found regular permissions) = kept-Prepared _

in_parent-Prepared : (place : Place) (r : Result Bool) → Prepared (in_parent place r)
in_parent-Prepared place (err e) = inl refl
in_parent-Prepared place (ok false) = inl refl
in_parent-Prepared place (ok true) = prepare_file-Prepared place place.stat

prepare_database_file-Prepared : (place : Place) → Prepared (prepare_database_file place)
unfolding prepare_database_file
prepare_database_file-Prepared place = in_parent-Prepared place place.parent

module _ (engine : SchemaEngine) (statements : List GoString) (driver : Driver engine) where
  -- Opening failed and left nothing, or gave a database whose schema was accepted.
  Settles : Result engine.Database × List FileEvent → Type 0
  Settles (err e, events) = LeavesNothing events
  Settles (ok d, events) = validate_schema engine d ≡ ok tt

  migrated-accepted :
      (x : Result (Unit {0}) × engine.Database) {d : engine.Database}
      → migrated engine x ≡ ok d
      → validate_schema engine d ≡ ok tt
  unfolding migrated
  migrated-accepted (r, d') {d} h =
      let (u1, h1, k1) = >>=-eq-ok r _ h in
      let (u2, h2, k2) = >>=-eq-ok (validate_schema engine d') _ k1 in
      subst (λ x. validate_schema engine x ≡ ok tt) (ok_injective k2) h2

  open_database-accepted :
      {d : engine.Database}
      → open_database engine statements driver ≡ ok d
      → validate_schema engine d ≡ ok tt
  unfolding open_database
  open_database-accepted h =
      let (u1, h1, k1) = >>=-eq-ok (unless driver.open_error) _ h in
      let (u2, h2, k2) = >>=-eq-ok (unless driver.ping) _ k1 in
      let (u3, h3, k3) = >>=-eq-ok (require_delete_journal engine driver.journal) _ k2 in
      migrated-accepted (migrate engine statements driver.database) k3

  opened-Settles :
      (was_created : Bool) (events : List FileEvent) (r : Result engine.Database)
      → Prepared (ok was_created, events)
      → open_database engine statements driver ≡ r
      → Settles (opened engine was_created events r)
  unfolding Settles opened
  opened-Settles was_created events (ok d) prepared h = open_database-accepted h
  opened-Settles true events (err e) prepared h = inr (ap (λ x. x ++ removed ∷ []) prepared)
  opened-Settles false events (err e) prepared h = inl (ap (λ x. x ++ []) prepared)

  open_prepared-Settles :
      (x : Result Bool × List FileEvent)
      → Prepared x
      → Settles (open_prepared engine statements driver x)
  unfolding Settles open_prepared
  open_prepared-Settles (err e, events) prepared = prepared
  open_prepared-Settles (ok was_created, events) prepared =
      opened-Settles was_created events _ prepared refl

  open_resolved-Settles :
      (places : GoString → Place) (r : Result GoString)
      → Settles (open_resolved engine statements driver places r)
  unfolding Settles open_resolved
  open_resolved-Settles places (err e) = inl refl
  open_resolved-Settles places (ok path) =
      open_prepared-Settles _ (prepare_database_file-Prepared (places path))

  module _ (places : GoString → Place) (paths : Paths) (configured dir : GoString) where
    open_store-Settles : Settles (open_store engine statements driver places paths configured dir)
    unfolding open_store
    open_store-Settles = open_resolved-Settles places (resolve_database_path paths configured dir)

    -- A call of `Open` that fails has created no file, or has created one and then called `Remove` on
    -- it.
    pub open_store-LeavesNothing :
        (e : GoError) (events : List FileEvent)
        → open_store engine statements driver places paths configured dir ≡ (err e, events)
        → LeavesNothing events
    unfolding Settles
    open_store-LeavesNothing e events h = subst Settles h open_store-Settles

    -- A database that `Open` returns has version 1; its objects are tables, each of them one of the
    -- three expected ones, with the expected columns in order and a definition in which, in upper
    -- case, the text STRICT stands; and each of the three expected tables is there.
    pub open_store-IsExpected :
        (d : engine.Database) (events : List FileEvent)
        → open_store engine statements driver places paths configured dir ≡ (ok d, events)
        → (engine.user_version d ≡ ok current_schema_version)
          × ((os : List ObjectDefinition) × (engine.objects d ≡ ok os)
              × All (IsExpected engine d) os
              × ((k : GoString) → In k (keys expected_tables) → In k (names_of os)))
    unfolding Settles
    open_store-IsExpected d events h =
        let accepted = subst Settles h open_store-Settles in
        let (version, (os, listed, good)) = validate_schema-IsExpected engine d accepted in
        (version, (os, listed, good, validate_schema_complete engine d os accepted listed good))
