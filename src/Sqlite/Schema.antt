-- ===== src/Sqlite/Schema.antt =====
-- internal/store/sqlite/migrations.go: `migrate` and `validateSchema`. The database is a parameter.
use delegatd.Prelude.{
  ◌≡◌, ℕ, Bool, ◌&&◌, ◌||◌, not, List, [], ◌∷◌, GoString, codes, ◌==◌, contains_text, GoMap,
  StringSet, lookup, insert, Option, none, some, ℤ, pos, int_eqb, int_ltb, Result, ok, err, GoError,
  plain, sentinel, store_corrupt, store_unsupported, if◌then◌else◌, length, eqb, ◌>>=◌, ◌>>◌,
}
use delegatd.Memory.{guard}

pub record ColumnDefinition : Type 0 where
  pub name : GoString
  pub typ : GoString
  pub not_null : ℤ
  pub primary_key : ℤ

-- a row of `sqlite_schema`
pub record ObjectDefinition : Type 0 where
  pub name : GoString
  pub object_type : GoString
  pub definition : GoString

abbrev pub current_schema_version : ℤ
current_schema_version = pos 1

-- The statements on the schema. `equal_fold` and `to_upper` are those of package strings.
pub record SchemaEngine : Type 1 where
  pub Database : Type 0
  pub Transaction : Type 0
  pub user_version : Database → Result ℤ
  pub count_objects : Database → Result ℕ
  pub begin : Database → Result Transaction
  pub execute : GoString → Transaction → Result Transaction
  pub commit : Transaction → Result (Unit {0}) × Database
  pub rollback : Transaction → Database
  pub objects : Database → Result (List ObjectDefinition)
  pub table_info : GoString → Database → Result (List ColumnDefinition)
  pub equal_fold : GoString → GoString → Bool
  pub to_upper : GoString → GoString

-- `base` is the database that the transaction began on, which a rollback and a commit that fails
-- leave as it was.
pub record IsSchemaEngine (e : SchemaEngine) : Type 0 where
  pub base : e.Transaction → e.Database
  pub begin-base : {d : e.Database} {t : e.Transaction} → e.begin d ≡ ok t → base t ≡ d
  pub execute-base :
      {s : GoString} {t t' : e.Transaction} → e.execute s t ≡ ok t' → base t' ≡ base t
  pub rollback-base : (t : e.Transaction) → e.rollback t ≡ base t
  pub commit-base :
      {t : e.Transaction} {x : GoError} {d : e.Database} → e.commit t ≡ (err x, d) → d ≡ base t

abbrev text_column : GoString → ColumnDefinition
text_column name = record { name = name; typ = codes "TEXT"; not_null = pos 1; primary_key = pos 0 }

abbrev key_column : GoString → ColumnDefinition
key_column name = record { name = name; typ = codes "TEXT"; not_null = pos 1; primary_key = pos 1 }

abbrev blob_column : GoString → ColumnDefinition
blob_column name = record { name = name; typ = codes "BLOB"; not_null = pos 1; primary_key = pos 0 }

-- `expected`
abbrev pub expected_tables : GoMap (List ColumnDefinition)
expected_tables =
    (
      codes "resources",
      key_column (codes "id")
          ∷ text_column (codes "name")
          ∷ text_column (codes "kind")
          ∷ text_column (codes "connector_instance")
          ∷ text_column (codes "external_ref")
          ∷ text_column (codes "external_identity")
          ∷ text_column (codes "revision")
          ∷ blob_column (codes "configuration_json")
          ∷ blob_column (codes "policy_request_json")
          ∷ text_column (codes "onboarded_at")
          ∷ text_column (codes "updated_at")
          ∷ [],
    )
    ∷ (
      codes "tasks",
      key_column (codes "id")
          ∷ text_column (codes "resource_id")
          ∷ text_column (codes "status")
          ∷ blob_column (codes "resource_json")
          ∷ blob_column (codes "input_json")
          ∷ blob_column (codes "configuration_json")
          ∷ blob_column (codes "policy_json")
          ∷ text_column (codes "created_at")
          ∷ [],
    )
    ∷ (
      codes "task_history",
      key_column (codes "task_id")
          ∷ record {
            name = codes "sequence";
            typ = codes "INTEGER";
            not_null = pos 1;
            primary_key = pos 2;
          }
          ∷ text_column (codes "status")
          ∷ text_column (codes "occurred_at")
          ∷ text_column (codes "reason")
          ∷ [],
    )
    ∷ []

module _ (engine : SchemaEngine) where
  abbrev pub same_column : ColumnDefinition → ColumnDefinition → Bool
  same_column c e =
      c.name == e.name
      && engine.equal_fold c.typ e.typ
      && int_eqb c.not_null e.not_null
      && int_eqb c.primary_key e.primary_key

  -- the loop over the columns, at the index of the expected one
  unfoldable pub check_columns : List ColumnDefinition → List ColumnDefinition → Result (Unit {0})
  check_columns [] [] = ok tt
  check_columns [] (e ∷ es) = err (sentinel store_corrupt)
  check_columns (c ∷ cs) [] = err (sentinel store_corrupt)
  check_columns (c ∷ cs) (e ∷ es) = do
    guard (same_column c e) (sentinel store_corrupt)
    check_columns cs es

  unfoldable pub validate_table_columns :
      engine.Database → GoString → List ColumnDefinition → Result (Unit {0})
  validate_table_columns d table expected = do
    columns ← engine.table_info table d
    check_columns columns expected

  abbrev pub is_strict : ObjectDefinition → Bool
  is_strict o = contains_text (engine.to_upper o.definition) (codes "STRICT")

  -- the columns of a table that is expected
  unfoldable pub check_table :
      engine.Database → ObjectDefinition → Option (List ColumnDefinition) → Result (Unit {0})
  check_table d o none = err (sentinel store_corrupt)
  check_table d o (some columns) = do
    guard (is_strict o) (sentinel store_corrupt)
    validate_table_columns d o.name columns

  -- the loop over the objects, with the names that were seen
  unfoldable pub check_objects :
      engine.Database → List ObjectDefinition → StringSet → Result StringSet
  check_objects d [] seen = ok seen
  check_objects d (o ∷ os) seen = do
    guard (o.object_type == codes "table") (plain (codes "unexpected state store object"))
    check_table d o (lookup o.name expected_tables)
    check_objects d os (insert o.name tt seen)

  -- `validateSchema`
  unfoldable pub validate_schema : engine.Database → Result (Unit {0})
  validate_schema d = do
    version ← engine.user_version d
    guard (int_eqb version current_schema_version) (sentinel store_unsupported)
    objects ← engine.objects d
    seen ← check_objects d objects []
    guard (eqb (length seen) (length expected_tables)) (sentinel store_corrupt)

  -- the loop over the statements
  unfoldable pub execute_all : List GoString → engine.Transaction → Result engine.Transaction
  execute_all [] t = ok t
  execute_all (s ∷ ss) t = do t' ← engine.execute s t; execute_all ss t'

  -- A failure runs the deferred `Rollback` of what the transaction did since `t`.
  unfoldable pub concluded :
      engine.Transaction → Result engine.Transaction → Result (Unit {0}) × engine.Database
  concluded t (err e) = (err e, engine.rollback t)
  concluded t (ok t') = engine.commit t'

  unfoldable pub created :
      List GoString
      → engine.Database
      → Result engine.Transaction
      → Result (Unit {0}) × engine.Database
  created statements d (err e) = (err e, d)
  created statements d (ok t) = concluded t (execute_all statements t)

  unfoldable pub counted :
      List GoString → engine.Database → Result ℕ → Result (Unit {0}) × engine.Database
  counted statements d (err e) = (err e, d)
  counted statements d (ok n) =
      if not (eqb n 0)
      then (err (plain (codes "state store has an unknown version-zero schema")), d)
      else created statements d (engine.begin d)

  unfoldable pub versioned :
      List GoString → engine.Database → Result ℤ → Result (Unit {0}) × engine.Database
  versioned statements d (err e) = (err e, d)
  versioned statements d (ok v) =
      if int_ltb v (pos 0) || int_ltb current_schema_version v
      then (err (sentinel store_unsupported), d)
      else if int_eqb v (pos 0)
      then counted statements d (engine.count_objects d)
      else (ok tt, d)

  -- `migrate`, with the texts of its statements
  unfoldable pub migrate : List GoString → engine.Database → Result (Unit {0}) × engine.Database
  migrate statements d = versioned statements d (engine.user_version d)
