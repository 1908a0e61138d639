-- ===== src/Examples/Schema.antt =====
-- A database without tables, and a migration of it that fails.
use delegatd.Prelude.{
  ◌≡◌, refl, ap, sym, ok_injective, List, [], ◌∷◌, GoString, codes, ◌==◌, is_empty, lookup, Option,
  none, some, ℤ, pos, Result, ok, err, GoError, plain, if◌then◌else◌,
}
use delegatd.Sqlite.Schema.{
  ColumnDefinition, ObjectDefinition, SchemaEngine, IsSchemaEngine, expected_tables, execute_all,
  concluded, created, counted, versioned, migrate,
}
use delegatd.Sqlite.Migration.{migrate-rolled_back}

abbrev table : GoString → ObjectDefinition
table name = record {
  name = name;
  object_type = codes "table";
  definition = codes "CREATE TABLE () STRICT";
}

abbrev info : Option (List ColumnDefinition) → Result (List ColumnDefinition)
info none = err (plain [])
info (some columns) = ok columns

-- The version is all that the database keeps; an empty statement fails.
abbrev pub versions : SchemaEngine
versions = record {
  Database = ℤ;
  Transaction = ℤ × ℤ;
  user_version = λ d. ok d;
  count_objects = λ d. ok 0;
  begin = λ d. ok (d, d);
  execute = λ s t. if is_empty s then err (plain (codes "incomplete input")) else ok (t.0, pos 1);
  commit = λ t. (ok tt, t.1);
  rollback = λ t. t.0;
  objects = λ d.
      ok (table (codes "resources") ∷ table (codes "task_history") ∷ table (codes "tasks") ∷ []);
  table_info = λ name d. info (lookup name expected_tables);
  equal_fold = λ s t. s == t;
  to_upper = λ s. s;
}

executed : (s : GoString) (t t' : ℤ × ℤ) → versions.execute s t ≡ ok t' → t'.0 ≡ t.0
executed [] t t' h = cc
executed (b ∷ s) t t' h = ap (λ (u : ℤ × ℤ). u.0) (sym (ok_injective h))

versions-IsSchemaEngine : IsSchemaEngine versions
versions-IsSchemaEngine = record {
  base = λ t. t.0;
  begin-base = λ h. ap (λ (u : ℤ × ℤ). u.0) (sym (ok_injective h));
  execute-base = λ {s} {t} {t'} h. executed s t t' h;
  rollback-base = λ t. refl;
  commit-base = λ {t} {x} {d} h. cc (ap (λ (o : Result (Unit {0}) × ℤ). o.0) h);
}

-- the second statement fails
failing :
    (e : GoError) × (d : ℤ) × (migrate versions (codes "CREATE" ∷ [] ∷ []) (pos 0) ≡ (err e, d))
unfolding migrate versioned counted created concluded execute_all
failing = (_, _, refl)

migrate-rolled_back_example : failing.1 ≡ pos 0
migrate-rolled_back_example =
    migrate-rolled_back versions versions-IsSchemaEngine (codes "CREATE" ∷ [] ∷ []) (pos 0)
      failing.1 failing.0 failing.2
