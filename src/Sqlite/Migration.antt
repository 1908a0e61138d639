-- ===== src/Sqlite/Migration.antt =====
-- What a migration leaves, and what a schema that is accepted looks like.
use delegatd.Prelude.{
  ◌≡◌, refl, ap, sym, ◌∙◌, subst, ℕ, Bool, true, false, ◌||◌, not, List, [], ◌∷◌, GoString, codes,
  ◌==◌, eq_iff, arith, StringSet, lookup, insert, contains_text, Option, none, some, ℤ, pos,
  int_eqb, int_eq_of_eqb, int_ltb, Result, ok, err, GoError, ok_injective, All, eqb, if◌then◌else◌,
  >>=-eq-ok,
}
use delegatd.Memory.{guard}
use delegatd.Memory.Snapshots.{guard-true}
use delegatd.Sqlite.Schema.{
  ColumnDefinition, ObjectDefinition, SchemaEngine, IsSchemaEngine, current_schema_version,
  expected_tables, same_column, check_columns, validate_table_columns, is_strict, check_table,
  check_objects, validate_schema, execute_all, concluded, created, counted, versioned, migrate,
}

module _ (engine : SchemaEngine) (laws : IsSchemaEngine engine) (statements : List GoString) where
  execute_all-base :
      (ss : List GoString) (t t' : engine.Transaction)
      → execute_all engine ss t ≡ ok t'
      → laws.base t' ≡ laws.base t
  unfolding execute_all
  execute_all-base [] t t' h = ap laws.base (sym (ok_injective h))
  execute_all-base (s ∷ ss) t t' h =
      let (u, h1, h2) = >>=-eq-ok (engine.execute s t) _ h in
      execute_all-base ss u t' h2 ∙ laws.execute-base h1

  -- A result with the database that it leaves: an error leaves the one that was there.
  Keeps : engine.Database → Result (Unit {0}) × engine.Database → Type 0
  Keeps d (ok u, d') = Unit
  Keeps d (err e, d') = d' ≡ d

  committed-Keeps :
      (d : engine.Database) (t : engine.Transaction) (made : Result (Unit {0}) × engine.Database)
      → laws.base t ≡ d
      → engine.commit t ≡ made
      → Keeps d made
  unfolding Keeps
  committed-Keeps d t (ok u, d') based h = tt
  committed-Keeps d t (err e, d') based h = laws.commit-base h ∙ based

  concluded-Keeps :
      (d : engine.Database) (t : engine.Transaction) (r : Result engine.Transaction)
      → engine.begin d ≡ ok t
      → execute_all engine statements t ≡ r
      → Keeps d (concluded engine t r)
  unfolding Keeps concluded
  concluded-Keeps d t (err e) begun h = laws.rollback-base t ∙ laws.begin-base begun
  concluded-Keeps d t (ok t') begun h =
      committed-Keeps d t' (engine.commit t')
        (execute_all-base statements t t' h ∙ laws.begin-base begun) refl

  created-Keeps :
      (d : engine.Database) (r : Result engine.Transaction)
      → engine.begin d ≡ r
      → Keeps d (created engine statements d r)
  unfolding Keeps created
  created-Keeps d (err e) h = refl
  created-Keeps d (ok t) h = concluded-Keeps d t _ h refl

  chosen :
      (d : engine.Database) (b : Bool) (p q : Result (Unit {0}) × engine.Database)
      → Keeps d p
      → Keeps d q
      → Keeps d (if b then p else q)
  chosen d true p q h k = h
  chosen d false p q h k = k

  counted-Keeps : (d : engine.Database) (r : Result ℕ) → Keeps d (counted engine statements d r)
  unfolding Keeps counted
  counted-Keeps d (err e) = refl
  counted-Keeps d (ok n) = chosen d (not (eqb n 0)) _ _ refl (created-Keeps d _ refl)

  versioned-Keeps : (d : engine.Database) (r : Result ℤ) → Keeps d (versioned engine statements d r)
  unfolding Keeps versioned
  versioned-Keeps d (err e) = refl
  versioned-Keeps d (ok v) =
      chosen d (int_ltb v (pos 0) || int_ltb current_schema_version v) _ _ refl
        (chosen d (int_eqb v (pos 0)) _ _ (counted-Keeps d (engine.count_objects d)) tt)

  -- A migration that fails leaves the database as it was, for any database that keeps to
  -- `IsSchemaEngine`.
  pub migrate-rolled_back :
      (d d' : engine.Database) (e : GoError) → migrate engine statements d ≡ (err e, d') → d' ≡ d
  unfolding Keeps migrate
  migrate-rolled_back d d' e h = subst (Keeps d) h (versioned-Keeps d (engine.user_version d))

module _ (engine : SchemaEngine) where
  -- A column has the expected name, type up to case, and the two expected marks.
  pub record SameColumn (c e : ColumnDefinition) : Type 0 where
    pub name : c.name ≡ e.name
    pub typ : engine.equal_fold c.typ e.typ ≡ true
    pub not_null : c.not_null ≡ e.not_null
    pub primary_key : c.primary_key ≡ e.primary_key

  same_column-SameColumn : (c e : ColumnDefinition) → same_column engine c e ≡ true → SameColumn c e
  same_column-SameColumn c e h = record {
    name = (eq_iff c.name e.name).0 (ground arith);
    typ = ground arith;
    not_null = int_eq_of_eqb c.not_null e.not_null (ground arith);
    primary_key = int_eq_of_eqb c.primary_key e.primary_key (ground arith);
  }

  -- The columns are the expected ones, in order.
  abbrev pub SameColumns : List ColumnDefinition → List ColumnDefinition → Type 0
  SameColumns [] [] = Unit
  SameColumns [] (e ∷ es) = ⊥
  SameColumns (c ∷ cs) [] = ⊥
  SameColumns (c ∷ cs) (e ∷ es) = SameColumn c e × SameColumns cs es

  check_columns-SameColumns :
      (cs es : List ColumnDefinition) {u : Unit {0}}
      → check_columns engine cs es ≡ ok u
      → SameColumns cs es
  unfolding check_columns
  check_columns-SameColumns [] [] h = tt
  check_columns-SameColumns [] (e ∷ es) h = cc
  check_columns-SameColumns (c ∷ cs) [] h = cc
  check_columns-SameColumns (c ∷ cs) (e ∷ es) h =
      let (u1, h1, h2) = >>=-eq-ok (guard (same_column engine c e) _) _ h in
      (same_column-SameColumn c e (guard-true _ _ h1), check_columns-SameColumns cs es h2)

  -- An object of the schema: an expected table with its expected columns, whose definition contains
  -- the text STRICT once it is in upper case.
  pub record IsExpected (d : engine.Database) (o : ObjectDefinition) : Type 0 where
    pub is_table : o.object_type ≡ codes "table"
    pub strict : contains_text (engine.to_upper o.definition) (codes "STRICT") ≡ true
    pub columns :
        (cs : List ColumnDefinition) × (es : List ColumnDefinition) × (engine.table_info o.name d
          ≡ ok cs)
        × (lookup o.name expected_tables ≡ some es)
        × SameColumns cs es

  check_table-IsExpected :
      (d : engine.Database) (o : ObjectDefinition) (e : Option (List ColumnDefinition))
      {u : Unit {0}}
      → (o.object_type == codes "table") ≡ true
      → lookup o.name expected_tables ≡ e
      → check_table engine d o e ≡ ok u
      → IsExpected d o
  unfolding check_table validate_table_columns
  check_table-IsExpected d o none is_table found h = cc
  check_table-IsExpected d o (some es) is_table found h =
      let (u1, h1, k1) = >>=-eq-ok (guard (is_strict engine o) _) _ h in
      let (cs, h2, k2) = >>=-eq-ok (engine.table_info o.name d) _ k1 in
      record {
        is_table = (eq_iff o.object_type (codes "table")).0 is_table;
        strict = guard-true _ _ h1;
        columns = (cs, es, h2, found, check_columns-SameColumns cs es k2);
      }

  check_objects-IsExpected :
      (d : engine.Database) (os : List ObjectDefinition) (seen : StringSet) {all_seen : StringSet}
      → check_objects engine d os seen ≡ ok all_seen
      → All (IsExpected d) os
  unfolding check_objects
  check_objects-IsExpected d [] seen h = tt
  check_objects-IsExpected d (o ∷ os) seen h =
      let (u1, h1, k1) = >>=-eq-ok (guard (o.object_type == codes "table") _) _ h in
      let (u2, h2, k2) = >>=-eq-ok (check_table engine d o (lookup o.name expected_tables)) _ k1 in
      (
        check_table-IsExpected d o (lookup o.name expected_tables) (guard-true _ _ h1) refl h2,
        check_objects-IsExpected d os (insert o.name tt seen) k2,
      )

  -- A schema that `validateSchema` accepts has version 1, and each of its objects is one of the
  -- expected tables, STRICT, with the expected columns in order.
  pub validate_schema-IsExpected :
      (d : engine.Database) {u : Unit {0}}
      → validate_schema engine d ≡ ok u
      → (engine.user_version d ≡ ok current_schema_version)
        × ((os : List ObjectDefinition) × (engine.objects d ≡ ok os) × All (IsExpected d) os)
  unfolding validate_schema
  validate_schema-IsExpected d h =
      let (version, h1, k1) = >>=-eq-ok (engine.user_version d) _ h in
      let (u2, h2, k2) = >>=-eq-ok (guard (int_eqb version current_schema_version) _) _ k1 in
      let (os, h3, k3) = >>=-eq-ok (engine.objects d) _ k2 in
      let (seen, h4, k4) = >>=-eq-ok (check_objects engine d os []) _ k3 in
      let same : version ≡ current_schema_version =
        int_eq_of_eqb version current_schema_version (guard-true _ _ h2) in
      (h1 ∙ ap ok same, (os, h3, check_objects-IsExpected d os [] h4))
