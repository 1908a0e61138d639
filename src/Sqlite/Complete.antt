-- ===== src/Sqlite/Complete.antt =====
-- That a schema that `validateSchema` accepts has each of the expected tables.
use delegatd.Prelude.{
  ◌≡◌, refl, suc, true, ap, sym, ◌∙◌, subst, arith, ℕ, List, [], ◌∷◌, GoString, codes, ◌==◌,
  StringSet, lookup, insert, In, Distinct, keys, contains-In, is_some, Distinct-keys-insert,
  In-keys-insert_inv, length, eqb, int_eqb, ok, >>=-eq-ok, ok_injective, inl, inr, ◌⊎◌, All,
}
use delegatd.Memory.{guard}
use delegatd.Memory.Snapshots.{guard-true}
use delegatd.Sqlite.Schema.{
  ObjectDefinition, SchemaEngine, current_schema_version, expected_tables, check_table,
  check_objects, validate_schema,
}
use delegatd.Sqlite.Migration.{IsExpected}

-- Three different names, each of them one of three, are all three.
all_three :
    (a b c r t h k : GoString)
    → Distinct (a ∷ b ∷ c ∷ [])
    → In a (r ∷ t ∷ h ∷ [])
    → In b (r ∷ t ∷ h ∷ [])
    → In c (r ∷ t ∷ h ∷ [])
    → In k (r ∷ t ∷ h ∷ [])
    → In k (a ∷ b ∷ c ∷ [])
all_three a b c r t h k apart x y z w = ground arith

-- A list of three different names of the expected tables has all of them.
all_expected :
    (names : List GoString)
    → Distinct names
    → length names ≡ 3
    → ((k : GoString) → In k names → In k (keys expected_tables))
    → (k : GoString) → In k (keys expected_tables)
    → In k names
all_expected [] apart three known k i = cc
all_expected (a ∷ []) apart three known k i = absurd (omega arith)
all_expected (a ∷ b ∷ []) apart three known k i = absurd (omega arith)
all_expected (a ∷ b ∷ c ∷ []) apart three known k i =
    all_three a b c (codes "resources") (codes "tasks") (codes "task_history") k apart
      (known a (inl refl)) (known b (inr (inl refl))) (known c (inr (inr (inl refl)))) i
all_expected (a ∷ b ∷ c ∷ d ∷ names) apart three known k i = absurd (omega arith)

length-keys : (m : StringSet) → length (keys m) ≡ length m
length-keys [] = refl
length-keys ((k, v) ∷ m) = ap suc (length-keys m)

is_three : (n : ℕ) → eqb n 3 ≡ true → n ≡ 3
is_three n h = ground arith

abbrev pub names_of : List ObjectDefinition → List GoString
names_of [] = []
names_of (o ∷ os) = o.name ∷ names_of os

module _ (engine : SchemaEngine) where
  -- The names that were seen are different, and are those of objects.
  check_objects-keys :
      (d : engine.Database) (os : List ObjectDefinition) (seen all_seen : StringSet)
      → check_objects engine d os seen ≡ ok all_seen
      → Distinct (keys seen)
      → Distinct (keys all_seen)
        × ((k : GoString) → In k (keys all_seen) → In k (keys seen) ⊎ In k (names_of os))
  unfolding check_objects
  check_objects-keys d [] seen all_seen h apart =
      subst (λ s. Distinct (keys s) × ((k : GoString) → In k (keys s) → In k (keys seen) ⊎ ⊥))
        (ok_injective h) (apart, λ k i. inl i)
  check_objects-keys d (o ∷ os) seen all_seen h apart =
      let (u1, h1, k1) = >>=-eq-ok (guard (o.object_type == codes "table") _) _ h in
      let (u2, h2, k2) = >>=-eq-ok (check_table engine d o (lookup o.name expected_tables)) _ k1 in
      let (distinct, named) =
        check_objects-keys d os (insert o.name tt seen) all_seen k2
          (Distinct-keys-insert o.name tt seen apart) in
      (
        distinct,
        λ k i. elim (named k i) [
          | inr j ↦ inr (inr j)
          | inl j ↦ elim (In-keys-insert_inv o.name k tt seen j) [
            | inl e ↦ inr (inl e)
            | inr old ↦ inl old
          ]
        ],
      )

  -- Each name of an expected object is that of an expected table.
  named_expected :
      (d : engine.Database) (os : List ObjectDefinition)
      → All (IsExpected engine d) os
      → (k : GoString) → In k (names_of os)
      → In k (keys expected_tables)
  named_expected d [] good k i = absurd i
  named_expected d (o ∷ os) good k (inl e) =
      let (cs, es, info, found, columns) = good.0.columns in
      contains-In k expected_tables (ap is_some (ap (λ n. lookup n expected_tables) e ∙ found))
  named_expected d (o ∷ os) good k (inr i) = named_expected d os good.1 k i

  -- Each expected table is an object of a schema that `validateSchema` accepts.
  pub validate_schema_complete :
      (d : engine.Database) (os : List ObjectDefinition) {u : Unit {0}}
      → validate_schema engine d ≡ ok u
      → engine.objects d ≡ ok os
      → All (IsExpected engine d) os
      → (k : GoString) → In k (keys expected_tables)
      → In k (names_of os)
  unfolding validate_schema
  validate_schema_complete d os h listed good k expected =
      let (version, h1, k1) = >>=-eq-ok (engine.user_version d) _ h in
      let (u2, h2, k2) = >>=-eq-ok (guard (int_eqb version current_schema_version) _) _ k1 in
      let (os', h3, k3) = >>=-eq-ok (engine.objects d) _ k2 in
      let (seen, h4, k4) = >>=-eq-ok (check_objects engine d os' []) _ k3 in
      let same : os' ≡ os = ok_injective (sym h3 ∙ listed) in
      let (apart, named) =
        check_objects-keys d os [] seen (subst (λ x. check_objects engine d x [] ≡ ok seen) same h4)
          tt in
      let known : (j : GoString) → In j (keys seen) → In j (names_of os) =
        λ j i. elim (named j i) [ inl none_seen ↦ absurd none_seen | inr n ↦ n ] in
      let three : length (keys seen) ≡ 3 =
        length-keys seen ∙ is_three (length seen) (guard-true _ _ k4) in
      known k (
        all_expected (keys seen) apart three (λ j i. named_expected d os good j (known j i)) k
          expected)
