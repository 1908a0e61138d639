-- ===== src/Prelude/Maps.antt =====
-- Go maps with string keys, as association lists. Go iterates over a map in any order; the order of
-- the list is one of them, and the laws below read a map by its lookups only.
use mathlib.Core.Path.{◌≡◌, refl, sym, ap, subst, ◌∙◌}
use delegatd.Prelude.Results.{some_injective}
use mathlib.Core.Bool.{Bool, true, false}
use mathlib.Core.Option.{Option, none, some}
use mathlib.Core.List.{List, [], ◌∷◌}
use native.Mathlib.Omega.{arith}
use delegatd.Prelude.Tests.{if◌then◌else◌, is_some, Bool-cases}
use delegatd.Prelude.Lists.{In}
use delegatd.Prelude.Order.{Distinct}
use mathlib.Core.Logic.{◌⊎◌, ◌≢◌, inl, inr}
use delegatd.Prelude.Text.{GoString, ◌==◌, eq_iff, eq_refl}

abbrev pub GoMap {ℓ} : Type ℓ → Type ℓ
GoMap V = List (GoString × V)

-- `map[string]struct{}`
abbrev pub StringSet : Type 0
StringSet = GoMap (Unit {0})

module _ {ℓ} {V : Type ℓ} where
  -- `value, ok := m[key]`
  unfoldable pub lookup : GoString → GoMap V → Option V
  lookup key [] = none
  lookup key ((name, value) ∷ rest) = if name == key then some value else lookup key rest

  -- `m[key] = value`
  unfoldable pub insert : GoString → V → GoMap V → GoMap V
  insert key value [] = (key, value) ∷ []
  insert key value ((name, old) ∷ rest) =
      if name == key then (key, value) ∷ rest else (name, old) ∷ insert key value rest

  -- the keys, in the order of an iteration
  abbrev pub keys : GoMap V → List GoString
  keys [] = []
  keys ((k, v) ∷ m) = k ∷ keys m

  -- `_, ok := m[key]`
  abbrev pub contains : GoString → GoMap V → Bool
  contains k m = is_some (lookup k m)

  pub lookup-cons :
      (k j : GoString) (v : V) (m : GoMap V)
      → lookup j ((k, v) ∷ m) ≡ (if k == j then some v else lookup j m)
  unfolding lookup
  lookup-cons k j v m = refl

  -- A map after a write: the new value at its key, and the old values elsewhere.
  pub lookup-insert :
      (key other : GoString) (value : V) (m : GoMap V)
      → lookup other (insert key value m) ≡ (if key == other then some value else lookup other m)
  unfolding lookup insert
  lookup-insert key other value [] = refl
  lookup-insert key other value ((name, old) ∷ rest) = ground (
    arith,
    lookup-insert key other value rest,
    eq_iff key other,
    eq_iff name key,
    eq_iff name other,
  )

  pub lookup-insert_self :
      (key : GoString) (value : V) (m : GoMap V) → lookup key (insert key value m) ≡ some value
  lookup-insert_self key value m = ground (arith, lookup-insert key key value m, eq_refl key)

  pub lookup-insert_ne :
      (k j : GoString) (v : V) (m : GoMap V) → j ≢ k → lookup j (insert k v m) ≡ lookup j m
  lookup-insert_ne k j v m h = ground (arith, lookup-insert k j v m, eq_iff k j)

module _ {V : Type 0} where
  pub contains-In : (k : GoString) (m : GoMap V) → contains k m ≡ true → In k (keys m)
  unfolding lookup
  contains-In k [] h = cc
  contains-In k ((j, v) ∷ m) h = elim (Bool-cases (j == k)) [
    | inl e ↦ inl (sym ((eq_iff j k).0 e))
    | inr e ↦ inr (contains-In k m (rw e at h))
  ]

  pub In-contains : (k : GoString) (m : GoMap V) → In k (keys m) → contains k m ≡ true
  unfolding lookup
  In-contains k [] i = elim i [ ]
  In-contains k ((j, v) ∷ m) (inl e) = rw (ap (◌==◌ j) e ∙ eq_refl j)
  In-contains k ((j, v) ∷ m) (inr i) = ground (arith, In-contains k m i)

  contains-insert :
      (k a : GoString) (v : V) (m : GoMap V)
      → contains a (insert k v m) ≡ true
      → (k == a) ≡ false
      → contains a m ≡ true
  contains-insert k a v m h e = ground (arith, lookup-insert k a v m)

  pub In-keys-insert_inv :
      (k a : GoString) (v : V) (m : GoMap V) → In a (keys (insert k v m)) → (a ≡ k) ⊎ In a (keys m)
  In-keys-insert_inv k a v m i = elim (Bool-cases (k == a)) [
    | inl e ↦ inl (sym ((eq_iff k a).0 e))
    | inr e ↦ inr (contains-In a m (contains-insert k a v m (In-contains a (insert k v m) i) e))
  ]

  pub In-keys-insert_self : (k : GoString) (v : V) (m : GoMap V) → In k (keys (insert k v m))
  In-keys-insert_self k v m = contains-In k (insert k v m) (ap is_some (lookup-insert_self k v m))

  pub In-keys-insert :
      (k a : GoString) (v : V) (m : GoMap V) → In a (keys m) → In a (keys (insert k v m))
  In-keys-insert k a v m i =
      contains-In a (insert k v m) (ground (arith, lookup-insert k a v m, In-contains a m i))

  pub Distinct-keys-insert :
      (k : GoString) (v : V) (m : GoMap V) → Distinct (keys m) → Distinct (keys (insert k v m))
  unfolding insert
  Distinct-keys-insert k v [] d = (λ i. i, tt)
  Distinct-keys-insert k v ((j, w) ∷ m) d =
      let rest = Distinct-keys-insert k v m d.1 in
      elim (Bool-cases (j == k)) [
        | inl e ↦ rw e (subst (λ x. ¬ In x (keys m)) ((eq_iff j k).0 e) d.0, d.1)
        | inr e ↦ rw e (
          λ i. elim (In-keys-insert_inv k j v m i) [
            | inl q ↦ cc (e, (eq_iff j k).1 q)
            | inr old ↦ d.0 old
          ],
          rest,
        )
      ]

pub at_key :
    {V : Type 0} {w : V} (k j : GoString) (v : V) (m : GoMap V)
    → (k == j) ≡ true
    → lookup j (insert k v m) ≡ some w
    → v ≡ w
at_key k j v m e h = some_injective (sym (lookup-insert k j v m ∙ rw e) ∙ h)

pub off_key :
    {V : Type 0} {w : V} (k j : GoString) (v : V) (m : GoMap V)
    → (k == j) ≡ false
    → lookup j (insert k v m) ≡ some w
    → lookup j m ≡ some w
off_key k j v m e h = sym (lookup-insert k j v m ∙ rw e) ∙ h

-- Reading a map after a write, when the new value and the old values have a property.
pub lookup-insert-Keeps :
    {V : Type 0} (P : GoString → V → Type 0) (k : GoString) (v : V) (m : GoMap V)
    → P k v
    → ((j : GoString) (w : V) → lookup j m ≡ some w → P j w)
    → (j : GoString) (w : V) → lookup j (insert k v m) ≡ some w
    → P j w
lookup-insert-Keeps P k v m new_one old j w h = elim (Bool-cases (k == j)) [
  | inl e ↦
      let key = (eq_iff k j).0 e in
      let val : v ≡ w = at_key k j v m e h in subst (λ i. P i w) key (subst (P k) val new_one)
  | inr e ↦ old j w (off_key k j v m e h)
]
