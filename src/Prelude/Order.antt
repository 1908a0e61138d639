-- ===== src/Prelude/Order.antt =====
-- The order of Go strings, `sort.Strings`, and why the result depends on the members alone.
use mathlib.Core.Path.{◌≡◌, refl, ap, sym, subst, ap₂}
use mathlib.Core.Logic.{◌⊎◌, inl, inr, ◌↔◌}
use mathlib.Core.Bool.{Bool, true, false, ◌&&◌, ◌||◌}
use mathlib.Core.List.{List, [], ◌∷◌}
use native.Mathlib.Omega.{arith}
use delegatd.Prelude.Tests.{ltb, eqb, if◌then◌else◌, Bool-cases}
use delegatd.Prelude.Lists.{In, All}
use delegatd.Prelude.Text.{GoString}

-- `s < t`, byte by byte
unfoldable pub str_ltb : GoString → GoString → Bool
str_ltb s [] = false
str_ltb [] (b ∷ t) = true
str_ltb (a ∷ s) (b ∷ t) = ltb a b || (eqb a b && str_ltb s t)

pub str_ltb_irrefl : (s : GoString) → str_ltb s s ≡ false
unfolding str_ltb
str_ltb_irrefl [] = refl
str_ltb_irrefl (a ∷ s) = ground (arith, str_ltb_irrefl s)

pub str_ltb_trans :
    (s t u : GoString) → str_ltb s t ≡ true → str_ltb t u ≡ true → str_ltb s u ≡ true
unfolding str_ltb
str_ltb_trans s t [] h k = cc
str_ltb_trans s [] (c ∷ u) h k = cc
str_ltb_trans [] (b ∷ t) (c ∷ u) h k = refl
str_ltb_trans (a ∷ s) (b ∷ t) (c ∷ u) h k = ground (arith, str_ltb_trans s t u)

pub str_ltb_total : (s t : GoString) → (str_ltb s t ≡ true) ⊎ (s ≡ t) ⊎ (str_ltb t s ≡ true)
unfolding str_ltb
str_ltb_total [] [] = inr (inl refl)
str_ltb_total [] (b ∷ t) = inl refl
str_ltb_total (a ∷ s) [] = inr (inr refl)
str_ltb_total (a ∷ s) (b ∷ t) = ground (arith, str_ltb_total s t)

insert_sorted : GoString → List GoString → List GoString
insert_sorted s [] = s ∷ []
insert_sorted s (t ∷ ts) =
    let rest = insert_sorted s ts in if str_ltb t s then t ∷ rest else s ∷ t ∷ ts

-- `sort.Strings`
unfoldable pub sort_strings : List GoString → List GoString
unfolding insert_sorted str_ltb
sort_strings [] = []
sort_strings (s ∷ ss) = insert_sorted s (sort_strings ss)

-- Strictly increasing: each item is below all that follow.
abbrev pub Below : GoString → List GoString → Type 0
Below s = All (λ t. str_ltb s t ≡ true)

abbrev pub IsSorted : List GoString → Type 0
IsSorted [] = Unit
IsSorted (s ∷ ss) = Below s ss × IsSorted ss

Below-trans : (s t : GoString) (ts : List GoString) → str_ltb s t ≡ true → Below t ts → Below s ts
Below-trans s t [] h b = tt
Below-trans s t (u ∷ ts) h b = (str_ltb_trans s t u h b.0, Below-trans s t ts h b.1)

Below-insert_sorted :
    (s t : GoString) (ts : List GoString)
    → str_ltb t s ≡ true
    → Below t ts
    → Below t (insert_sorted s ts)
unfolding insert_sorted
Below-insert_sorted s t [] h b = (h, tt)
Below-insert_sorted s t (u ∷ ts) h b = elim (Bool-cases (str_ltb u s)) [
  | inl e ↦ rw e (b.0, Below-insert_sorted s t ts h b.1)
  | inr e ↦ rw e (h, b)
]

insert_sorted-IsSorted :
    (s : GoString) (ts : List GoString) → ¬ In s ts → IsSorted ts → IsSorted (insert_sorted s ts)
unfolding insert_sorted
insert_sorted-IsSorted s [] n h = (tt, tt)
insert_sorted-IsSorted s (t ∷ ts) n h = elim (Bool-cases (str_ltb t s)) [
  | inl e ↦
      rw e (Below-insert_sorted s t ts e h.0, insert_sorted-IsSorted s ts (λ i. n (inr i)) h.1)
  | inr e ↦ rw e (above (str_ltb_total s t) e, h)
]
  where
    above :
        (str_ltb s t ≡ true) ⊎ (s ≡ t) ⊎ (str_ltb t s ≡ true)
        → str_ltb t s ≡ false
        → Below s (t ∷ ts)
    above (inl lt) e = (lt, Below-trans s t ts lt h.0)
    above (inr (inl eq)) e = absurd (n (inl eq))
    above (inr (inr gt)) e = cc

In-insert_sorted :
    (a s : GoString) (ts : List GoString) → In a (insert_sorted s ts) ↔ ((a ≡ s) ⊎ In a ts)
unfolding insert_sorted
In-insert_sorted a s [] = (λ i. i, λ i. i)
In-insert_sorted a s (t ∷ ts) = elim (Bool-cases (str_ltb t s)) [
  | inl e ↦ rw e (swap_first (In-insert_sorted a s ts))
  | inr e ↦ rw e (λ i. i, λ i. i)
]
  where
    swap_first :
        In a (insert_sorted s ts) ↔ ((a ≡ s) ⊎ In a ts)
        → In a (t ∷ insert_sorted s ts) ↔ ((a ≡ s) ⊎ In a (t ∷ ts))
    swap_first (f, g) = (λ i. down f i, λ i. up g i)
      where
        down :
            (In a (insert_sorted s ts) → (a ≡ s) ⊎ In a ts)
            → In a (t ∷ insert_sorted s ts)
            → (a ≡ s) ⊎ In a (t ∷ ts)
        down k (inl e) = inr (inl e)
        down k (inr i) = elim (k i) [ inl e ↦ inl e | inr j ↦ inr (inr j) ]

        up :
            ((a ≡ s) ⊎ In a ts → In a (insert_sorted s ts))
            → (a ≡ s) ⊎ In a (t ∷ ts)
            → In a (t ∷ insert_sorted s ts)
        up k (inl e) = inr (k (inl e))
        up k (inr (inl e)) = inl e
        up k (inr (inr j)) = inr (k (inr j))

pub In-sort_strings : (a : GoString) (ss : List GoString) → In a (sort_strings ss) ↔ In a ss
unfolding sort_strings
In-sort_strings a [] = (λ i. i, λ i. i)
In-sort_strings a (s ∷ ss) =
    join_iff (In-insert_sorted a s (sort_strings ss)) (In-sort_strings a ss)
  where
    join_iff :
        In a (insert_sorted s (sort_strings ss)) ↔ ((a ≡ s) ⊎ In a (sort_strings ss))
        → In a (sort_strings ss) ↔ In a ss
        → In a (insert_sorted s (sort_strings ss)) ↔ In a (s ∷ ss)
    join_iff (f, g) (h, k) = (
      λ i. elim (f i) [ inl e ↦ inl e | inr j ↦ inr (h j) ],
      elim [ inl e ↦ g (inl e) | inr j ↦ g (inr (k j)) ],
    )

abbrev pub Distinct : List GoString → Type 0
Distinct [] = Unit
Distinct (s ∷ ss) = (¬ In s ss) × Distinct ss

pub sort_strings-IsSorted : (ss : List GoString) → Distinct ss → IsSorted (sort_strings ss)
unfolding sort_strings
sort_strings-IsSorted [] d = tt
sort_strings-IsSorted (s ∷ ss) d =
    insert_sorted-IsSorted s (sort_strings ss) (λ i. d.0 ((In-sort_strings s ss).0 i))
      (sort_strings-IsSorted ss d.1)

Below-In : (s a : GoString) (ss : List GoString) → Below s ss → In a ss → str_ltb s a ≡ true
Below-In s a (t ∷ ss) b (inl e) = rw e b.0
Below-In s a (t ∷ ss) b (inr i) = Below-In s a ss b.1 i
Below-In s a [] b i = elim i [ ]

-- the head of a sorted list with the members of another is the other's head
heads_agree :
    (s t : GoString) (ss ts : List GoString)
    → Below s ss
    → Below t ts
    → In s (t ∷ ts)
    → In t (s ∷ ss)
    → s ≡ t
heads_agree s t ss ts b c (inl e) j = e
heads_agree s t ss ts b c (inr i) (inl e) = sym e
heads_agree s t ss ts b c (inr i) (inr j) =
    cc (str_ltb_trans s t s (Below-In s t ss b j) (Below-In t s ts c i), str_ltb_irrefl s)

without_head :
    (s : GoString) (ss ts : List GoString)
    → Below s ss
    → ((a : GoString) → In a (s ∷ ss) → In a (s ∷ ts))
    → (a : GoString) → In a ss
    → In a ts
without_head s ss ts b f a i = drop (f a (inr i))
  where
    drop : In a (s ∷ ts) → In a ts
    drop (inl e) = cc (Below-In s a ss b i, ap (str_ltb s) e, str_ltb_irrefl s)
    drop (inr j) = j

-- A strictly increasing list is determined by its members.
pub IsSorted-unique :
    (ss ts : List GoString)
    → IsSorted ss
    → IsSorted ts
    → ((a : GoString) → In a ss → In a ts)
    → ((a : GoString) → In a ts → In a ss)
    → ss ≡ ts
IsSorted-unique [] [] h k f g = refl
IsSorted-unique [] (t ∷ ts) h k f g = absurd (g t (inl refl))
IsSorted-unique (s ∷ ss) [] h k f g = absurd (f s (inl refl))
IsSorted-unique (s ∷ ss) (t ∷ ts) h k f g =
    let e = heads_agree s t ss ts h.0 k.0 (f s (inl refl)) (g t (inl refl)) in
    let f' = subst (λ u. (a : GoString) → In a (s ∷ ss) → In a (u ∷ ts)) (sym e) f in
    let g' = subst (λ u. (a : GoString) → In a (t ∷ ts) → In a (u ∷ ss)) e g in
    ap₂ (λ x xs. x ∷ xs) e
      (IsSorted-unique ss ts h.1 k.1 (without_head s ss ts h.0 f') (without_head t ts ss k.0 g'))
