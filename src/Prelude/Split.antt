-- ===== src/Prelude/Split.antt =====
-- `strings.Split` and `strings.Join` at a separator of one byte, and how they undo each other.
use delegatd.Prelude.Tests.{Bool-cases, eqb, if◌then◌else◌}
use delegatd.Prelude.Lists.{All}
use delegatd.Prelude.Text.{GoString, contains_byte}
use Prim.Native.Nat.{ℕ}
use mathlib.Core.Path.{◌≡◌, refl, ap, ◌∙◌}
use mathlib.Core.Logic.{◌≢◌, inl, inr}
use mathlib.Core.Bool.{false}
use mathlib.Core.List.{List, [], ◌∷◌, ◌++◌}
use native.Mathlib.Omega.{arith}

-- one more byte at the front of the first part
unfoldable pub cons_first : ℕ → List GoString → List GoString
cons_first b [] = (b ∷ []) ∷ []
cons_first b (l ∷ ls) = (b ∷ l) ∷ ls

-- `strings.Split(s, string(c))`
unfoldable pub split : ℕ → GoString → List GoString
unfolding cons_first
split c [] = [] ∷ []
split c (b ∷ s) = let rest = split c s in if eqb b c then [] ∷ rest else cons_first b rest

-- `strings.Join(parts, string(c))`
unfoldable pub join : ℕ → List GoString → GoString
join c [] = []
join c (l ∷ []) = l
join c (l ∷ m ∷ ls) = l ++ c ∷ join c (m ∷ ls)

cons_first-ne-nil : (b : ℕ) (ls : List GoString) → cons_first b ls ≢ []
unfolding cons_first
cons_first-ne-nil b [] e = cc
cons_first-ne-nil b (l ∷ ls) e = cc

pub split-ne-nil : (c : ℕ) (s : GoString) → split c s ≢ []
unfolding split
split-ne-nil c [] e = cc
split-ne-nil c (b ∷ s) e = ground (arith, cons_first-ne-nil b (split c s))

join-cons_first :
    (c b : ℕ) (ls : List GoString) → ls ≢ [] → join c (cons_first b ls) ≡ b ∷ join c ls
unfolding join cons_first
join-cons_first c b [] h = absurd (h refl)
join-cons_first c b (l ∷ []) h = refl
join-cons_first c b (l ∷ m ∷ ls) h = refl

join-nil_cons : (c : ℕ) (ls : List GoString) → ls ≢ [] → join c ([] ∷ ls) ≡ c ∷ join c ls
unfolding join
join-nil_cons c [] h = absurd (h refl)
join-nil_cons c (l ∷ ls) h = refl

join-split_step :
    (c b : ℕ) (s : GoString) → join c (split c s) ≡ s → join c (split c (b ∷ s)) ≡ b ∷ s
unfolding split
join-split_step c b s ih =
    ground
      (arith, ih, split-ne-nil c s, join-cons_first c b (split c s), join-nil_cons c (split c s))

-- Joining what was split gives the text back.
pub join-split : (c : ℕ) (s : GoString) → join c (split c s) ≡ s
join-split c [] = unfold split join in refl
join-split c (b ∷ s) = join-split_step c b s (join-split c s)

-- No part of a split holds the separator.
All-cons_first :
    (c b : ℕ) (ls : List GoString)
    → eqb b c ≡ false
    → All (λ l. contains_byte c l ≡ false) ls
    → All (λ l. contains_byte c l ≡ false) (cons_first b ls)
unfolding cons_first contains_byte
All-cons_first c b [] h a = ground arith
All-cons_first c b (l ∷ ls) h a = ground arith

pub split-lacks : (c : ℕ) (s : GoString) → All (λ l. contains_byte c l ≡ false) (split c s)
unfolding split
split-lacks c [] = unfold contains_byte in (refl, tt)
split-lacks c (b ∷ s) = elim (Bool-cases (eqb b c)) [
  | inl e ↦ rw e (unfold contains_byte in refl, split-lacks c s)
  | inr e ↦ rw e (All-cons_first c b (split c s) e (split-lacks c s))
]

split-append :
    (c : ℕ) (l s : GoString) → contains_byte c l ≡ false → split c (l ++ c ∷ s) ≡ l ∷ split c s
unfolding split contains_byte
split-append c [] s h = ground arith
split-append c (b ∷ l) s h = ground (arith, split-append c l s)

split-part : (c : ℕ) (l : GoString) → contains_byte c l ≡ false → split c l ≡ l ∷ []
unfolding split contains_byte
split-part c [] h = refl
split-part c (b ∷ l) h = ground (arith, split-part c l)

-- Splitting what was joined gives the parts back.
pub split-join :
    (c : ℕ) (ls : List GoString)
    → ls ≢ []
    → All (λ l. contains_byte c l ≡ false) ls
    → split c (join c ls) ≡ ls
unfolding join
split-join c [] h a = absurd (h refl)
split-join c (l ∷ []) h a = split-part c l a.0
split-join c (l ∷ m ∷ ls) h a =
    split-append c l (join c (m ∷ ls)) a.0 ∙ ap (λ r. l ∷ r) (split-join c (m ∷ ls) (λ e. cc) a.1)
