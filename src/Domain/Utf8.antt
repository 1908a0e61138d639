-- ===== src/Domain/Utf8.antt =====
-- `utf8.Valid`, and how validity passes through the texts that are cut and joined at ASCII bytes.
pub mod Lines
use delegatd.Prelude.{
  ℕ, zero, suc, ◌≤◌, ◌<◌, ◌≡◌, ◌≢◌, refl, ap, sym, ◌∙◌, ◌⊎◌, inl, inr, Bool, true, false, ◌&&◌,
  ◌||◌, Option, none, some, List, [], ◌∷◌, ◌++◌, arith, GoString, All, leb, ltb, eqb, in_range,
  if◌then◌else◌, Bool-cases,
}

-- The ranges of the continuation bytes that a first byte asks for; `none` if no character starts
-- so.
continuations : ℕ → Option (List (ℕ × ℕ))
continuations b =
    if ltb b 0x80
    then some []
    else if in_range 0xC2 0xDF b
    then some ((0x80, 0xBF) ∷ [])
    else if eqb b 0xE0
    then some ((0xA0, 0xBF) ∷ (0x80, 0xBF) ∷ [])
    else if eqb b 0xED
    then some ((0x80, 0x9F) ∷ (0x80, 0xBF) ∷ [])
    else if in_range 0xE1 0xEF b
    then some ((0x80, 0xBF) ∷ (0x80, 0xBF) ∷ [])
    else if eqb b 0xF0
    then some ((0x90, 0xBF) ∷ (0x80, 0xBF) ∷ (0x80, 0xBF) ∷ [])
    else if in_range 0xF1 0xF3 b
    then some ((0x80, 0xBF) ∷ (0x80, 0xBF) ∷ (0x80, 0xBF) ∷ [])
    else if eqb b 0xF4
    then some ((0x80, 0x8F) ∷ (0x80, 0xBF) ∷ (0x80, 0xBF) ∷ [])
    else none

-- The ranges that are still owed; `none` once a byte did not fit.
abbrev pub Pending : Type 0
Pending = Option (List (ℕ × ℕ))

pub next : Pending → ℕ → Pending
unfolding continuations
next none b = none
next (some []) b = continuations b
next (some ((lo, hi) ∷ rs)) b = if in_range lo hi b then some rs else none

-- The text completes the character that is pending, and goes on with whole characters.
pub completes : Pending → GoString → Bool
completes none [] = false
completes (some []) [] = true
completes (some (r ∷ rs)) [] = false
completes p (b ∷ s) = completes (next p b) s

-- The bytes after the character that is pending; `none` if it is malformed.
rune_rest : Pending → GoString → Option GoString
rune_rest none s = none
rune_rest (some []) s = some s
rune_rest (some (r ∷ rs)) [] = none
rune_rest (some (r ∷ rs)) (b ∷ s) = rune_rest (next (some (r ∷ rs)) b) s

-- The bytes after the first character (`utf8.DecodeRuneInString`); `none` if it is malformed.
unfoldable pub after_rune : GoString → Option GoString
unfolding rune_rest continuations next
after_rune [] = none
after_rune (b ∷ s) = rune_rest (continuations b) s

-- `utf8.Valid`
unfoldable pub utf8_valid : GoString → Bool
unfolding next completes
utf8_valid = completes (some [])

-- What is owed are continuation bytes, so no ASCII byte fits.
abbrev pub IsOwed : Pending → Type 0
IsOwed none = Unit
IsOwed (some rs) = All (λ (r : ℕ × ℕ). 0x80 ≤ r.0) rs

continuations-IsOwed : (b : ℕ) → IsOwed (continuations b)
unfolding continuations
continuations-IsOwed b = ground arith

pub next-IsOwed : (p : Pending) (b : ℕ) → IsOwed p → IsOwed (next p b)
unfolding next
next-IsOwed none b h = tt
next-IsOwed (some []) b h = continuations-IsOwed b
next-IsOwed (some ((lo, hi) ∷ rs)) b h = ground arith

completes-none : (s : GoString) → completes none s ≡ false
unfolding completes next
completes-none [] = refl
completes-none (b ∷ s) = completes-none s

continuations-ascii : (b : ℕ) → b < 0x80 → continuations b ≡ some []
unfolding continuations
continuations-ascii b h = ground arith

next-ascii :
    (lo hi : ℕ) (rs : List (ℕ × ℕ)) (b : ℕ)
    → b < 0x80
    → 0x80 ≤ lo
    → next (some ((lo, hi) ∷ rs)) b ≡ none
unfolding next
next-ascii lo hi rs b h l = ground arith

-- At an ASCII byte nothing is pending.
pub completes-ascii :
    (p : Pending) (b : ℕ) (s : GoString)
    → b < 0x80
    → IsOwed p
    → completes p (b ∷ s) ≡ true
    → (p ≡ some []) × (completes (some []) s ≡ true)
unfolding completes next
completes-ascii none b s small h c = cc (completes-none s)
completes-ascii (some []) b s small h c = (refl, rw (continuations-ascii b small) at c)
completes-ascii (some ((lo, hi) ∷ rs)) b s small h c =
    cc (c, completes-none s, ap (λ p. completes p s) (next-ascii lo hi rs b small h.0))

pub completes-cons_ascii :
    (b : ℕ) (s : GoString) → b < 0x80 → completes (some []) (b ∷ s) ≡ completes (some []) s
unfolding completes next
completes-cons_ascii b s h = rw (continuations-ascii b h)

pub completes-cons :
    (p : Pending) (b : ℕ) (s : GoString) → completes p (b ∷ s) ≡ completes (next p b) s
unfolding completes
completes-cons none b s = refl
completes-cons (some []) b s = refl
completes-cons (some (r ∷ rs)) b s = refl

-- Two texts with an ASCII byte between them.
pub completes-append :
    (p : Pending) (l : GoString) (b : ℕ) (s : GoString)
    → b < 0x80
    → completes p l ≡ true
    → completes (some []) s ≡ true
    → completes p (l ++ b ∷ s) ≡ true
completes-append none [] b s small hl hs = cc (completes-none [])
completes-append (some []) [] b s small hl hs = rw (completes-cons_ascii b s small) hs
completes-append (some (r ∷ rs)) [] b s small hl hs = unfold completes in cc
completes-append p (a ∷ l) b s small hl hs =
    completes-cons p a (l ++ b ∷ s)
    ∙ completes-append (next p a) l b s small (sym (completes-cons p a l) ∙ hl) hs
