-- ===== src/Policy/Glob.antt =====
-- `path.Match(segment, "")`, of which the program reads only the error: whether the pattern is
-- well-formed. A segment holds no backslash, since `NormalizeProtectedPath` refuses it before.
use delegatd.Prelude.{
  Bool, true, false, ◌&&◌, ◌||◌, not, List, [], ◌∷◌, GoString, ℕ, zero, suc, length, all, eqb,
  Option, none, some, cons_first, if◌then◌else◌,
}
use delegatd.Domain.Utf8.{after_rune}

-- whether the next byte stands between brackets, as `scanChunk` counts them
abbrev in_brackets : Bool → ℕ → Bool
in_brackets inside b = eqb b b'[' || (inside && not (eqb b b']'))

-- The chunks between the stars that stand outside brackets. Stars in a row give empty chunks, which
-- are well-formed.
chunks : Bool → GoString → List GoString
chunks inside [] = [] ∷ []
chunks inside (b ∷ s) =
    let star = eqb b b'*' && not inside in
    let rest = chunks (in_brackets inside b) s in if star then [] ∷ rest else cons_first b rest

-- `getEsc`: what follows one character of a range; `none` is `ErrBadPattern`.
nonempty_rest : Option GoString → Option GoString
nonempty_rest none = none
nonempty_rest (some []) = none
nonempty_rest (some (b ∷ s)) = some (b ∷ s)

get_esc : GoString → Option GoString
unfolding nonempty_rest
get_esc [] = none
get_esc (b ∷ s) = if eqb b b'-' || eqb b b']' then none else nonempty_rest (after_rune (b ∷ s))

-- the upper end of a range, if a dash follows
range_end : Option GoString → Option GoString
range_end none = none
range_end (some []) = none
range_end (some (b ∷ s)) = if eqb b b'-' then get_esc s else some (b ∷ s)

abbrev closes : Bool → GoString → Bool
closes started [] = false
closes started (b ∷ s) = started && eqb b b']'

abbrev rest_of : GoString → GoString
rest_of [] = []
rest_of (b ∷ s) = s

-- The loop over the ranges of a class: what follows its bracket. Each round reads a byte, so the
-- length of the chunk is fuel enough.
class_rest : ℕ → Bool → GoString → Option GoString
unfolding get_esc range_end
class_rest zero started chunk = none
class_rest (suc fuel) started chunk =
    if closes started chunk
    then some (rest_of chunk)
    else elim (range_end (get_esc chunk)) [ none ↦ none | some rest ↦ class_rest fuel true rest ]

abbrev skip_caret : GoString → GoString
skip_caret [] = []
skip_caret (b ∷ s) = if eqb b b'^' then s else b ∷ s

-- `matchChunk` against the empty name: whether it returns without `ErrBadPattern`.
chunk_ok : ℕ → GoString → Bool
unfolding class_rest
chunk_ok fuel [] = true
chunk_ok zero (b ∷ s) = false
chunk_ok (suc fuel) (b ∷ s) =
    let class : Bool = elim (class_rest (suc (length s)) false (skip_caret s)) [
      | none ↦ false
      | some rest ↦ chunk_ok fuel rest
    ] in
    let plain_rest = chunk_ok fuel s in if eqb b b'[' then class else plain_rest

unfoldable pub glob_ok : GoString → Bool
unfolding chunks chunk_ok
glob_ok pattern = all (λ c. chunk_ok (length c) c) (chunks false pattern)
