-- ===== src/Policy/Names.antt =====
-- `actionNamePattern` of internal/policy/resolve.go, as the automaton of the regular expression.
pub mod Parts
use delegatd.Prelude.{
  ◌≡◌, refl, ◌↔◌, Bool, true, false, not, ◌&&◌, ◌||◌, List, [], ◌∷◌, arith, GoString, codes, ℕ,
  length, all, leb, eqb, in_range, split, cons_first, if◌then◌else◌, Bool-cases, inl, inr, ltb,
}

-- `[a-z]` and `[a-z0-9_]`
abbrev pub is_lower : ℕ → Bool
is_lower b = in_range b'a' b'z' b

abbrev pub is_word : ℕ → Bool
is_word b = is_lower b || in_range b'0' b'9' b || eqb b b'_'

-- The states: `dotted` once a dot was read, `inside` within a part.
pub scan_name : Bool → Bool → GoString → Bool
scan_name dotted inside [] = dotted && inside
scan_name dotted false (b ∷ s) = is_lower b && scan_name dotted true s
scan_name dotted true (b ∷ s) =
    let dot = eqb b b'.' in
    let rest = scan_name (dotted || dot) (not dot) s in (dot || is_word b) && rest

-- `^[a-z][a-z0-9_]*(\.[a-z][a-z0-9_]*)+$`
unfoldable pub is_action_name : GoString → Bool
unfolding scan_name
is_action_name = scan_name false false
