-- ===== src/Policy/Names/Parts.antt =====
-- The automaton of action names against the reading of the pattern by its parts.
use delegatd.Prelude.{
  ◌≡◌, ◌≢◌, refl, Bool, true, false, ◌&&◌, ◌||◌, List, [], ◌∷◌, arith, GoString, ℕ, length, all,
  leb, eqb, split, split-ne-nil, cons_first,
}
use delegatd.Policy.Names.{is_lower, is_word, scan_name, is_action_name}

-- `[a-z][a-z0-9_]*`
abbrev pub is_part : GoString → Bool
is_part [] = false
is_part (b ∷ s) = is_lower b && all is_word s

-- The first part has begun already.
abbrev inner_parts : List GoString → Bool
inner_parts [] = false
inner_parts (l ∷ ls) = all is_word l && all is_part ls

abbrev two_parts : Bool → List GoString → Bool
two_parts dotted ls = dotted || leb 2 (length ls)

dot_no_word : (b : ℕ) → eqb b b'.' ≡ true → (is_lower b ≡ false) × (is_word b ≡ false)
dot_no_word b h = ground arith

and_assoc : (a b c : Bool) → (a && b && c) ≡ (a && (b && c))
and_assoc a b c = ground arith

part-cons_first :
    (b : ℕ) (ls : List GoString)
    → ls ≢ []
    → (all is_part (cons_first b ls) ≡ (is_lower b && inner_parts ls))
      × (inner_parts (cons_first b ls) ≡ (is_word b && inner_parts ls))
      × (length (cons_first b ls) ≡ length ls)
unfolding cons_first
part-cons_first b [] h = absurd (h refl)
part-cons_first b (l ∷ ls) h = (
  and_assoc (is_lower b) (all is_word l) (all is_part ls),
  and_assoc (is_word b) (all is_word l) (all is_part ls),
  refl,
)

two_more : (dotted : Bool) (ls : List GoString) → ls ≢ [] → two_parts dotted ([] ∷ ls) ≡ true
two_more dotted [] h = absurd (h refl)
two_more dotted (l ∷ ls) h = ground arith

mutual
  unfolding scan_name split

  scan_outside :
      (s : GoString) (dotted : Bool)
      → scan_name dotted false s ≡ (all is_part (split b'.' s) && two_parts dotted (split b'.' s))
  scan_outside [] dotted = ground arith
  scan_outside (b ∷ s) dotted = ground (
    arith,
    scan_inside s dotted,
    dot_no_word b,
    part-cons_first b (split b'.' s),
    split-ne-nil b'.' s,
  )

  scan_inside :
      (s : GoString) (dotted : Bool)
      → scan_name dotted true s ≡ (inner_parts (split b'.' s) && two_parts dotted (split b'.' s))
  scan_inside [] dotted = ground arith
  scan_inside (b ∷ s) dotted = ground (
    arith,
    scan_outside s true,
    scan_inside s dotted,
    dot_no_word b,
    part-cons_first b (split b'.' s),
    split-ne-nil b'.' s,
    two_more dotted (split b'.' s),
  )

-- A name matches the pattern exactly when it has two or more parts between its dots, each a lower
-- case letter followed by lower case letters, digits and underscores.
pub is_action_name-parts :
    (s : GoString)
    → is_action_name s ≡ (all is_part (split b'.' s) && leb 2 (length (split b'.' s)))
unfolding is_action_name
is_action_name-parts s = scan_outside s false
