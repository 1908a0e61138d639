-- ===== src/Prelude/Space.antt =====
-- `strings.TrimSpace`: the white space of Unicode, read from its UTF-8 bytes.
use delegatd.Prelude.Tests.{eqb, leb, if◌then◌else◌}
use delegatd.Prelude.Text.{GoString}
use Prim.Native.Nat.{ℕ, zero, suc, ◌-◌}
use mathlib.Core.Bool.{Bool, ◌&&◌, ◌||◌}
use mathlib.Core.List.{[], ◌∷◌, reverse}

-- tab, line feed, vertical tab, form feed, carriage return and space
abbrev is_ascii_space : ℕ → Bool
is_ascii_space a = (leb 9 a && leb a 13) || eqb a 32

-- U+0085 and U+00A0
abbrev is_space_pair : ℕ → ℕ → Bool
is_space_pair a b = eqb a 0xC2 && (eqb b 0x85 || eqb b 0xA0)

-- U+1680, U+2000 to U+200A, U+2028, U+2029, U+202F, U+205F and U+3000
abbrev is_space_triple : ℕ → ℕ → ℕ → Bool
is_space_triple a b c =
    (eqb a 0xE1 && eqb b 0x9A && eqb c 0x80)
    || (eqb a 0xE2
        && eqb b 0x80
        && ((leb 0x80 c && leb c 0x8A) || eqb c 0xA8 || eqb c 0xA9 || eqb c 0xAF))
    || (eqb a 0xE2 && eqb b 0x81 && eqb c 0x9F)
    || (eqb a 0xE3 && eqb b 0x80 && eqb c 0x80)

-- how many bytes the white-space character at the front takes, 0 if there is none
unfoldable pub space_width : GoString → ℕ
space_width [] = 0
space_width (a ∷ []) = if is_ascii_space a then 1 else 0
space_width (a ∷ b ∷ []) = if is_ascii_space a then 1 else if is_space_pair a b then 2 else 0
space_width (a ∷ b ∷ c ∷ s) =
    if is_ascii_space a
    then 1
    else if is_space_pair a b
    then 2
    else if is_space_triple a b c
    then 3
    else 0

-- the same at the end, for the text read backwards
unfoldable pub space_width_back : GoString → ℕ
space_width_back [] = 0
space_width_back (c ∷ []) = if is_ascii_space c then 1 else 0
space_width_back (c ∷ b ∷ []) = if is_ascii_space c then 1 else if is_space_pair b c then 2 else 0
space_width_back (c ∷ b ∷ a ∷ s) =
    if is_ascii_space c
    then 1
    else if is_space_pair b c
    then 2
    else if is_space_triple a b c
    then 3
    else 0

-- Drops the bytes still owed, and then every character that `width` measures at the front.
unfoldable pub drop_space : (GoString → ℕ) → ℕ → GoString → GoString
drop_space width owed [] = []
drop_space width (suc owed) (a ∷ s) = drop_space width owed s
drop_space width zero (a ∷ s) =
    let k = width (a ∷ s) in
    let rest = drop_space width (k - 1) s in if eqb k 0 then a ∷ s else rest

unfoldable pub trim_left : GoString → GoString
unfolding drop_space space_width
trim_left = drop_space space_width 0

unfoldable pub trim_right : GoString → GoString
unfolding drop_space space_width_back
trim_right s = reverse (drop_space space_width_back 0 (reverse s))

-- `strings.TrimSpace(s)`
unfoldable pub trim_space : GoString → GoString
trim_space s = trim_right (trim_left s)
