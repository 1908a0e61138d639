-- ===== src/Prelude/Text.antt =====
-- Go strings and byte slices: lists of bytes. The functions are those of the `strings` package that
-- the program calls, at the separators and cut sets that it calls them with.
use Prim.Native.Nat.{ℕ, ◌+◌}
use Prim.Native.Char.{code}
use Prim.Native.String.{String}
use mathlib.Core.Path.{◌≡◌, refl}
use mathlib.Core.Logic.{◌≢◌, ◌↔◌}
use mathlib.Core.Bool.{Bool, true, false, ◌&&◌, ◌||◌}
use mathlib.Core.List.{List, [], ◌∷◌, reverse}
use native.Mathlib.Omega.{arith}
use delegatd.Prelude.Tests.{leb, eqb, if◌then◌else◌}

abbrev pub GoString : Type 0
GoString = List ℕ

-- A literal of the source: its bytes, where it is ASCII.
abbrev pub codes : String → GoString
codes String.[] = []
codes (String.◌∷◌ c s) = code c ∷ codes s

infix 50 ◌==◌
unfoldable pub ◌==◌ : GoString → GoString → Bool
[] == [] = true
[] == (b ∷ t) = false
(a ∷ s) == [] = false
(a ∷ s) == (b ∷ t) = eqb a b && s == t

pub eq_refl : (s : GoString) → (s == s) ≡ true
unfolding ◌==◌
eq_refl [] = refl
eq_refl (a ∷ s) = ground (arith, eq_refl s)

pub eq_of_eq : (s t : GoString) → (s == t) ≡ true → s ≡ t
unfolding ◌==◌
eq_of_eq [] [] h = refl
eq_of_eq [] (b ∷ t) h = cc
eq_of_eq (a ∷ s) [] h = cc
eq_of_eq (a ∷ s) (b ∷ t) h = ground (arith, eq_of_eq s t)

pub eq_iff : (s t : GoString) → ((s == t) ≡ true) ↔ (s ≡ t)
eq_iff s t = (eq_of_eq s t, λ e. rw e (eq_refl t))

pub differ : (s t : GoString) → (s == t) ≡ false → s ≢ t
differ s t h e = cc (h, (eq_iff s t).1 e)

abbrev pub is_empty : GoString → Bool
is_empty [] = true
is_empty (a ∷ s) = false

-- `bytes.IndexByte(s, c) >= 0`
unfoldable pub contains_byte : ℕ → GoString → Bool
contains_byte c [] = false
contains_byte c (a ∷ s) = eqb a c || contains_byte c s

-- `strings.ContainsAny(s, cut)`, for an ASCII cut set
unfoldable pub contains_any : GoString → GoString → Bool
unfolding contains_byte
contains_any s [] = false
contains_any s (c ∷ cut) = contains_byte c s || contains_any s cut

-- `strings.HasPrefix(s, prefix)`
unfoldable pub has_prefix : GoString → GoString → Bool
has_prefix s [] = true
has_prefix [] (p ∷ prefix) = false
has_prefix (a ∷ s) (p ∷ prefix) = eqb a p && has_prefix s prefix

-- `strings.HasSuffix(s, suffix)`
unfoldable pub has_suffix : GoString → GoString → Bool
unfolding has_prefix
has_suffix s suffix = has_prefix (reverse s) (reverse suffix)

-- `strings.Contains(s, part)`
unfoldable pub contains_text : GoString → GoString → Bool
unfolding has_prefix
contains_text [] part = is_empty part
contains_text (a ∷ s) part = has_prefix (a ∷ s) part || contains_text s part

-- `strings.ToLower` and `strings.ToUpper` on an ASCII byte
unfoldable pub lower_byte : ℕ → ℕ
lower_byte a = if leb b'A' a && leb a b'Z' then a + 32 else a

abbrev pub in_range : ℕ → ℕ → ℕ → Bool
in_range lo hi a = leb lo a && leb a hi
