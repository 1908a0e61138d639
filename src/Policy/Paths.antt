-- ===== src/Policy/Paths.antt =====
-- internal/policy/resolve.go: `NormalizeInstructionPath` and `NormalizeProtectedPath`.
pub mod Normal
use delegatd.Prelude.{
  ◌≡◌, refl, Bool, true, false, ◌&&◌, ◌||◌, not, List, [], ◌∷◌, arith, GoString, codes, ℕ, ◌==◌,
  is_empty, contains_any, contains_text, has_prefix, has_suffix, split, trim_space, Result, ok, err,
  plain, if◌then◌else◌,
}
use delegatd.Policy.Glob.{glob_ok}

abbrev pub is_dots : GoString → Bool
is_dots segment = is_empty segment || segment == codes "." || segment == codes ".."

abbrev pub double_star : GoString
double_star = codes "**"

-- the characters that `ContainsAny` refuses in a protected path and in an instruction path
abbrev pub path_cut : GoString
path_cut = 92 ∷ 0 ∷ []

abbrev pub literal_cut : GoString
literal_cut = 92 ∷ 0 ∷ codes "*?["

-- the first test of both functions fails
abbrev pub is_relative : GoString → GoString → Bool
is_relative cut value = not (
    is_empty value
    || contains_any value cut
    || has_prefix value (codes "/")
    || has_suffix value (codes "/"))

abbrev pub all_segments : (GoString → Bool) → List GoString → Bool
all_segments p [] = true
all_segments p (s ∷ ss) = p s && all_segments p ss

abbrev pub is_literal_segment : GoString → Bool
is_literal_segment segment = not (is_dots segment)

unfoldable pub normalize_instruction_path : GoString → Result GoString
normalize_instruction_path raw =
    let value = trim_space raw in
    if is_relative literal_cut value && all_segments is_literal_segment (split b'/' value)
    then ok value
    else err (plain (codes "invalid instruction path"))

-- One round of the loop: the segment passes, by `continue` or by all its tests.
abbrev pub is_glob_segment : GoString → Bool
is_glob_segment segment =
    not (is_dots segment)
    && (segment == double_star || (not (contains_text segment double_star) && glob_ok segment))

unfoldable pub normalize_protected_path : GoString → Result GoString
normalize_protected_path raw =
    let value = trim_space raw in
    if is_relative path_cut value && all_segments is_glob_segment (split b'/' value)
    then ok value
    else err (plain (codes "invalid protected path"))
