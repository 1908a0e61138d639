-- ===== src/Policy/Paths/Normal.antt =====
-- What the accepted paths look like, and that normalizing them again changes nothing.
use delegatd.Prelude.{
  ◌≡◌, ap, ◌∙◌, sym, Bool, true, false, List, [], ◌∷◌, arith, GoString, codes, ℕ, contains_any,
  contains_byte, eq_iff, All, ◌≢◌, split, trim_space, trim_space_twice, ok,
}
use delegatd.Policy.Paths.{
  is_relative, literal_cut, path_cut, all_segments, is_literal_segment, is_glob_segment, is_dots,
  normalize_instruction_path, normalize_protected_path,
}

-- A relative path whose segments all pass.
pub record IsPath (cut : GoString) (segment_ok : GoString → Bool) (value : GoString) : Type 0 where
  pub relative : is_relative cut value ≡ true
  pub segments : all_segments segment_ok (split b'/' value) ≡ true
  pub trimmed : trim_space value ≡ value

pub normalize_protected_path-inversion :
    (raw value : GoString)
    → normalize_protected_path raw ≡ ok value
    → (trim_space raw ≡ value)
      × (is_relative path_cut (trim_space raw) ≡ true)
      × (all_segments is_glob_segment (split b'/' (trim_space raw)) ≡ true)
unfolding normalize_protected_path
normalize_protected_path-inversion raw value h = ground arith

normalize_instruction_path-inversion :
    (raw value : GoString)
    → normalize_instruction_path raw ≡ ok value
    → (trim_space raw ≡ value)
      × (is_relative literal_cut (trim_space raw) ≡ true)
      × (all_segments is_literal_segment (split b'/' (trim_space raw)) ≡ true)
unfolding normalize_instruction_path
normalize_instruction_path-inversion raw value h = ground arith

protected-IsPath-IsPath :
    (raw value : GoString)
    → normalize_protected_path raw ≡ ok value
    → IsPath path_cut is_glob_segment value
protected-IsPath-IsPath raw value h =
    let (e, r, s) = normalize_protected_path-inversion raw value h in
    record {
      relative = rw e at r;
      segments = rw e at s;
      trimmed = ap trim_space (sym e) ∙ trim_space_twice raw ∙ e;
    }

instruction-IsPath-IsPath :
    (raw value : GoString)
    → normalize_instruction_path raw ≡ ok value
    → IsPath literal_cut is_literal_segment value
instruction-IsPath-IsPath raw value h =
    let (e, r, s) = normalize_instruction_path-inversion raw value h in
    record {
      relative = rw e at r;
      segments = rw e at s;
      trimmed = ap trim_space (sym e) ∙ trim_space_twice raw ∙ e;
    }

-- An accepted protected path is accepted again, as it is.
pub normalize_protected_path_twice :
    (raw value : GoString)
    → normalize_protected_path raw ≡ ok value
    → normalize_protected_path value ≡ ok value
unfolding normalize_protected_path
normalize_protected_path_twice raw value h =
    let p = protected-IsPath-IsPath raw value h in rw p.trimmed (rw (p.relative, p.segments))

-- An accepted instruction path is accepted again, as it is.
pub normalize_instruction_path_twice :
    (raw value : GoString)
    → normalize_instruction_path raw ≡ ok value
    → normalize_instruction_path value ≡ ok value
unfolding normalize_instruction_path
normalize_instruction_path_twice raw value h =
    let p = instruction-IsPath-IsPath raw value h in rw p.trimmed (rw (p.relative, p.segments))

-- A segment that stays below the directory it starts in.
abbrev pub IsInner : GoString → Type 0
IsInner segment = (segment ≢ []) × (segment ≢ codes ".") × (segment ≢ codes "..")

not_dots-IsInner : (segment : GoString) → is_dots segment ≡ false → IsInner segment
not_dots-IsInner segment h = ground (arith, eq_iff segment (codes "."), eq_iff segment (codes ".."))

all_segments-IsInner :
    (p : GoString → Bool)
    → ((s : GoString) → p s ≡ true → is_dots s ≡ false)
    → (ss : List GoString) → all_segments p ss ≡ true
    → All IsInner ss
all_segments-IsInner p f [] h = tt
all_segments-IsInner p f (s ∷ ss) h =
    (not_dots-IsInner s (f s (ground arith)), all_segments-IsInner p f ss (ground arith))

lacks_cut :
    (value : GoString) (a b : ℕ) (cut : GoString)
    → is_relative (a ∷ b ∷ cut) value ≡ true
    → (contains_byte a value ≡ false) × (contains_byte b value ≡ false)
unfolding contains_any
lacks_cut value a b cut h = ground arith

-- An accepted protected path holds no backslash and no NUL, and each of its segments is other than
-- "", "." and "..", so it names something below the root of the repository.
pub normalize_protected_path-IsInner :
    (raw value : GoString)
    → normalize_protected_path raw ≡ ok value
    → (contains_byte 92 value ≡ false)
      × (contains_byte 0 value ≡ false)
      × All IsInner (split b'/' value)
normalize_protected_path-IsInner raw value h =
    let p = protected-IsPath-IsPath raw value h in
    let (b, n) = lacks_cut value 92 0 [] p.relative in
    (b, n, all_segments-IsInner is_glob_segment (λ s q. ground arith) (split b'/' value) p.segments)

lacks_globs :
    (value : GoString)
    → is_relative (92 ∷ 0 ∷ codes "*?[") value ≡ true
    → contains_any value (codes "*?[") ≡ false
unfolding contains_any
lacks_globs value h = ground arith

-- An accepted instruction path holds no backslash, no NUL and none of the glob characters `*`, `?`
-- and `[`, and each of its segments is other than "", "." and "..", so it names one file below the
-- root of the repository.
pub normalize_instruction_path-IsInner :
    (raw value : GoString)
    → normalize_instruction_path raw ≡ ok value
    → (contains_byte 92 value ≡ false)
      × (contains_byte 0 value ≡ false)
      × (contains_any value (codes "*?[") ≡ false)
      × All IsInner (split b'/' value)
normalize_instruction_path-IsInner raw value h =
    let p = instruction-IsPath-IsPath raw value h in
    let (b, n) = lacks_cut value 92 0 (codes "*?[") p.relative in
    (
      b,
      n,
      lacks_globs value p.relative,
      all_segments-IsInner is_literal_segment (λ s q. ground arith) (split b'/' value) p.segments,
    )
