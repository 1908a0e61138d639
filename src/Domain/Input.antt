-- ===== src/Domain/Input.antt =====
-- internal/domain/task.go: `NormalizeManualInput`.
pub mod Lines
pub mod Normal
pub mod Acceptance
use delegatd.Prelude.{
  ℕ, zero, suc, ◌≤◌, ◌<◌, ◌≡◌, ◌≢◌, refl, ◌⊎◌, inl, inr, Bool, true, false, ◌&&◌, ◌||◌, not, Option,
  none, some, List, [], ◌∷◌, ◌++◌, arith, GoString, codes, All, leb, ltb, eqb, in_range,
  if◌then◌else◌, Bool-cases, split, join, trim_space, trim_left, trim_right, is_empty, Result, ok,
  err, plain, length, contains_byte, ℤ, pos,
}
use delegatd.Domain.Utf8.{utf8_valid}

abbrev pub max_manual_input_size : ℕ
max_manual_input_size = 1048576

abbrev pub task_source_manual : GoString
task_source_manual = codes "manual"

pub record TaskInput : Type 0 where
  pub version : ℤ
  pub source : GoString
  pub instructions : GoString

-- `strings.ReplaceAll(s, "\r\n", "\n")`
pub replace_crlf : GoString → GoString
replace_crlf [] = []
replace_crlf (a ∷ []) = a ∷ []
replace_crlf (a ∷ b ∷ s) =
    let pair = 10 ∷ replace_crlf s in
    let single = a ∷ replace_crlf (b ∷ s) in if eqb a 13 && eqb b 10 then pair else single

-- `strings.ReplaceAll(s, "\r", "\n")`
pub replace_cr : GoString → GoString
replace_cr [] = []
replace_cr (a ∷ s) = (if eqb a 13 then 10 else a) ∷ replace_cr s

abbrev pub is_blank : GoString → Bool
is_blank line = is_empty (trim_space line)

-- the loop that moves `start`
pub drop_blank : List GoString → List GoString
drop_blank [] = []
drop_blank (l ∷ ls) = let rest = drop_blank ls in if is_blank l then rest else l ∷ ls

-- one line in front of the lines that the loop on `end` has kept
pub keep_line : GoString → List GoString → List GoString
keep_line l [] = if is_blank l then [] else l ∷ []
keep_line l (m ∷ ls) = l ∷ m ∷ ls

-- the loop that moves `end`: the lines without the blank ones at their end
pub drop_blank_end : List GoString → List GoString
drop_blank_end [] = []
drop_blank_end (l ∷ ls) = keep_line l (drop_blank_end ls)

-- `lines[start:end]` joined again
unfoldable pub instructions_of : GoString → GoString
unfolding replace_crlf replace_cr drop_blank keep_line drop_blank_end split join trim_space
    trim_left trim_right
instructions_of raw =
    join 10 (drop_blank_end (drop_blank (split 10 (replace_cr (replace_crlf raw)))))

abbrev pub input_too_large : GoString
input_too_large = codes "manual input exceeds 1 MiB"

unfoldable pub normalize_manual_input : GoString → Result TaskInput
normalize_manual_input raw =
    if ltb max_manual_input_size (length raw)
    then err (plain input_too_large)
    else if not (utf8_valid raw) || contains_byte 0 raw
    then err (plain (codes "manual input is invalid"))
    else let instructions = instructions_of raw in
      if is_empty instructions
      then err (plain (codes "manual input is empty"))
      else if ltb max_manual_input_size (length instructions)
      then err (plain input_too_large)
      else ok (record { version = pos 1; source = task_source_manual; instructions = instructions })
