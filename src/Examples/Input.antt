-- ===== src/Examples/Input.antt =====
-- Identifiers, manual input and snapshots.
use delegatd.Prelude.{
  ◌≡◌, refl, ◌↔◌, GoString, codes, ok, pos, true, false, contains_byte, length, ◌≤◌, [], ◌∷◌, ◌++◌,
}
use delegatd.Domain.Utf8.{utf8_valid}
use delegatd.Domain.Input.{
  TaskInput, normalize_manual_input, instructions_of, task_source_manual, max_manual_input_size,
}
use delegatd.Domain.Input.Normal.{IsNormal, normalize_manual_input-IsNormal}
use delegatd.Domain.Input.Acceptance.{lines_of, AllBlank, normalize_manual_input-accepts_iff}
use delegatd.Domain.Snapshot.{Snapshot}

abbrev raw_text : GoString
raw_text = 32 ∷ 13 ∷ 10 ∷ codes "fix it" ++ 13 ∷ codes "  now " ++ 13 ∷ 10 ∷ 9 ∷ 10 ∷ []

abbrev normal_text : GoString
normal_text = codes "fix it" ++ 10 ∷ codes "  now "

abbrev normal_input : TaskInput
normal_input = record { version = pos 1; source = task_source_manual; instructions = normal_text }

raw_text_normal : normalize_manual_input raw_text ≡ ok normal_input
unfolding normalize_manual_input instructions_of utf8_valid contains_byte
raw_text_normal = refl

normalize_manual_input-IsNormal_example : IsNormal normal_input
normalize_manual_input-IsNormal_example =
    normalize_manual_input-IsNormal raw_text normal_input raw_text_normal

normalize_manual_input-accepts_iff_example :
    ((input : TaskInput) × (normalize_manual_input raw_text ≡ ok input)) ↔ (
      (length raw_text ≤ max_manual_input_size)
      × (utf8_valid raw_text ≡ true)
      × (contains_byte 0 raw_text ≡ false)
      × ¬ AllBlank (lines_of raw_text))
normalize_manual_input-accepts_iff_example = normalize_manual_input-accepts_iff raw_text

abbrev random_text : GoString
random_text = codes "ABCDEFGHIJKLMNOPQRSTUVWXYZ"

abbrev made : Snapshot
made = record { bytes = codes "text" }
