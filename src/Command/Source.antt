-- ===== src/Command/Source.antt =====
-- The text that a task is submitted with is the whole of its source.
use delegatd.Prelude.{
  ◌≡◌, ap, sym, ◌∙◌, arith, not, GoString, codes, ◌==◌, is_empty, take_whole, length, ltb, Option,
  none, some, Result, ok, err, ok_injective, if◌then◌else◌, Bool-cases, inl, inr, >>=-eq-ok,
}
use delegatd.Memory.{guard}
use delegatd.Domain.Input.{TaskInput, normalize_manual_input}
use delegatd.Command.Input.{
  max_task_input_size, Stdin, completed, cancelled, InputFile, limited, unless_failed, within_limit,
  read_stdin, regular, read_file, read_raw, normalized, read_task_input,
}

-- The whole text of the standard input, if it was read.
abbrev pub stdin_text : Option Stdin → Option GoString
stdin_text none = none
stdin_text (some (cancelled e)) = none
stdin_text (some (completed text read)) = some text

-- The whole text of the source that the flags name, without any limit.
abbrev pub source_text :
    (GoString → InputFile) → Option Stdin → GoString → GoString → Option GoString
source_text files stdin inline_value file_value =
    if is_empty file_value
    then some inline_value
    else if file_value == codes "-"
    then stdin_text stdin
    else some (files file_value).text

within_limit-ok : (s : GoString) {raw : GoString} → within_limit (limited s) ≡ ok raw → s ≡ raw
within_limit-ok s h = elim (Bool-cases (ltb max_task_input_size (length (limited s)))) [
  | inl e ↦ cc (rw e at h)
  | inr e ↦ sym (take_whole 1048577 s (ground arith)) ∙ ok_injective (rw e at h)
]

read_stdin-whole :
    (stdin : Option Stdin) {raw : GoString}
    → read_stdin stdin ≡ ok raw
    → stdin_text stdin ≡ some raw
unfolding read_stdin
read_stdin-whole none h = cc
read_stdin-whole (some (cancelled e)) h = cc
read_stdin-whole (some (completed text read)) h =
    let (u, h1, h2) = >>=-eq-ok (unless_failed read) _ h in ap some (within_limit-ok text h2)

read_file-whole : (file : InputFile) {raw : GoString} → read_file file ≡ ok raw → file.text ≡ raw
unfolding read_file
read_file-whole file h =
    let (size, h1, k1) = >>=-eq-ok (regular file.stat) _ h in
    let (u2, h2, k2) = >>=-eq-ok (guard (not (ltb max_task_input_size size)) _) _ k1 in
    let (u3, h3, k3) = >>=-eq-ok (unless_failed file.opened) _ k2 in
    let (u4, h4, k4) = >>=-eq-ok (unless_failed file.read) _ k3 in
    let (u5, h5, k5) = >>=-eq-ok (unless_failed file.close) _ k4 in within_limit-ok file.text k5

read_raw-whole :
    (files : GoString → InputFile) (stdin : Option Stdin) (inline_value file_value raw : GoString)
    → read_raw files stdin inline_value file_value ≡ ok raw
    → source_text files stdin inline_value file_value ≡ some raw
unfolding read_raw
read_raw-whole files stdin inline_value file_value raw h = elim (Bool-cases (is_empty file_value)) [
  | inl e ↦ rw e (ap some (ok_injective (rw e at h)))
  | inr e ↦ elim (Bool-cases (file_value == codes "-")) [
    | inl d ↦ rw e (rw d (read_stdin-whole stdin (rw (e, d) at h)))
    | inr d ↦ rw e (rw d (ap some (read_file-whole (files file_value) (rw (e, d) at h))))
  ]
]

normalized-ok : (r : Result TaskInput) {input : TaskInput} → normalized r ≡ ok input → r ≡ ok input
normalized-ok (ok i) h = h
normalized-ok (err e) h = cc

-- An input that `readTaskInput` accepts is what `NormalizeManualInput` makes of the whole text of
-- its source, although the standard input and files are read through a limit.
pub read_task_input-whole :
    (files : GoString → InputFile) (stdin : Option Stdin) (inline_value file_value : GoString)
    (input : TaskInput)
    → read_task_input files stdin inline_value file_value ≡ ok input
    → (raw : GoString) × (source_text files stdin inline_value file_value ≡ some raw)
      × (normalize_manual_input raw ≡ ok input)
unfolding read_task_input
read_task_input-whole files stdin inline_value file_value input h =
    let (raw, h1, h2) = >>=-eq-ok (read_raw files stdin inline_value file_value) _ h in
    (raw, read_raw-whole files stdin inline_value file_value raw h1, normalized-ok _ h2)
