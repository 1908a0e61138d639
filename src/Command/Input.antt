-- ===== src/Command/Input.antt =====
-- `readTaskInput` of cmd/delegatd/main.go: the text of a task, from the command line, the standard
-- input or a file.
use delegatd.Prelude.{
  ℕ, Bool, true, false, not, GoString, codes, ◌==◌, is_empty, contains_text, take, length, ltb,
  Option, none, some, Result, ok, err, GoError, plain, sentinel, typed, wrapped, failure,
  if◌then◌else◌, ◌>>=◌, ◌>>◌,
}
use delegatd.Memory.{guard}
use delegatd.Domain.Input.{TaskInput, normalize_manual_input}
use delegatd.Control.Failure.{new_failure, task_cancelled}

abbrev pub max_task_input_size : ℕ
max_task_input_size = 1048576

abbrev pub unreadable : GoString
unreadable = codes "task input is unreadable"

abbrev pub exceeds : GoString
exceeds = codes "task input exceeds 1 MiB"

-- What the goroutine that reads the standard input and the context do first: reading completes,
-- with the text and the error, or the context is done, with its error.
pub data Stdin : Type 0 where
  completed : GoString → Option GoError → Stdin
  cancelled : GoError → Stdin

-- What the operating system answers about a file: `Stat`, with whether it is a regular file and its
-- size, `Open`, the text, and the errors of reading and closing.
pub record InputFile : Type 0 where
  pub stat : Result (Bool × ℕ)
  pub opened : Option GoError
  pub text : GoString
  pub read : Option GoError
  pub close : Option GoError

-- `io.LimitReader(…, maxTaskInputSize+1)`
abbrev pub limited : GoString → GoString
limited text = take 1048577 text

-- `control.NewFailure(reason, err)` around a failed call
abbrev pub unless_failed : Option GoError → Result (Unit {0})
unless_failed none = ok tt
unless_failed (some e) = err (new_failure unreadable e)

-- the test of the size, after reading
abbrev pub within_limit : GoString → Result GoString
within_limit raw =
    if ltb max_task_input_size (length raw) then err (typed failure exceeds) else ok raw

unfoldable pub read_stdin : Option Stdin → Result GoString
read_stdin none = err (new_failure unreadable (plain (codes "stdin is unavailable")))
read_stdin (some (cancelled e)) = err (new_failure task_cancelled e)
read_stdin (some (completed text read)) = do unless_failed read; within_limit (limited text)

abbrev pub regular : Result (Bool × ℕ) → Result ℕ
regular (err e) = err (new_failure unreadable e)
regular (ok (false, size)) =
    err (new_failure unreadable (plain (codes "task input is not a regular file")))
regular (ok (true, size)) = ok size

unfoldable pub read_file : InputFile → Result GoString
read_file file = do
  size ← regular file.stat
  guard (not (ltb max_task_input_size size)) (typed failure exceeds)
  unless_failed file.opened
  unless_failed file.read
  unless_failed file.close
  within_limit (limited file.text)

unfoldable pub read_raw :
    (GoString → InputFile) → Option Stdin → GoString → GoString → Result GoString
read_raw files stdin inline_value file_value =
    if is_empty file_value
    then ok inline_value
    else if file_value == codes "-"
    then read_stdin stdin
    else read_file (files file_value)

-- the text of an error of `NormalizeManualInput`, which makes its errors by `errors.New`
abbrev pub input_reason : GoError → GoString
input_reason (plain text) =
    if contains_text text (codes "exceeds") then exceeds else codes "task input is invalid"
input_reason (sentinel s) = codes "task input is invalid"
input_reason (typed t reason) = codes "task input is invalid"
input_reason (wrapped t reason cause) = codes "task input is invalid"

abbrev pub normalized : Result TaskInput → Result TaskInput
normalized (ok input) = ok input
normalized (err e) = err (new_failure (input_reason e) e)

-- `readTaskInput`
unfoldable pub read_task_input :
    (GoString → InputFile) → Option Stdin → GoString → GoString → Result TaskInput
read_task_input files stdin inline_value file_value = do
  raw ← read_raw files stdin inline_value file_value
  normalized (normalize_manual_input raw)
