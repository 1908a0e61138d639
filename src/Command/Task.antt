-- ===== src/Command/Task.antt =====
-- The task commands of cmd/delegatd/main.go, and `run`.
use delegatd.Prelude.{
  ℕ, ◌+◌, Bool, ◌||◌, not, List, [], ◌∷◌, ◌++◌, GoString, codes, ◌==◌, is_empty, Option, none, some,
  Result, ok, err, GoError, plain, if◌then◌else◌, length, eqb, ◌>>=◌,
}
use delegatd.Domain.Id.{parse_task_id}
use delegatd.Domain.Json.{Codec, text, object, field, end}
use delegatd.Domain.Input.{TaskInput}
use delegatd.Domain.Task.{Task}
use delegatd.Control.Failure.{new_failure, task_failed}
use delegatd.Control.Failure as Failure
use delegatd.Command.{
  Printed, line, misused, helped, printed, root_usage, task_usage, task_submit_usage,
  task_show_usage, DoctorFlags, Formats, DoctorLoader, run_doctor,
}
use delegatd.Command.Input.{InputFile, Stdin, read_task_input}

pub record SubmitFlags : Type 0 where
  pub config : GoString
  pub resource : GoString
  pub input_value : GoString
  pub input_file : GoString
  pub input_count : ℕ
  pub input_file_count : ℕ
  pub help : Bool
  pub short_help : Bool
  pub args : List GoString

pub record ShowFlags : Type 0 where
  pub config : GoString
  pub help : Bool
  pub short_help : Bool
  pub args : List GoString

-- `commandDependencies`, each function nil or not
pub record CommandDependencies : Type 0 where
  pub load_doctor : DoctorLoader
  pub submit_task : Option (GoString → GoString → TaskInput → Result Task)
  pub show_task : Option (GoString → GoString → Result Task)

-- What the packages and the surroundings answer: `Parse` of the three flag sets, the encoding of a
-- task, the files, and the standard input.
pub record Surroundings : Type 0 where
  pub formats : Formats
  pub parse_doctor : List GoString → Option DoctorFlags
  pub parse_submit : List GoString → Option SubmitFlags
  pub parse_show : List GoString → Option ShowFlags
  pub codec : Codec
  pub encode_task : Task → Result GoString
  pub files : GoString → InputFile
  pub stdin : Option Stdin
  pub finishing : List ℕ

-- `writeTaskFailure`
abbrev pub task_failure : GoError → Printed
task_failure e = printed 1 (line (codes "FAIL task: " ++ Failure.safe_reason e))

-- the end of a command: what was written, or the failure
abbrev pub concluded : Result GoString → Printed
concluded (ok output) = printed 0 output
concluded (err e) = task_failure e

-- a nil function fails
abbrev pub available {ℓ} : {A : Type ℓ} → GoString → Option A → Result A
available detail none = err (new_failure task_failed (plain detail))
available detail (some f) = ok f

module _ (around : Surroundings) (dependencies : CommandDependencies) where
  unfoldable pub submitted : SubmitFlags → Result GoString
  submitted flags = do
    input ← read_task_input around.files around.stdin flags.input_value flags.input_file
    submit ← available (codes "submit command is unavailable") dependencies.submit_task
    task ← submit flags.config flags.resource input
    around.codec.encode (object (field (codes "task_id") (text task.id) end))

  -- `runTaskSubmit`
  unfoldable pub run_task_submit : Option SubmitFlags → Printed
  run_task_submit none = misused task_submit_usage
  run_task_submit (some flags) =
      if flags.help || flags.short_help
      then helped task_submit_usage
      else if is_empty flags.config
          || is_empty flags.resource
          || not (eqb (length flags.args) 0)
          || not (eqb (flags.input_count + flags.input_file_count) 1)
      then misused task_submit_usage
      else concluded (submitted flags)

  unfoldable pub shown : GoString → GoString → Result GoString
  shown config id = do
    show ← available (codes "show command is unavailable") dependencies.show_task
    task ← show config id
    around.encode_task task

  abbrev pub show_id : GoString → Result GoString → Printed
  show_id config (err e) = misused task_show_usage
  show_id config (ok id) = concluded (shown config id)

  -- the one argument
  unfoldable pub show_argument : GoString → List GoString → Printed
  show_argument config [] = misused task_show_usage
  show_argument config (id ∷ []) = show_id config (parse_task_id id)
  show_argument config (id ∷ more ∷ rest) = misused task_show_usage

  -- `runTaskShow`
  unfoldable pub run_task_show : Option ShowFlags → Printed
  run_task_show none = misused task_show_usage
  run_task_show (some flags) =
      if flags.help || flags.short_help
      then helped task_show_usage
      else if is_empty flags.config
      then misused task_show_usage
      else show_argument flags.config flags.args

  -- `runTask`
  unfoldable pub run_task : List GoString → Printed
  run_task [] = misused task_usage
  run_task (command ∷ args) =
      if command == codes "--help" || command == codes "-h"
      then helped task_usage
      else if command == codes "submit"
      then run_task_submit (around.parse_submit args)
      else if command == codes "show"
      then run_task_show (around.parse_show args)
      else misused task_usage

  -- `run`
  unfoldable pub run : List GoString → Printed
  run [] = misused root_usage
  run (command ∷ args) =
      if command == codes "doctor"
      then run_doctor around.formats around.finishing dependencies.load_doctor
          (around.parse_doctor args)
      else if command == codes "task"
      then run_task args
      else misused root_usage
