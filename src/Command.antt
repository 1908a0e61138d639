-- ===== src/Command.antt =====
-- cmd/delegatd/main.go: the command line. Packages flag, fmt and time, the files and the context are
-- arguments; what a command prints is its result, with the exit code.
pub mod Input
pub mod Task
pub mod Usage
pub mod Judged
pub mod Codes
pub mod Source
pub mod Success
use delegatd.Prelude.{
  is_positive, ◌≡◌, refl, ℕ, zero, suc, ◌+◌, Bool, true, false, ◌&&◌, ◌||◌, not, List, [], ◌∷◌,
  ◌++◌, GoString, codes, ◌==◌, is_empty, trim_space, Option, none, some, ℤ, pos, negsuc, Result, ok,
  err, GoError, plain, sentinel, typed, wrapped, if◌then◌else◌, length, eqb,
}
use delegatd.Doctor.{Check, Failure, CheckResult, run}
use delegatd.Config.Load.{Document}

abbrev pub doctor_usage : GoString
doctor_usage = codes "usage: delegatd doctor --config FILE [--timeout DURATION]"

abbrev pub task_submit_usage : GoString
task_submit_usage =
    codes
      "usage: delegatd task submit --config FILE --resource NAME (--input TEXT | --input-file FILE)"

abbrev pub task_show_usage : GoString
task_show_usage = codes "usage: delegatd task show --config FILE TASK_ID"

abbrev pub task_usage : GoString
task_usage = task_submit_usage ++ 10 ∷ task_show_usage

abbrev pub root_usage : GoString
root_usage = doctor_usage ++ 10 ∷ task_usage

-- The exit code of a command, and what it printed.
pub record Printed : Type 0 where
  pub code : ℕ
  pub stdout : GoString
  pub stderr : GoString

-- `fmt.Fprintln`
abbrev pub line : GoString → GoString
line s = s ++ 10 ∷ []

-- `writeRootUsage` and its like, and `return 2`
abbrev pub misused : GoString → Printed
misused usage = record { code = 2; stdout = []; stderr = line usage }

abbrev pub helped : GoString → Printed
helped usage = record { code = 0; stdout = line usage; stderr = [] }

abbrev pub printed : ℕ → GoString → Printed
printed code text = record { code = code; stdout = text; stderr = [] }

-- The values of the flags after `Parse`, and the arguments that are left.
pub record DoctorFlags : Type 0 where
  pub config : GoString
  pub timeout : GoString
  pub help : Bool
  pub short_help : Bool
  pub args : List GoString

-- `%d`, and `time.ParseDuration`
pub record Formats : Type 0 where
  pub decimal : ℤ → GoString
  pub count : ℕ → GoString
  pub parse_duration : GoString → Result ℤ

abbrev pub is_timeout : Result ℤ → Bool
is_timeout (err e) = false
is_timeout (ok n) = is_positive n

-- `safeReason` of a failure that is not nil
unfoldable pub safe_reason : Failure → GoString
safe_reason f = if is_empty (trim_space f.reason) then codes "diagnostic failed" else f.reason

-- The reason of the `doctor.Failure` that an error of the loader stands for.
abbrev pub failure_of : GoError → Failure
failure_of (plain text) = record { reason = [] }
failure_of (sentinel s) = record { reason = [] }
failure_of (typed t reason) = record { reason = reason }
failure_of (wrapped t reason cause) = record { reason = reason }

abbrev pub result_line : CheckResult → Option Failure → GoString
result_line r none = line (codes "PASS " ++ r.id ++ codes ": " ++ r.detail)
result_line r (some f) = line (codes "FAIL " ++ r.id ++ codes ": " ++ safe_reason f)

abbrev failures_of : Option Failure → ℕ
failures_of none = 0
failures_of (some f) = 1

-- The loop over the results: the number of failures, and the lines.
unfoldable pub summarize : List CheckResult → ℕ × GoString
summarize [] = (0, [])
summarize (r ∷ rs) =
    let (failed, text) = summarize rs in
    (failures_of r.failure + failed, result_line r r.failure ++ text)

unfoldable pub summary : Formats → ℕ → ℕ → GoString
summary formats failed total =
    if eqb failed 0
    then line (codes "PASS doctor: " ++ formats.count total ++ codes " checks passed")
    else line (
        codes "FAIL doctor: "
        ++ formats.count failed
        ++ codes " of "
        ++ formats.count total
        ++ codes " checks failed")

abbrev pub exit_code : ℕ → ℕ
exit_code failed = if eqb failed 0 then 0 else 1

unfoldable pub reported : Formats → List ℕ → Result (Document × List Check) → Printed
reported formats order (err e) = printed 1 (
    line (codes "FAIL config: " ++ safe_reason (failure_of e))
    ++ line (codes "FAIL doctor: configuration invalid"))
reported formats order (ok (document, checks)) =
    let results = run order checks in
    let (failed, text) = summarize results in
    printed (exit_code failed) (
      line (codes "PASS config: schema version " ++ formats.decimal document.config.version)
      ++ text
      ++ summary formats failed (length results))

abbrev pub DoctorLoader : Type 0
DoctorLoader = Option (GoString → Result (Document × List Check))

unfoldable pub diagnose : Formats → List ℕ → DoctorLoader → GoString → Printed
diagnose formats order none config = printed 1 (
    line (codes "FAIL config: configuration loader is unavailable")
    ++ line (codes "FAIL doctor: configuration invalid"))
diagnose formats order (some load) config = reported formats order (load config)

-- `runDoctor`, with the result of `Parse` and the order in which the goroutines finish
unfoldable pub run_doctor : Formats → List ℕ → DoctorLoader → Option DoctorFlags → Printed
run_doctor formats order load none = misused doctor_usage
run_doctor formats order load (some flags) =
    if flags.help || flags.short_help
    then helped doctor_usage
    else if is_empty flags.config || not (eqb (length flags.args) 0)
    then misused doctor_usage
    else if not (is_timeout (formats.parse_duration flags.timeout))
    then misused doctor_usage
    else diagnose formats order load flags.config
