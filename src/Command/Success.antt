-- ===== src/Command/Success.antt =====
-- When the commands succeed.
use delegatd.Prelude.{
  ◌≡◌, refl, ap, sym, ◌∙◌, arith, ℕ, ◌+◌, true, false, ◌&&◌, ◌||◌, not, List, [], ◌∷◌, GoString,
  is_empty, length, Option, none, some, Result, ok, err, ◌↔◌, eqb,
}
use delegatd.Config.Load.{Document}
use delegatd.Doctor.{Check, Failure, CheckResult, passed, report_ok}
use delegatd.Doctor as Doctor
use delegatd.Command.{
  DoctorFlags, Formats, is_timeout, failures_of, summarize, exit_code, reported, diagnose,
  run_doctor,
}

failures_of-passed :
    (o : Option Failure) (n : ℕ) → (eqb (failures_of o + n) 0) ≡ (passed o && eqb n 0)
unfolding passed
failures_of-passed none n = ground arith
failures_of-passed (some f) n = ground arith

-- No failure is counted exactly when the report is good.
summarize-report_ok : (rs : List CheckResult) → eqb (summarize rs).0 0 ≡ report_ok rs
unfolding summarize report_ok
summarize-report_ok [] = refl
summarize-report_ok (r ∷ rs) =
    failures_of-passed r.failure (summarize rs).0
    ∙ ap (λ b. passed r.failure && b) (summarize-report_ok rs)

exit_code-zero : (n : ℕ) → (exit_code n ≡ 0) ↔ (eqb n 0 ≡ true)
exit_code-zero n = (λ h. ground arith, λ h. ground arith)

-- A call of the doctor that asks for a diagnosis.
pub record IsDiagnosis (formats : Formats) (flags : DoctorFlags) : Type 0 where
  pub no_help : (flags.help || flags.short_help) ≡ false
  pub well_formed : (is_empty flags.config || not (eqb (length flags.args) 0)) ≡ false
  pub timed : not (is_timeout (formats.parse_duration flags.timeout)) ≡ false

reported-zero :
    (formats : Formats) (order : List ℕ) (r : Result (Document × List Check))
    → (reported formats order r).code ≡ 0
    → (document : Document) × (checks : List Check) × (r ≡ ok (document, checks))
      × (report_ok (Doctor.run order checks) ≡ true)
unfolding reported
reported-zero formats order (err e) h = absurd (omega arith)
reported-zero formats order (ok (document, checks)) h = (
  document,
  checks,
  refl,
  sym (summarize-report_ok (Doctor.run order checks)) ∙ (exit_code-zero _).0 h,
)

-- A diagnosis that is asked for exits with 0 exactly when the loader returns checks and their report
-- is good.
pub run_doctor-passes_iff :
    (formats : Formats) (order : List ℕ) (load : GoString → Result (Document × List Check))
    (flags : DoctorFlags)
    → IsDiagnosis formats flags
    → ((run_doctor formats order (some load) (some flags)).code ≡ 0) ↔ (
        (document : Document) × (checks : List Check) × (load flags.config ≡ ok (document, checks))
        × (report_ok (Doctor.run order checks) ≡ true))
unfolding run_doctor diagnose reported
run_doctor-passes_iff formats order load flags asked = rw asked.no_help (
    rw asked.well_formed (
      rw asked.timed (
        λ h. reported-zero formats order (load flags.config) h,
        λ (document, checks, loaded, good).
            rw loaded ((exit_code-zero _).1 (summarize-report_ok (Doctor.run order checks) ∙ good)),
      )))
