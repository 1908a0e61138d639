-- ===== src/Command/Codes.antt =====
-- The exit codes of the command line.
use delegatd.Prelude.{
  ◌≡◌, ◌≢◌, refl, ap, sym, ◌∙◌, arith, ℕ, ◌+◌, ◌≤◌, true, not, List, [], ◌∷◌, GoString, codes, ◌==◌,
  differ, is_positive, ℤ, Option, none, some, some_injective, subst, Result, ok, err, ok_injective,
  if◌then◌else◌, inl, inr,
}
use delegatd.Config.Load.{Document}
use delegatd.Domain.Id.{parse_task_id}
use delegatd.Doctor.{Check}
use delegatd.Doctor as Doctor
use delegatd.Command.{
  Printed, misused, helped, doctor_usage, task_submit_usage, task_show_usage, task_usage,
  root_usage, is_timeout, DoctorFlags, Formats, DoctorLoader, summarize, exit_code, reported,
  diagnose, run_doctor,
}
use delegatd.Command.Task.{
  SubmitFlags, ShowFlags, CommandDependencies, Surroundings, concluded, submitted, shown,
  run_task_submit, show_id, show_argument, run_task_show, run_task, run,
}
use delegatd.Command.Usage.{IsDoctorCall, IsSubmitCall, IsShowCall, IsTaskCall, IsCall}
use delegatd.Command.Judged.{
  Served, Refused, Judged, misused-Refused, helped-Served, Rejects, is_empty-Rejects,
  no_args-Rejects, eqb-Rejects, or-Rejects, guarded-Judged, helped-Judged, tested-Judged,
  named-Judged, last-Judged, either-Judged, both,
}

exit_code-bound : (n : ℕ) → exit_code n ≤ 1
exit_code-bound n = ground arith

reported-Served :
    (formats : Formats) (order : List ℕ) (r : Result (Document × List Check))
    → Served (reported formats order r)
unfolding reported
reported-Served formats order (err e) = (omega arith, refl)
reported-Served formats order (ok (document, checks)) =
    (exit_code-bound (summarize (Doctor.run order checks)).0, refl)

diagnose-Served :
    (formats : Formats) (order : List ℕ) (load : DoctorLoader) (config : GoString)
    → Served (diagnose formats order load config)
unfolding diagnose
diagnose-Served formats order none config = (omega arith, refl)
diagnose-Served formats order (some load) config = reported-Served formats order (load config)

concluded-Served : (r : Result GoString) → Served (concluded r)
concluded-Served (ok output) = (omega arith, refl)
concluded-Served (err e) = (omega arith, refl)

-- The flags are there, and what they ask for is a use.
abbrev Parsed : {F : Type 0} → (F → Type 0) → Option F → Type 0
Parsed {F} Use o = (flags : F) × (o ≡ some flags) × Use flags

parsed-Judged :
    {F : Type 0} (Use : F → Type 0) (flags : F) (p : Printed)
    → Judged (Use flags) p
    → Judged (Parsed Use (some flags)) p
parsed-Judged Use flags p (inl (u, s)) = inl ((flags, refl, u), s)
parsed-Judged Use flags p (inr (unused, r)) =
    inr (λ (f, e, u). unused (subst Use (sym (some_injective e)) u), r)

unparsed-Judged :
    {F : Type 0} (Use : F → Type 0) (usage : GoString) → Judged (Parsed Use none) (misused usage)
unparsed-Judged Use usage = inr (λ (f, e, u). cc, misused-Refused usage)

is_timeout-Rejects :
    (r : Result ℤ) → Rejects (not (is_timeout r)) ((n : ℤ) × (r ≡ ok n) × (is_positive n ≡ true))
is_timeout-Rejects (err e) = (λ h (n, same, positive). cc, λ h. cc)
is_timeout-Rejects (ok n) = (
  λ h (m, same, positive). cc (ap not (ap is_positive (ok_injective same) ∙ positive), h),
  λ h. (n, refl, ground arith),
)

run_doctor-Judged :
    (formats : Formats) (order : List ℕ) (load : DoctorLoader) (flags : Option DoctorFlags)
    → Judged (Parsed (IsDoctorCall formats) flags) (run_doctor formats order load flags)
unfolding run_doctor
run_doctor-Judged formats order load none = unparsed-Judged (IsDoctorCall formats) doctor_usage
run_doctor-Judged formats order load (some flags) = parsed-Judged (IsDoctorCall formats) flags _ (
    helped-Judged flags.help flags.short_help _ _ (helped-Served doctor_usage) (
      guarded-Judged _ _ _
        (or-Rejects _ _ (is_empty-Rejects flags.config) (no_args-Rejects flags.args))
        (λ (c, a, t). (c, a)) (misused-Refused doctor_usage)
        (λ (c, a).
          guarded-Judged _ _ _ (is_timeout-Rejects (formats.parse_duration flags.timeout))
            (λ (c', a', t). t) (misused-Refused doctor_usage)
            (λ t. inl ((c, a, t), diagnose-Served formats order load flags.config)))))

module _ (around : Surroundings) (dependencies : CommandDependencies) where
  run_task_submit-Judged :
      (flags : Option SubmitFlags)
      → Judged (Parsed IsSubmitCall flags) (run_task_submit around dependencies flags)
  unfolding run_task_submit
  run_task_submit-Judged none = unparsed-Judged IsSubmitCall task_submit_usage
  run_task_submit-Judged (some flags) =
      parsed-Judged IsSubmitCall flags (run_task_submit around dependencies (some flags)) (
        tested-Judged flags.help flags.short_help _ (helped task_submit_usage)
          (misused task_submit_usage) (concluded (submitted around dependencies flags))
          (helped-Served task_submit_usage) (misused-Refused task_submit_usage)
          (or-Rejects _ _
            (or-Rejects _ _
              (or-Rejects _ _ (is_empty-Rejects flags.config) (is_empty-Rejects flags.resource))
              (no_args-Rejects flags.args))
            (eqb-Rejects (flags.input_count + flags.input_file_count) 1))
          (λ (c, r, a, n). (((c, r), a), n))
          (λ (((c, r), a), n).
            inl ((c, r, a, n), concluded-Served (submitted around dependencies flags))))

  -- The one argument is the id of a task.
  abbrev Shows : List GoString → Type 0
  Shows args =
      (text : GoString) × (id : GoString) × (args ≡ text ∷ []) × (parse_task_id text ≡ ok id)

  show_id-Judged :
      (config text : GoString) (r : Result GoString)
      → parse_task_id text ≡ r
      → Judged (Shows (text ∷ [])) (show_id around dependencies config r)
  show_id-Judged config text (err e) h =
      inr (λ (s, id, same, parsed). cc (same, h, parsed), misused-Refused task_show_usage)
  show_id-Judged config text (ok id) h =
      inl ((text, id, refl, h), concluded-Served (shown around dependencies config id))

  show_argument-Judged :
      (config : GoString) (args : List GoString)
      → Judged (Shows args) (show_argument around dependencies config args)
  unfolding show_argument
  show_argument-Judged config [] =
      inr (λ (s, id, same, parsed). cc, misused-Refused task_show_usage)
  show_argument-Judged config (text ∷ []) = show_id-Judged config text (parse_task_id text) refl
  show_argument-Judged config (text ∷ more ∷ rest) =
      inr (λ (s, id, same, parsed). cc, misused-Refused task_show_usage)

  with_config :
      {C : Type 0} (args : List GoString) (p : Printed)
      → C
      → Judged (Shows args) p
      → Judged (C × Shows args) p
  with_config args p c (inl (u, s)) = inl ((c, u), s)
  with_config args p c (inr (unused, r)) = inr (λ (c', u). unused u, r)

  run_task_show-Judged :
      (flags : Option ShowFlags)
      → Judged (Parsed IsShowCall flags) (run_task_show around dependencies flags)
  unfolding run_task_show
  run_task_show-Judged none = unparsed-Judged IsShowCall task_show_usage
  run_task_show-Judged (some flags) =
      parsed-Judged IsShowCall flags (run_task_show around dependencies (some flags)) (
        tested-Judged flags.help flags.short_help _ (helped task_show_usage)
          (misused task_show_usage) (show_argument around dependencies flags.config flags.args)
          (helped-Served task_show_usage) (misused-Refused task_show_usage)
          (is_empty-Rejects flags.config) (λ u. u.0)
          (λ c.
            with_config flags.args (show_argument around dependencies flags.config flags.args) c
              (show_argument-Judged flags.config flags.args)))

  show_apart : codes "submit" ≢ codes "show"
  unfolding ◌==◌
  show_apart = differ (codes "submit") (codes "show") refl

  task_apart : codes "doctor" ≢ codes "task"
  unfolding ◌==◌
  task_apart = differ (codes "doctor") (codes "task") refl

  run_task-Judged :
      (args : List GoString) → Judged (IsTaskCall around args) (run_task around dependencies args)
  unfolding run_task
  run_task-Judged [] = inr (λ u. u, misused-Refused task_usage)
  run_task-Judged (command ∷ args) =
      let submit = run_task_submit around dependencies (around.parse_submit args) in
      let show = run_task_show around dependencies (around.parse_show args) in
      either-Judged command (codes "--help") (codes "-h") (helped task_usage)
        (if command == codes "submit"
          then submit
          else if command == codes "show"
          then show
          else misused task_usage)
        (helped-Served task_usage)
        (named-Judged command (codes "submit") submit
          (if command == codes "show" then show else misused task_usage)
          (λ c u. show_apart (sym c ∙ u.0)) (run_task_submit-Judged (around.parse_submit args))
          (last-Judged command (codes "show") show (misused task_usage)
            (run_task_show-Judged (around.parse_show args)) (misused-Refused task_usage)))

  run-Judged : (args : List GoString) → Judged (IsCall around args) (run around dependencies args)
  unfolding run
  run-Judged [] = inr (λ u. u, misused-Refused root_usage)
  run-Judged (command ∷ args) =
      let doctor =
        run_doctor around.formats around.finishing dependencies.load_doctor
          (around.parse_doctor args) in
      let task = run_task around dependencies args in
      named-Judged command (codes "doctor") doctor
        (if command == codes "task" then task else misused root_usage)
        (λ c u. task_apart (sym c ∙ u.0))
        (run_doctor-Judged around.formats around.finishing dependencies.load_doctor
          (around.parse_doctor args))
        (last-Judged command (codes "task") task (misused root_usage) (run_task-Judged args)
          (misused-Refused root_usage))

  -- Arguments that are a call of the program are served: the exit code is 0 or 1, and nothing is on
  -- the standard error. Arguments that are none are refused: the exit code is 2, nothing is on the
  -- standard output, and something is on the standard error.
  pub run-Disciplined :
      (args : List GoString)
      → (IsCall around args → Served (run around dependencies args))
        × ((IsCall around args → ⊥) → Refused (run around dependencies args))
  run-Disciplined args = both (run around dependencies args) (run-Judged args)
