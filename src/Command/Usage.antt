-- ===== src/Command/Usage.antt =====
-- Which arguments are a use of the command line.
use delegatd.Prelude.{
  ◌≡◌, ◌≢◌, true, List, [], ◌∷◌, GoString, codes, some, ℤ, is_positive, ok, ◌+◌, ◌⊎◌,
}
use delegatd.Domain.Id.{parse_task_id}
use delegatd.Command.{DoctorFlags, Formats}
use delegatd.Command.Task.{SubmitFlags, ShowFlags, Surroundings}

-- `doctor` with a configuration, no further argument and a timeout that is positive, or a call for
-- help
abbrev pub IsDoctorCall : Formats → DoctorFlags → Type 0
IsDoctorCall formats flags =
    ((flags.help ≡ true) ⊎ (flags.short_help ≡ true))
    ⊎ ((flags.config ≢ [])
        × (flags.args ≡ [])
        × ((n : ℤ) × (formats.parse_duration flags.timeout ≡ ok n) × (is_positive n ≡ true)))

-- `task submit` with a configuration, a resource, one of the two inputs, once, and no further
-- argument, or a call for help
abbrev pub IsSubmitCall : SubmitFlags → Type 0
IsSubmitCall flags =
    ((flags.help ≡ true) ⊎ (flags.short_help ≡ true))
    ⊎ ((flags.config ≢ [])
        × (flags.resource ≢ [])
        × (flags.args ≡ [])
        × (flags.input_count + flags.input_file_count ≡ 1))

-- `task show` with a configuration and the id of a task, or a call for help
abbrev pub IsShowCall : ShowFlags → Type 0
IsShowCall flags =
    ((flags.help ≡ true) ⊎ (flags.short_help ≡ true))
    ⊎ ((flags.config ≢ [])
        × ((text : GoString) × (id : GoString) × (flags.args ≡ text ∷ [])
            × (parse_task_id text ≡ ok id)))

module _ (around : Surroundings) where
  -- The arguments after `task`.
  abbrev pub IsTaskCall : List GoString → Type 0
  IsTaskCall [] = ⊥
  IsTaskCall (command ∷ args) =
      ((command ≡ codes "--help") ⊎ (command ≡ codes "-h"))
      ⊎ (((command ≡ codes "submit")
            × ((flags : SubmitFlags) × (around.parse_submit args ≡ some flags)
                × IsSubmitCall flags))
          ⊎ ((command ≡ codes "show")
              × ((flags : ShowFlags) × (around.parse_show args ≡ some flags) × IsShowCall flags)))

  -- The arguments of the program.
  abbrev pub IsCall : List GoString → Type 0
  IsCall [] = ⊥
  IsCall (command ∷ args) =
      ((command ≡ codes "doctor")
        × ((flags : DoctorFlags) × (around.parse_doctor args ≡ some flags)
            × IsDoctorCall around.formats flags))
      ⊎ ((command ≡ codes "task") × IsTaskCall args)
