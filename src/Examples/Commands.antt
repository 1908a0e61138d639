-- ===== src/Examples/Commands.antt =====
-- The diagnosis of a configuration, and the commands.
use delegatd.Prelude.{
  ◌≡◌, refl, arith, ℕ, ◌<◌, true, false, take, contains_byte, split, join, trim_left, trim_right,
  List, [], ◌∷◌, GoString, codes, none, some, Result, ok, err, plain, pos, length, lookup, ◌==◌,
  sort_strings, trim_space, ◌↔◌,
}
use delegatd.Domain.Input.{TaskInput, normalize_manual_input, instructions_of}
use delegatd.Domain.Utf8.{utf8_valid}
use delegatd.Policy.Request.{normalize_request, normalize_actions, normalize_paths}
use delegatd.Config.Yaml.{
  value, at_end, contains_alias, decode_single_document, decode, contains_environment_interpolation,
  interpolates, mapping_value, value_in, root_of, check_tail, mapping_of, only_document,
}
use delegatd.Config.Checks.{
  Config, is_instance_name, validate_instance, validate_instances, check_instances,
  validate_resources, check_resources, check_resource,
}
use delegatd.Config.Load.{YamlPackage, Document, load, read_root, validate_config}
use delegatd.Doctor.{Check, run, report_ok, finish, run_in, make_results, outcome, probed, passed}
use delegatd.Doctor.Order.{member}
use delegatd.Bootstrap.Checks.{
  Probes, load_doctor, checked, document_checks, instance_checks, configured_check,
}
use delegatd.Bootstrap.Report.{
  result_ids, configured_ids, AllSupported, result_ids-run_load_doctor, report_ok-AllSupported,
}
use delegatd.Examples.Config.{deployment, file, instance_of, document}
use delegatd.Examples.Memory.{created}
use delegatd.Examples.Verbatim.{verbatim}
use delegatd.Command.{DoctorFlags, Formats, run_doctor}
use delegatd.Command.Input.{InputFile, completed, read_task_input, read_raw, read_stdin}
use delegatd.Command.Task.{
  SubmitFlags, ShowFlags, CommandDependencies, Surroundings, run_task_submit, submitted,
}
use delegatd.Command.Task as Task
use delegatd.Command.Usage.{IsCall}
use delegatd.Command.Judged.{Served, Refused}
use delegatd.Command.Codes.{run-Disciplined}
use delegatd.Command.Source.{source_text, read_task_input-whole}
use delegatd.Command.Success.{run_doctor-passes_iff}

abbrev stored : Config
stored = record deployment { store = instance_of (codes "sqlite") }

abbrev yaml : YamlPackage
yaml = record {
  document = λ input. document;
  marshal = λ n. ok [];
  as_config = λ written. value stored at_end;
  as_store = λ written. value (pos 1, instance_of (codes "sqlite")) at_end;
}

abbrev probes : Probes
probes = record {
  GithubConfig = Unit;
  SqliteConfig = Unit;
  read_github = λ written. value tt at_end;
  read_docker = λ written. value tt at_end;
  read_omp = λ written. value tt at_end;
  read_sqlite = λ written. value tt at_end;
  github = λ config dir. (codes "GitHub App", none);
  docker = (codes "Docker server 27.1 (linux)", none);
  omp = (codes "OMP RPC protocol 1", none);
  sqlite = λ config dir. (codes "SQLite 3", none);
}

abbrev loaded : Document
loaded = record { path = codes "/etc/delegatd.yaml"; dir = codes "/etc"; config = stored }

diagnosed : (checks : List Check) × (load_doctor yaml probes file ≡ ok (loaded, checks))
unfolding load_doctor checked document_checks instance_checks configured_check load read_root
    decode_single_document root_of check_tail contains_alias contains_environment_interpolation
    interpolates decode mapping_of only_document validate_config mapping_value value_in
    validate_instance validate_instances check_instances validate_resources check_resources
    check_resource is_instance_name sort_strings normalize_request normalize_actions normalize_paths
    lookup ◌==◌
diagnosed = (_, refl)

abbrev order : List ℕ
order = 3 ∷ 1 ∷ 0 ∷ 2 ∷ []

all_finish : (n : ℕ) → n < length diagnosed.0 → member n order ≡ true
unfolding diagnosed member
all_finish n h = ground arith

result_ids-run_load_doctor_example : result_ids (run order diagnosed.0) ≡ configured_ids loaded
result_ids-run_load_doctor_example =
    result_ids-run_load_doctor yaml probes file loaded diagnosed.0 order diagnosed.1 all_finish

good_report : report_ok (run order diagnosed.0) ≡ true
unfolding diagnosed report_ok passed run run_in finish make_results outcome probed
good_report = refl

report_ok-AllSupported_example : AllSupported yaml probes loaded
report_ok-AllSupported_example =
    report_ok-AllSupported yaml probes file loaded diagnosed.0 order diagnosed.1 all_finish
      good_report

abbrev formats : Formats
formats = record {
  decimal = λ n. codes "1";
  count = λ n. codes "4";
  parse_duration = λ s. ok (pos 10);
}

abbrev doctor_flags : DoctorFlags
doctor_flags = record {
  config = codes "delegatd.yaml";
  timeout = codes "10s";
  help = false;
  short_help = false;
  args = [];
}

abbrev loader : GoString → Result (Document × List Check)
loader path = load_doctor yaml probes file

run_doctor-passes_iff_example :
    ((run_doctor formats order (some loader) (some doctor_flags)).code ≡ 0) ↔ (
      (d : Document) × (checks : List Check) × (loader doctor_flags.config ≡ ok (d, checks))
      × (report_ok (run order checks) ≡ true))
run_doctor-passes_iff_example =
    run_doctor-passes_iff formats order loader doctor_flags
      (record { no_help = refl; well_formed = refl; timed = refl })

abbrev flags : SubmitFlags
flags = record {
  config = codes "delegatd.yaml";
  resource = codes "site";
  input_value = codes "fix the build";
  input_file = [];
  input_count = 1;
  input_file_count = 0;
  help = false;
  short_help = false;
  args = [];
}

abbrev no_file : InputFile
no_file = record { stat = err (plain []); opened = none; text = []; read = none; close = none }

abbrev surroundings : Surroundings
surroundings = record {
  formats = formats;
  parse_doctor = λ args. some doctor_flags;
  parse_submit = λ args. some flags;
  parse_show = λ args. none;
  codec = record verbatim { encode = λ v. ok (codes "{}") };
  encode_task = λ t. ok (codes "{}");
  files = λ path. no_file;
  stdin = none;
  finishing = order;
}

abbrev dependencies : CommandDependencies
dependencies = record {
  load_doctor = some loader;
  submit_task = some (λ config resource input. ok created);
  show_task = none;
}

run-Disciplined_example :
    (IsCall surroundings (codes "task" ∷ codes "submit" ∷ [])
      → Served (Task.run surroundings dependencies (codes "task" ∷ codes "submit" ∷ [])))
    × ((IsCall surroundings (codes "task" ∷ codes "submit" ∷ []) → ⊥)
        → Refused (Task.run surroundings dependencies (codes "task" ∷ codes "submit" ∷ [])))
run-Disciplined_example =
    run-Disciplined surroundings dependencies (codes "task" ∷ codes "submit" ∷ [])

input_read :
    (input : TaskInput) × (read_task_input
        (λ path. no_file)
        (some (completed (codes "fix") none))
        []
        (codes "-")
      ≡ ok input)
unfolding read_task_input read_raw read_stdin normalize_manual_input instructions_of utf8_valid
    contains_byte take ◌==◌ split join trim_space trim_left trim_right
input_read = (_, refl)

read_task_input-whole_example :
    (raw : GoString) × (source_text
        (λ path. no_file)
        (some (completed (codes "fix") none))
        []
        (codes "-")
      ≡ some raw)
    × (normalize_manual_input raw ≡ ok input_read.0)
read_task_input-whole_example =
    read_task_input-whole (λ path. no_file) (some (completed (codes "fix") none)) [] (codes "-")
      input_read.0 input_read.1
