-- ===== src/Config/Repository.antt =====
-- `DecodeRepository` of internal/config/repository.go. `time.ParseDuration` and `Duration.String`
-- are parameters.
use delegatd.Prelude.{
  Bool, true, false, not, List, [], ◌∷◌, GoString, codes, is_empty, ltb, length, StringSet, insert,
  contains, Option, none, some, ℤ, pos, negsuc, int_eqb, Result, ok, err, plain, ◌>>=◌, ◌>>◌,
  if◌then◌else◌, trim_space,
}
use delegatd.Domain.Task.{ValidationCommand, RepositoryConfiguration}
use delegatd.Memory.{guard}
use delegatd.Policy.Paths.{normalize_instruction_path}
use delegatd.Policy.Request.{normalize_request}
use delegatd.Config.Yaml.{Node, Read, decode, decode_single_document}
use delegatd.Config.Checks.{is_instance_name}
use delegatd.Config.Load.{max_configuration_size}

-- Durations count nanoseconds.
pub record Durations : Type 0 where
  pub parse : GoString → Option ℤ
  pub print : ℤ → GoString

-- The YAML package, for this destination.
pub record RepositoryYaml : Type 0 where
  pub document : GoString → Read Node
  pub marshal : Node → Result GoString
  pub as_repository : GoString → Read RepositoryConfiguration

-- the loop over the instruction paths; `seen` holds the paths so far
unfoldable pub normalize_instructions : List GoString → StringSet → Result (List GoString)
normalize_instructions [] seen = ok []
normalize_instructions (raw ∷ raws) seen = do
  instruction ← normalize_instruction_path raw
  guard (not (contains instruction seen)) (plain (codes "duplicate instruction path"))
  rest ← normalize_instructions raws (insert instruction tt seen)
  ok (instruction ∷ rest)

abbrev positive : ℤ → Bool
positive (pos n) = ltb 0 n
positive (negsuc n) = false

-- `time.ParseDuration`, and the test of its result
unfoldable pub positive_duration : Option ℤ → Result ℤ
positive_duration none = err (plain (codes "validation timeout is invalid"))
positive_duration (some d) =
    if positive d then ok d else err (plain (codes "validation timeout is invalid"))

-- the loop over the validation commands; `seen` holds the names so far
unfoldable pub normalize_commands :
    Durations → List ValidationCommand → StringSet → Result (List ValidationCommand)
normalize_commands durations [] seen = ok []
normalize_commands durations (command ∷ commands) seen = do
  let name = trim_space command.name
  guard (is_instance_name name) (plain (codes "validation name is invalid"))
  guard (not (contains name seen)) (plain (codes "duplicate validation name"))
  guard (not (is_empty (trim_space command.run))) (plain (codes "validation command is empty"))
  guard (not (is_empty command.timeout)) (plain (codes "validation timeout is required"))
  duration ← positive_duration (durations.parse command.timeout)
  rest ← normalize_commands durations commands (insert name tt seen)
  ok (record { name = name; run = command.run; timeout = durations.print duration } ∷ rest)

-- `DecodeRepository`, from the decoded configuration on
unfoldable pub normalize_repository :
    Durations → RepositoryConfiguration → Result RepositoryConfiguration
normalize_repository durations c = do
  guard (int_eqb c.version (pos 1)) (plain (codes "repository configuration version must be 1"))
  instructions ← normalize_instructions c.instructions []
  policy ← normalize_request c.policy
  required ← normalize_commands durations c.required []
  ok (record {
    version = c.version;
    instructions = instructions;
    policy = policy;
    required = required;
  })

unfoldable pub decode_repository :
    Durations → RepositoryYaml → GoString → Result RepositoryConfiguration
decode_repository durations yaml input = do
  guard (not (ltb max_configuration_size (length input)))
      (plain (codes "repository configuration exceeds 1 MiB"))
  root ← decode_single_document true (yaml.document input)
  configuration ← decode yaml.marshal yaml.as_repository root
  normalize_repository durations configuration
