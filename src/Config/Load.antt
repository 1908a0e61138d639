-- ===== src/Config/Load.antt =====
-- `Load`, `LoadStore` and `readRoot` of internal/config/config.go.
use delegatd.Prelude.{
  ℕ, Bool, true, false, ◌&&◌, ◌||◌, not, [], ◌++◌, GoString, codes, eqb, ltb, length, GoMap, Option,
  none, some, is_some, ℤ, pos, int_eqb, Result, ok, err, GoError, wrapped, validation, ◌>>=◌, ◌>>◌,
}
use delegatd.Memory.{guard}
use delegatd.Policy.Request.{normalize_request}
use delegatd.Config.Yaml.{
  Node, node, child, leaf, mapping_node, Read, scalar, mapping_value, mapping_count, contains_alias,
  contains_environment_interpolation, decode, decode_single_document, invalid, yaml_invalid,
}
use delegatd.Config.Checks.{
  Instance, Config, validate_instance, validate_instances, validate_resources,
}

-- What the operating system and the YAML package answer: the absolute path and its directory, the
-- error of `os.Open`, what is read through the limit of 1 MiB and one byte, the errors of reading
-- and closing, and the decoders.
pub record File : Type 0 where
  pub absolute : Result GoString
  pub directory : GoString
  pub opened : Option GoError
  pub content : GoString
  pub read_error : Option GoError
  pub close_error : Option GoError

pub record YamlPackage : Type 0 where
  pub document : GoString → Read Node
  pub marshal : Node → Result GoString
  pub as_config : GoString → Read Config
  pub as_store : GoString → Read (ℤ × Instance)

pub record Document : Type 0 where
  pub path : GoString
  pub dir : GoString
  pub config : Config

pub record StoreDocument : Type 0 where
  pub path : GoString
  pub dir : GoString
  pub version : ℤ
  pub store : Instance

pub record Root : Type 0 where
  pub path : GoString
  pub dir : GoString
  pub root : Node

abbrev pub max_configuration_size : ℕ
max_configuration_size = 1048576

-- `validationError(reason, err)` around a failed call
abbrev pub invalidated {ℓ} : {A : Type ℓ} → GoString → Result A → Result A
invalidated reason (err e) = err (wrapped validation reason e)
invalidated reason (ok a) = ok a

abbrev unless : Option GoError → Result (Unit {0})
unless none = ok tt
unless (some e) = err (wrapped validation (codes "configuration file is unreadable") e)

unfoldable pub read_root : YamlPackage → File → Bool → Result Root
read_root yaml file reject_aliases = do
  absolute ← invalidated (codes "configuration file is unreadable") file.absolute
  unless file.opened
  unless file.read_error
  unless file.close_error
  guard (not (ltb max_configuration_size (length file.content)))
      (invalid (codes "configuration exceeds 1 MiB"))
  root ← decode_single_document reject_aliases (yaml.document file.content)
  ok (record { path = absolute; dir = file.directory; root = root })

-- The tests of a required section that must have an instance.
abbrev pub has_instances : Node → GoString → GoMap Instance → Result (Unit {0})
has_instances root section instances = do
  guard (is_some (mapping_value root section)) (invalid (section ++ codes " is required"))
  guard (not (eqb (length instances) 0))
      (invalid (section ++ codes " must contain at least one instance"))

-- `Load`, from the decoded configuration on
unfoldable pub validate_config : Node → Config → Result Config
validate_config root c = do
  guard (int_eqb c.version (pos 1)) (invalid (codes "version must be 1"))
  guard (is_some (mapping_value root (codes "store"))) (invalid (codes "store is required"))
  has_instances root (codes "connectors") c.connectors
  has_instances root (codes "workspace_providers") c.workspace_providers
  has_instances root (codes "agent_runtimes") c.agent_runtimes
  validate_instance (codes "store") c.store.kind
  validate_instances (codes "connectors") (codes "connector") c.connectors
  validate_instances (codes "workspace_providers") (codes "workspace_provider")
      c.workspace_providers
  validate_instances (codes "agent_runtimes") (codes "agent_runtime") c.agent_runtimes
  policy ← invalidated yaml_invalid (normalize_request c.policy)
  validate_resources (record c { policy = policy })
  ok (record c { policy = policy })

-- `Load`
unfoldable pub load : YamlPackage → File → Result Document
load yaml file = do
  r ← read_root yaml file true
  guard (not (contains_environment_interpolation r.root)) (invalid yaml_invalid)
  decoded ← invalidated yaml_invalid (decode yaml.marshal yaml.as_config r.root)
  config ← validate_config r.root decoded
  ok (record { path = r.path; dir = r.dir; config = config })

-- The sections of `LoadStore`, each there exactly once and without aliases and interpolation.
unfoldable pub store_sections : Node → Option Node → Option Node → Result Node
store_sections root none store = err (invalid yaml_invalid)
store_sections root (some version) none = err (invalid yaml_invalid)
store_sections root (some version) (some store) = do
  guard (eqb (mapping_count root (codes "version")) 1 && eqb (mapping_count root (codes "store")) 1)
      (invalid yaml_invalid)
  guard
      (not (
        contains_alias version || contains_alias store || contains_environment_interpolation store))
      (invalid yaml_invalid)
  ok (
      node mapping_node [] [] (
        child (scalar (codes "version"))
          (child version (child (scalar (codes "store")) (child store leaf)))))

-- `LoadStore`
unfoldable pub load_store : YamlPackage → File → Result StoreDocument
load_store yaml file = do
  r ← read_root yaml file false
  projection ←
      store_sections r.root (mapping_value r.root (codes "version"))
        (mapping_value r.root (codes "store"))
  decoded ← invalidated yaml_invalid (decode yaml.marshal yaml.as_store projection)
  guard (int_eqb decoded.0 (pos 1)) (invalid (codes "version must be 1"))
  validate_instance (codes "store") decoded.1.kind
  ok (record { path = r.path; dir = r.dir; version = decoded.0; store = decoded.1 })
