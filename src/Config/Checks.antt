-- ===== src/Config/Checks.antt =====
-- The checks of internal/config/config.go on instances and resources.
use delegatd.Prelude.{
  ℕ, ℤ, Bool, false, ◌&&◌, ◌||◌, List, [], ◌∷◌, ◌++◌, GoString, codes, eqb, in_range, GoMap, lookup,
  keys, contains, sort_strings, Option, none, some, Result, ok, ◌>>◌, all,
}
use delegatd.Domain.Task.{PolicyRequest}
use delegatd.Memory.{guard}
use delegatd.Config.Yaml.{Node, is_mapping, invalid}

pub record Instance : Type 0 where
  pub kind : GoString
  pub config : Node

pub record Resource : Type 0 where
  pub kind : GoString
  pub connector : GoString
  pub config : Node

pub record Config : Type 0 where
  pub version : ℤ
  pub store : Instance
  pub connectors : GoMap Instance
  pub workspace_providers : GoMap Instance
  pub agent_runtimes : GoMap Instance
  pub resources : GoMap Resource
  pub policy : PolicyRequest

abbrev name_byte : ℕ → Bool
name_byte b = in_range b'a' b'z' b || in_range b'0' b'9' b || eqb b b'-'

-- `^[a-z][a-z0-9-]*$`
unfoldable pub is_instance_name : GoString → Bool
is_instance_name [] = false
is_instance_name (b ∷ s) = in_range b'a' b'z' b && all name_byte s

-- `validateInstance`, and the same test of the loops below
unfoldable pub validate_instance : GoString → GoString → Result (Unit {0})
validate_instance section kind =
    guard (is_instance_name kind) (invalid (section ++ codes " kind is missing or invalid"))

abbrev pub kind_of : Option Instance → GoString
kind_of none = []
kind_of (some i) = i.kind

-- the loop of `validateInstances` over the sorted names
unfoldable pub check_instances :
    GoString → GoString → GoMap Instance → List GoString → Result (Unit {0})
check_instances section prefix instances [] = ok tt
check_instances section prefix instances (name ∷ names) = do
  guard (is_instance_name name) (invalid (section ++ codes " contains an invalid instance name"))
  validate_instance (prefix ++ b'.' ∷ name) (kind_of (lookup name instances))
  check_instances section prefix instances names

-- `validateInstances`
unfoldable pub validate_instances : GoString → GoString → GoMap Instance → Result (Unit {0})
validate_instances section prefix instances =
    check_instances section prefix instances (sort_strings (keys instances))

-- one round of the loop of `validateResources`
unfoldable pub check_resource : GoMap Instance → GoString → Option Resource → Result (Unit {0})
check_resource connectors name none = ok tt
check_resource connectors name (some r) = do
  guard (is_instance_name name) (invalid (codes "resources contains an invalid instance name"))
  guard (is_instance_name r.kind)
      (invalid (codes "resource." ++ name ++ codes " kind is missing or invalid"))
  guard (is_instance_name r.connector)
      (invalid (codes "resource." ++ name ++ codes " connector is missing or invalid"))
  guard (contains r.connector connectors)
      (invalid (codes "resource." ++ name ++ codes " connector is unknown"))
  guard (is_mapping r.config)
      (invalid (codes "resource." ++ name ++ codes " configuration is invalid"))

-- The loop over the sorted names, which are keys of the map.
unfoldable pub check_resources : GoMap Instance → GoMap Resource → List GoString → Result (Unit {0})
check_resources connectors resources [] = ok tt
check_resources connectors resources (name ∷ names) = do
  check_resource connectors name (lookup name resources)
  check_resources connectors resources names

-- `validateResources`
unfoldable pub validate_resources : Config → Result (Unit {0})
validate_resources c = check_resources c.connectors c.resources (sort_strings (keys c.resources))
