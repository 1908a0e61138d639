-- ===== src/Config/Yaml.antt =====
-- The YAML trees that internal/config reads, its functions on them, and the YAML package as a
-- parameter. `Tag` and `Value` are texts; an alias node's target is not followed by the program.
use delegatd.Prelude.{
  ℕ, ◌+◌, Bool, true, false, ◌&&◌, ◌||◌, [], ◌∷◌, GoString, codes, ◌==◌, eqb, in_range, Option,
  none, some, Result, ok, err, GoError, plain, typed, wrapped, validation, ◌>>=◌, if◌then◌else◌,
}

pub data NodeKind : Type 0 where
  document_node sequence_node mapping_node scalar_node alias_node : NodeKind

mutual
  pub data Node : Type 0 where
    node : NodeKind → GoString → GoString → Nodes → Node

  -- `Content`
  pub data Nodes : Type 0 where
    leaf : Nodes
    child : Node → Nodes → Nodes

-- What a second `Decode` of a decoder does.
pub data Tail : Type 0 where
  at_end another : Tail
  broken : GoError → Tail

-- What a first `Decode` does, and the second one after it.
pub data Read {ℓ} (A : Type ℓ) : Type ℓ where
  fault : GoError → Read A
  value : A → Tail → Read A

abbrev pub is_mapping : Node → Bool
is_mapping (node document_node t v c) = false
is_mapping (node sequence_node t v c) = false
is_mapping (node mapping_node t v c) = true
is_mapping (node scalar_node t v c) = false
is_mapping (node alias_node t v c) = false

abbrev is_alias : NodeKind → Bool
is_alias document_node = false
is_alias sequence_node = false
is_alias mapping_node = false
is_alias scalar_node = false
is_alias alias_node = true

abbrev is_scalar : NodeKind → Bool
is_scalar document_node = false
is_scalar sequence_node = false
is_scalar mapping_node = false
is_scalar scalar_node = true
is_scalar alias_node = false

-- `\$[A-Za-z_{]`, anywhere in a text
abbrev opens_name : GoString → Bool
opens_name [] = false
opens_name (b ∷ s) = in_range b'A' b'Z' b || in_range b'a' b'z' b || eqb b b'_' || eqb b b'{'

unfoldable pub interpolates : GoString → Bool
interpolates [] = false
interpolates (b ∷ s) = (eqb b b'$' && opens_name s) || interpolates s

unfoldable mutual
  -- `containsAlias`
  pub contains_alias : Node → Bool
  contains_alias (node k t v c) = is_alias k || any_alias c

  pub any_alias : Nodes → Bool
  any_alias leaf = false
  any_alias (child n c) = contains_alias n || any_alias c

unfoldable mutual
  -- `containsEnvironmentInterpolation`
  pub contains_environment_interpolation : Node → Bool
  contains_environment_interpolation (node k t v c) =
      (is_scalar k && interpolates v) || any_interpolation c

  pub any_interpolation : Nodes → Bool
  any_interpolation leaf = false
  any_interpolation (child n c) = contains_environment_interpolation n || any_interpolation c

abbrev text_of : Node → GoString
text_of (node k t v c) = v

abbrev content_of : Node → Nodes
content_of (node k t v c) = c

-- the loops of `mappingValue` and `mappingCount` over the pairs of a mapping
unfoldable pub value_in : Nodes → GoString → Option Node
value_in leaf key = none
value_in (child k leaf) key = none
value_in (child k (child v rest)) key = if text_of k == key then some v else value_in rest key

unfoldable pub count_in : Nodes → GoString → ℕ
count_in leaf key = 0
count_in (child k leaf) key = 0
count_in (child k (child v rest)) key =
    let others = count_in rest key in if text_of k == key then others + 1 else others

-- `mappingValue`
unfoldable pub mapping_value : Node → GoString → Option Node
mapping_value n key = if is_mapping n then value_in (content_of n) key else none

-- `mappingCount`
unfoldable pub mapping_count : Node → GoString → ℕ
mapping_count n key = if is_mapping n then count_in (content_of n) key else 0

-- `scalarNode`
abbrev pub scalar : GoString → Node
scalar text = node scalar_node (codes "!!str") text leaf

-- `validationError` without a cause, and with one
abbrev pub invalid : GoString → GoError
invalid reason = typed validation reason

abbrev pub yaml_invalid : GoString
yaml_invalid = codes "configuration YAML is invalid"

-- `Decode`: `marshal` and `read` are the YAML package's, for the type of the destination.
not_mapping : GoError
not_mapping = plain (codes "configuration must be a mapping")

unfoldable pub only_document {ℓ} : {A : Type ℓ} → Read A → Result A
only_document (fault e) = err e
only_document (value a at_end) = ok a
only_document (value a another) = err (plain (codes "configuration contains multiple documents"))
only_document (value a (broken e)) = err e

-- the mapping that a document or a mapping is
unfoldable pub mapping_of : Node → Result Node
unfolding not_mapping
mapping_of (node document_node t v (child n leaf)) = if is_mapping n then ok n else err not_mapping
mapping_of (node document_node t v leaf) = err not_mapping
mapping_of (node document_node t v (child n (child m c))) = err not_mapping
mapping_of (node sequence_node t v c) = err not_mapping
mapping_of (node mapping_node t v c) = ok (node mapping_node t v c)
mapping_of (node scalar_node t v c) = err not_mapping
mapping_of (node alias_node t v c) = err not_mapping

unfoldable pub decode {ℓ} :
    {A : Type ℓ} → (Node → Result GoString) → (GoString → Read A) → Node → Result A
decode marshal read n = do m ← mapping_of n; written ← marshal m; only_document (read written)

-- The root of a document with one mapping.
unfoldable pub root_of : Node → Result Node
root_of (node document_node t v (child n leaf)) =
    if is_mapping n then ok n else err (invalid yaml_invalid)
root_of (node document_node t v leaf) = err (invalid yaml_invalid)
root_of (node document_node t v (child n (child m c))) = err (invalid yaml_invalid)
root_of (node sequence_node t v c) = err (invalid yaml_invalid)
root_of (node mapping_node t v c) = err (invalid yaml_invalid)
root_of (node scalar_node t v c) = err (invalid yaml_invalid)
root_of (node alias_node t v c) = err (invalid yaml_invalid)

-- the test of the second `Decode`
unfoldable pub check_tail : Tail → Node → Result Node
check_tail at_end root = ok root
check_tail another root = err (invalid (codes "configuration must contain exactly one document"))
check_tail (broken e) root = err (wrapped validation yaml_invalid e)

-- `decodeSingleDocument`; the argument is what the decoder reads from the data.
unfoldable pub decode_single_document : Bool → Read Node → Result Node
decode_single_document reject_aliases (fault e) = err (wrapped validation yaml_invalid e)
decode_single_document reject_aliases (value document tail) = do
  root ← root_of document
  (if reject_aliases && contains_alias root
      then err (invalid yaml_invalid)
      else check_tail tail root)
