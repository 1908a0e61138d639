-- ===== src/Examples/Policy.antt =====
-- Policies.
use delegatd.Prelude.{
  pos, ◌≡◌, refl, ◌⊎◌, [], ◌∷◌, GoString, codes, ok, StringSet, lookup, insert, some, ◌==◌, In,
  IsSorted, split, contains_any, contains_text, has_prefix, has_suffix, trim_space, trim_left,
  trim_right, sort_strings, true, false, cons_first,
}
use delegatd.Domain.Utf8.{after_rune}
use delegatd.Domain.Task.{PolicyRequest, allow, deny}
use delegatd.Policy.Names.{is_action_name}
use delegatd.Policy.Glob.{glob_ok}
use delegatd.Policy.Paths.{normalize_protected_path, normalize_instruction_path}
use delegatd.Policy.Request.{normalize_request, normalize_actions, normalize_paths}
use delegatd.Policy.Request.Normal.{IsNormal, normalize_request-IsNormal}
use delegatd.Policy.Resolve.{resolve, deny_all, grant, add_paths, allows}
use delegatd.Policy.Resolve.Actions.{lookup-resolve}
use delegatd.Policy.Resolve.Protected.{resolve-protected}

glob_tests :
    (glob_ok (codes "*.go") ≡ true)
    × (glob_ok (codes "[a-z]*[!x]?") ≡ true)
    × (glob_ok (codes "[") ≡ false)
    × (glob_ok (codes "a*[]") ≡ false)
    × (glob_ok (codes "[a-]") ≡ false)
    × (glob_ok (codes "[]a]") ≡ false)
    × (glob_ok (codes "[^a]") ≡ true)
    × (glob_ok (codes "x]") ≡ true)
unfolding glob_ok cons_first after_rune
glob_tests = (refl, refl, refl, refl, refl, refl, refl, refl)

abbrev raw_path : GoString
raw_path = codes " src/**/[a-c]*.go "

abbrev path : GoString
path = codes "src/**/[a-c]*.go"

raw_path_normal : normalize_protected_path raw_path ≡ ok path
unfolding normalize_protected_path trim_space trim_left trim_right ◌==◌ contains_any contains_text
    has_prefix has_suffix split glob_ok cons_first after_rune
raw_path_normal = refl

raw_instructions_normal :
    normalize_instruction_path (codes " docs/agents.md") ≡ ok (codes "docs/agents.md")
unfolding normalize_instruction_path trim_space trim_left trim_right ◌==◌ contains_any has_prefix
    has_suffix split
raw_instructions_normal = refl

-- a request of the operator
abbrev operator : PolicyRequest
operator = record {
  actions = (codes "git.push", allow) ∷ (codes "git.tag", deny) ∷ [];
  protected_paths = raw_path ∷ codes "go.mod" ∷ [];
}

abbrev normal_operator : PolicyRequest
normal_operator = record {
  actions = (codes "git.tag", deny) ∷ (codes "git.push", allow) ∷ [];
  protected_paths = path ∷ codes "go.mod" ∷ [];
}

abbrev repository : PolicyRequest
repository = record {
  actions = (codes "git.push", allow) ∷ (codes "shell.run", allow) ∷ [];
  protected_paths = codes "go.mod" ∷ codes "a" ∷ [];
}

operator_normal : normalize_request operator ≡ ok normal_operator
unfolding normalize_request normalize_actions normalize_paths is_action_name insert lookup
    normalize_protected_path trim_space trim_left trim_right ◌==◌ contains_any contains_text
    has_prefix has_suffix split glob_ok cons_first after_rune
operator_normal = refl

resolve_test :
    resolve normal_operator repository ((codes "git.push", tt) ∷ (codes "shell.run", tt) ∷ [])
    ≡ record {
      version = pos 1;
      default_action = deny;
      actions =
          (codes "git.tag", deny) ∷ (codes "git.push", allow) ∷ (codes "shell.run", deny) ∷ [];
      protected_paths = codes "a" ∷ codes "go.mod" ∷ path ∷ [];
    }
unfolding resolve deny_all grant allows add_paths lookup insert ◌==◌ sort_strings
resolve_test = refl

normalize_request-IsNormal_example : IsNormal operator normal_operator
normalize_request-IsNormal_example =
    normalize_request-IsNormal operator normal_operator operator_normal

abbrev asked : StringSet
asked = (codes "git.push", tt) ∷ []

lookup-resolve_example :
    lookup (codes "git.push") (resolve normal_operator repository asked).actions ≡ some allow
unfolding lookup ◌==◌ allows
lookup-resolve_example = lookup-resolve normal_operator repository asked (codes "git.push")

resolve-protected_example :
    IsSorted (resolve normal_operator repository asked).protected_paths
    × ((a : GoString)
        → (In a (resolve normal_operator repository asked).protected_paths
            → In a normal_operator.protected_paths ⊎ In a repository.protected_paths)
          × (In a normal_operator.protected_paths ⊎ In a repository.protected_paths
              → In a (resolve normal_operator repository asked).protected_paths))
resolve-protected_example = resolve-protected normal_operator repository asked
