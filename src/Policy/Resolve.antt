-- ===== src/Policy/Resolve.antt =====
-- internal/policy/resolve.go: `Resolve`.
pub mod Actions
pub mod Protected
use delegatd.Prelude.{
  ◌≡◌, refl, Bool, true, false, ◌&&◌, List, [], ◌∷◌, GoString, codes, ◌==◌, GoMap, StringSet,
  lookup, insert, contains, keys, Option, none, some, ℤ, pos, sort_strings, if◌then◌else◌,
}
use delegatd.Domain.Task.{PolicyRequest, EffectivePolicy, allow, deny}

-- `actions[name] = deny` for every name of a request
unfoldable pub deny_all : GoMap GoString → GoMap GoString → GoMap GoString
deny_all [] actions = actions
deny_all ((name, decision) ∷ m) actions = deny_all m (insert name deny actions)

-- `m[name] == PolicyAllow`, where a missing key reads as ""
unfoldable pub allows : GoMap GoString → GoString → Bool
allows m name = elim (lookup name m) [ none ↦ false | some decision ↦ decision == allow ]

-- The loop that grants: it writes only to keys that are there.
unfoldable pub grant : GoMap GoString → GoMap GoString → StringSet → GoMap GoString → GoMap GoString
grant operator repository task_allowed [] = []
grant operator repository task_allowed ((name, decision) ∷ m) =
    (
      name,
      if allows operator name && allows repository name && contains name task_allowed
          then allow
          else decision,
    )
    ∷ grant operator repository task_allowed m

-- `protected[value] = struct{}{}` for every path
unfoldable pub add_paths : List GoString → StringSet → StringSet
add_paths [] m = m
add_paths (p ∷ ps) m = add_paths ps (insert p tt m)

unfoldable pub resolve : PolicyRequest → PolicyRequest → StringSet → EffectivePolicy
resolve operator repository task_allowed =
    let denied = deny_all repository.actions (deny_all operator.actions []) in
    let protected = add_paths repository.protected_paths (add_paths operator.protected_paths []) in
    record {
      version = pos 1;
      default_action = deny;
      actions = grant operator.actions repository.actions task_allowed denied;
      protected_paths = sort_strings (keys protected);
    }
