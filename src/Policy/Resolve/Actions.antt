-- ===== src/Policy/Resolve/Actions.antt =====
-- Which actions the effective policy names, and which it allows.
use delegatd.Prelude.{
  ◌≡◌, refl, ap, Bool, true, ◌&&◌, ◌||◌, [], ◌∷◌, arith, GoString, ◌==◌, eq_iff, GoMap, StringSet,
  lookup, insert, lookup-insert, contains, none, some, if◌then◌else◌,
}
use delegatd.Domain.Task.{PolicyRequest, allow, deny}
use delegatd.Policy.Resolve.{deny_all, allows, grant, resolve}

lookup-deny_all :
    (m actions : GoMap GoString) (k : GoString)
    → lookup k (deny_all m actions) ≡ (if contains k m then some deny else lookup k actions)
unfolding deny_all lookup
lookup-deny_all [] actions k = refl
lookup-deny_all ((name, decision) ∷ m) actions k =
    ground
      (arith, lookup-deny_all m (insert name deny actions) k, lookup-insert name k deny actions)

-- what the granting loop makes of the entry of a name
abbrev granted : PolicyRequest → PolicyRequest → StringSet → GoString → Bool
granted operator repository task_allowed k =
    allows operator.actions k && allows repository.actions k && contains k task_allowed

lookup-grant :
    (operator repository : GoMap GoString) (task_allowed : StringSet) (m : GoMap GoString)
    (k : GoString)
    → lookup k (grant operator repository task_allowed m) ≡ (
        if allows operator k && allows repository k && contains k task_allowed && contains k m
        then some allow
        else lookup k m)
unfolding grant lookup
lookup-grant operator repository task_allowed [] k = ground arith
lookup-grant operator repository task_allowed ((name, decision) ∷ m) k =
    ground (arith, lookup-grant operator repository task_allowed m k, eq_iff name k, same name k)
  where
    same :
        (a b : GoString)
        → (a == b) ≡ true
        → (allows operator a ≡ allows operator b)
          × (allows repository a ≡ allows repository b)
          × (contains a task_allowed ≡ contains b task_allowed)
    same a b e =
        let q = (eq_iff a b).0 e in
        (ap (allows operator) q, ap (allows repository) q, ap (λ n. contains n task_allowed) q)

allows-contains : (m : GoMap GoString) (k : GoString) → allows m k ≡ true → contains k m ≡ true
unfolding allows
allows-contains m k h = ground arith

lookup-denied :
    (operator repository : GoMap GoString) (k : GoString)
    → lookup k (deny_all repository (deny_all operator []))
      ≡ (if contains k operator || contains k repository then some deny else none)
lookup-denied operator repository k =
    unfold lookup in
    ground
      (arith, lookup-deny_all repository (deny_all operator []) k, lookup-deny_all operator [] k)

-- An action that the operator or the repository names is allowed if both allow it and the task
-- asks for it, and denied otherwise; any other action is not named.
pub lookup-resolve :
    (operator repository : PolicyRequest) (task_allowed : StringSet) (k : GoString)
    → lookup k (resolve operator repository task_allowed).actions ≡ (
        if contains k operator.actions || contains k repository.actions
        then some (
            if allows operator.actions k && allows repository.actions k && contains k task_allowed
            then allow
            else deny)
        else none)
unfolding resolve
lookup-resolve operator repository task_allowed k =
    let denied = deny_all repository.actions (deny_all operator.actions []) in
    ground (
      arith,
      lookup-grant operator.actions repository.actions task_allowed denied k,
      lookup-denied operator.actions repository.actions k,
      allows-contains operator.actions k,
    )

-- Without actions that the task asks for, as `SubmitManualRepository` calls it, every action that
-- the effective policy names is denied.
pub resolve-denies :
    (operator repository : PolicyRequest) (k decision : GoString)
    → lookup k (resolve operator repository []).actions ≡ some decision
    → decision ≡ deny
resolve-denies operator repository k decision h =
    unfold lookup in ground (arith, lookup-resolve operator repository [] k)

-- Exchanging the operator's and the repository's request does not change the decision on any
-- action.
pub lookup-resolve_comm :
    (operator repository : PolicyRequest) (task_allowed : StringSet) (k : GoString)
    → lookup k (resolve operator repository task_allowed).actions
      ≡ lookup k (resolve repository operator task_allowed).actions
lookup-resolve_comm operator repository task_allowed k = ground (
  arith,
  lookup-resolve operator repository task_allowed k,
  lookup-resolve repository operator task_allowed k,
)
