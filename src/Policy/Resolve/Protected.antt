-- ===== src/Policy/Resolve/Protected.antt =====
-- The protected paths of the effective policy: the union of both lists, in order, each path once.
use delegatd.Prelude.{
  ◌≡◌, ◌⊎◌, inl, inr, List, [], ◌∷◌, GoString, StringSet, insert, keys, In, IsSorted, Distinct,
  IsSorted-unique, sort_strings-IsSorted, In-sort_strings, In-keys-insert, In-keys-insert_inv,
  In-keys-insert_self, Distinct-keys-insert,
}
use delegatd.Domain.Task.{PolicyRequest}
use delegatd.Policy.Resolve.{add_paths, resolve}

add_paths-Distinct :
    (ps : List GoString) (m : StringSet) → Distinct (keys m) → Distinct (keys (add_paths ps m))
unfolding add_paths
add_paths-Distinct [] m d = d
add_paths-Distinct (p ∷ ps) m d =
    add_paths-Distinct ps (insert p tt m) (Distinct-keys-insert p tt m d)

-- What was in the set stays.
add_paths-keeps :
    (a : GoString) (ps : List GoString) (m : StringSet)
    → In a (keys m)
    → In a (keys (add_paths ps m))
unfolding add_paths
add_paths-keeps a [] m i = i
add_paths-keeps a (p ∷ ps) m i = add_paths-keeps a ps (insert p tt m) (In-keys-insert p a tt m i)

add_paths-adds :
    (a : GoString) (ps : List GoString) (m : StringSet) → In a ps → In a (keys (add_paths ps m))
unfolding add_paths
add_paths-adds a [] m i = elim i [ ]
add_paths-adds a (p ∷ ps) m (inl e) =
    add_paths-keeps a ps (insert p tt m) (rw e (In-keys-insert_self p tt m))
add_paths-adds a (p ∷ ps) m (inr i) = add_paths-adds a ps (insert p tt m) i

add_paths-only :
    (a : GoString) (ps : List GoString) (m : StringSet)
    → In a (keys (add_paths ps m))
    → In a ps ⊎ In a (keys m)
unfolding add_paths
add_paths-only a [] m i = inr i
add_paths-only a (p ∷ ps) m i = elim (add_paths-only a ps (insert p tt m) i) [
  | inl later ↦ inl (inr later)
  | inr there ↦ elim (In-keys-insert_inv p a tt m there) [ inl e ↦ inl (inl e) | inr old ↦ inr old ]
]

protected-IsSorted :
    (operator repository : PolicyRequest) (task_allowed : StringSet)
    → IsSorted (resolve operator repository task_allowed).protected_paths
unfolding resolve
protected-IsSorted operator repository task_allowed =
    let first = add_paths operator.protected_paths [] in
    sort_strings-IsSorted (keys (add_paths repository.protected_paths first)) (
      add_paths-Distinct repository.protected_paths first
        (add_paths-Distinct operator.protected_paths [] tt))

protected-only :
    (operator repository : PolicyRequest) (task_allowed : StringSet) (a : GoString)
    → In a (resolve operator repository task_allowed).protected_paths
    → In a operator.protected_paths ⊎ In a repository.protected_paths
unfolding resolve
protected-only operator repository task_allowed a i =
    let first = add_paths operator.protected_paths [] in
    let all_paths = keys (add_paths repository.protected_paths first) in
    elim (add_paths-only a repository.protected_paths first ((In-sort_strings a all_paths).0 i)) [
      | inl here ↦ inr here
      | inr there ↦ elim (add_paths-only a operator.protected_paths [] there) [
        | inl here ↦ inl here
        | inr nowhere ↦ elim nowhere [ ]
      ]
    ]

protected-all :
    (operator repository : PolicyRequest) (task_allowed : StringSet) (a : GoString)
    → In a operator.protected_paths ⊎ In a repository.protected_paths
    → In a (resolve operator repository task_allowed).protected_paths
unfolding resolve
protected-all operator repository task_allowed a =
    let first = add_paths operator.protected_paths [] in
    let all_paths = keys (add_paths repository.protected_paths first) in
    elim [
      | inl i ↦ (In-sort_strings a all_paths).1 (
          add_paths-keeps a repository.protected_paths first
            (add_paths-adds a operator.protected_paths [] i))
      | inr i ↦
          (In-sort_strings a all_paths).1 (add_paths-adds a repository.protected_paths first i)
    ]

-- The effective policy protects exactly the paths that the operator or the repository protects, in
-- strictly increasing order.
pub resolve-protected :
    (operator repository : PolicyRequest) (task_allowed : StringSet)
    → IsSorted (resolve operator repository task_allowed).protected_paths
      × ((a : GoString)
          → (In a (resolve operator repository task_allowed).protected_paths
              → In a operator.protected_paths ⊎ In a repository.protected_paths)
            × (In a operator.protected_paths ⊎ In a repository.protected_paths
                → In a (resolve operator repository task_allowed).protected_paths))
resolve-protected operator repository task_allowed = (
  protected-IsSorted operator repository task_allowed,
  λ a. (
    protected-only operator repository task_allowed a,
    protected-all operator repository task_allowed a,
  ),
)

-- The list of protected paths is the same for requests that protect the same paths, in whatever
-- order and however often they name them, and in whatever order Go iterates over the set.
pub protected_determined :
    (operator repository operator' repository' : PolicyRequest)
    (task_allowed task_allowed' : StringSet)
    → ((a : GoString)
        → In a operator.protected_paths ⊎ In a repository.protected_paths
        → In a operator'.protected_paths ⊎ In a repository'.protected_paths)
    → ((a : GoString)
        → In a operator'.protected_paths ⊎ In a repository'.protected_paths
        → In a operator.protected_paths ⊎ In a repository.protected_paths)
    → (resolve operator repository task_allowed).protected_paths
      ≡ (resolve operator' repository' task_allowed').protected_paths
protected_determined o r o' r' t t' f g =
    IsSorted-unique (resolve o r t).protected_paths (resolve o' r' t').protected_paths
      (protected-IsSorted o r t) (protected-IsSorted o' r' t')
      (λ a i. protected-all o' r' t' a (f a (protected-only o r t a i)))
      (λ a i. protected-all o r t a (g a (protected-only o' r' t' a i)))
