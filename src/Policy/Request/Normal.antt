-- ===== src/Policy/Request/Normal.antt =====
-- What an accepted policy request holds, and that normalizing it again changes nothing.
use delegatd.Prelude.{
  ◌≡◌, refl, ap, sym, ◌∙◌, ◌⊎◌, inl, inr, true, false, List, [], ◌∷◌, arith, GoString, ◌==◌, eq_iff,
  GoMap, StringSet, lookup, insert, lookup-insert, contains, In, Distinct, lookup-insert_self,
  lookup-cons, ok_injective, subst, ok, >>=-eq-ok, if◌then◌else◌, Bool-cases, is_some, some, All,
  contains_byte, trim_space, split,
}
use delegatd.Domain.Task.{PolicyRequest, allow, deny}
use delegatd.Policy.Names.{is_action_name}
use delegatd.Policy.Paths.{normalize_protected_path}
use delegatd.Policy.Paths.Normal.{
  IsInner, normalize_protected_path-inversion, normalize_protected_path_twice,
  normalize_protected_path-IsInner,
}
use delegatd.Policy.Request.{
  check_action, normalize_actions, check_fresh, normalize_paths, normalize_request,
}

-- The name matches the pattern, and the decision is one of the two.
abbrev pub IsAction : GoString → GoString → Type 0
IsAction name decision = (is_action_name name ≡ true) × ((decision ≡ allow) ⊎ (decision ≡ deny))

abbrev pub AllActions : GoMap GoString → Type 0
AllActions [] = Unit
AllActions ((name, decision) ∷ m) = IsAction name decision × AllActions m

check_action-IsAction :
    (name decision : GoString) → check_action name decision ≡ ok tt → IsAction name decision
unfolding check_action
check_action-IsAction name decision h = ground (arith, eq_iff decision allow, eq_iff decision deny)

IsAction-check_action :
    (name decision : GoString) → IsAction name decision → check_action name decision ≡ ok tt
unfolding check_action
IsAction-check_action name decision h = ground (arith, eq_iff decision allow, eq_iff decision deny)

AllActions-insert :
    (name decision : GoString) (m : GoMap GoString)
    → IsAction name decision
    → AllActions m
    → AllActions (insert name decision m)
unfolding insert
AllActions-insert name decision [] a h = (a, tt)
AllActions-insert name decision ((n, d) ∷ m) a h = elim (Bool-cases (n == name)) [
  | inl e ↦ rw e (a, h.1)
  | inr e ↦ rw e (h.0, AllActions-insert name decision m a h.1)
]

-- The new map reads like the request's, and the entries of both are good.
abbrev Read : GoMap GoString → GoMap GoString → Type 0
Read m actions =
    ((k : GoString) → lookup k actions ≡ lookup k m) × AllActions m × AllActions actions

-- The loop over the actions succeeds on good entries, and its map reads like the request's.
normalize_actions-lookup :
    (m : GoMap GoString) (actions : GoMap GoString)
    → normalize_actions m ≡ ok actions
    → Read m actions
unfolding normalize_actions
normalize_actions-lookup [] actions h = subst (Read []) (ok_injective h) ((λ k. refl), tt, tt)
normalize_actions-lookup ((name, decision) ∷ m) actions h =
    let (u, checked, h') = >>=-eq-ok (check_action name decision) _ h in
    let (rest, done, last) = >>=-eq-ok (normalize_actions m) _ h' in
    let (same, before, after) = normalize_actions-lookup m rest done in
    let action = check_action-IsAction name decision checked in
    subst (Read ((name, decision) ∷ m)) (ok_injective last) (
      λ k.
          lookup-insert name k decision rest
          ∙ ap (λ o. if name == k then some decision else o) (same k)
          ∙ sym (lookup-cons name k decision m),
      (action, before),
      AllActions-insert name decision rest action after,
    )

normalize_actions_total :
    (m : GoMap GoString)
    → AllActions m
    → (actions : GoMap GoString) × (normalize_actions m ≡ ok actions)
unfolding normalize_actions
normalize_actions_total [] a = ([], refl)
normalize_actions_total ((name, decision) ∷ m) a =
    let (rest, done) = normalize_actions_total m a.1 in
    (insert name decision rest, rw (IsAction-check_action name decision a.0) (rw done))

abbrev Fixed : StringSet → List GoString → Type 0
Fixed seen paths = normalize_paths paths seen ≡ ok paths

normalize_paths-cons :
    (p : GoString) (rest : List GoString) (seen : StringSet)
    → normalize_protected_path p ≡ ok p
    → check_fresh p seen ≡ ok tt
    → Fixed (insert p tt seen) rest
    → Fixed seen (p ∷ rest)
unfolding normalize_paths
normalize_paths-cons p rest seen normal fresh again = rw normal (rw fresh (rw again))

-- The paths that the loop puts out pass it again, unchanged.
normalize_paths_twice :
    (raws : List GoString) (seen : StringSet) (paths : List GoString)
    → normalize_paths raws seen ≡ ok paths
    → normalize_paths paths seen ≡ ok paths
unfolding normalize_paths
normalize_paths_twice [] seen paths h = subst (Fixed seen) (ok_injective h) refl
normalize_paths_twice (raw ∷ raws) seen paths h =
    let (p, normal, h') = >>=-eq-ok (normalize_protected_path raw) _ h in
    let (u, fresh, h'') = >>=-eq-ok (check_fresh p seen) _ h' in
    let (rest, done, last) = >>=-eq-ok (normalize_paths raws (insert p tt seen)) _ h'' in
    let again = normalize_paths_twice raws (insert p tt seen) rest done in
    subst (Fixed seen) (ok_injective last)
      (normalize_paths-cons p rest seen (normalize_protected_path_twice raw p normal) fresh again)

abbrev Unseen : StringSet → List GoString → Type 0
Unseen seen paths = Distinct paths × ((p : GoString) → In p paths → contains p seen ≡ false)

check_fresh-unseen :
    (p : GoString) (seen : StringSet) → check_fresh p seen ≡ ok tt → contains p seen ≡ false
unfolding check_fresh
check_fresh-unseen p seen h = ground arith

unseen_cons :
    (p : GoString) (rest : List GoString) (seen : StringSet)
    → check_fresh p seen ≡ ok tt
    → ((q : GoString) → In q rest → contains q (insert p tt seen) ≡ false)
    → (q : GoString) → In q (p ∷ rest)
    → contains q seen ≡ false
unseen_cons p rest seen fresh unseen q (inl e) = rw e (check_fresh-unseen p seen fresh)
unseen_cons p rest seen fresh unseen q (inr i) =
    ground (arith, unseen q i, lookup-insert p q tt seen)

-- No path is put out twice, nor one that was seen.
normalize_paths-Distinct :
    (raws : List GoString) (seen : StringSet) (paths : List GoString)
    → normalize_paths raws seen ≡ ok paths
    → Unseen seen paths
unfolding normalize_paths
normalize_paths-Distinct [] seen paths h =
    subst (Unseen seen) (ok_injective h) (tt, λ p i. elim i [ ])
normalize_paths-Distinct (raw ∷ raws) seen paths h =
    let (p, normal, h') = >>=-eq-ok (normalize_protected_path raw) _ h in
    let (u, fresh, h'') = >>=-eq-ok (check_fresh p seen) _ h' in
    let (rest, done, last) = >>=-eq-ok (normalize_paths raws (insert p tt seen)) _ h'' in
    let (distinct, unseen) = normalize_paths-Distinct raws (insert p tt seen) rest done in
    subst (Unseen seen) (ok_injective last) (
      (λ i. cc (unseen p i, ap is_some (lookup-insert_self p tt seen)), distinct),
      unseen_cons p rest seen fresh unseen,
    )

abbrev Renormal : PolicyRequest → Type 0
Renormal normal =
    (again : PolicyRequest) × (normalize_request normal ≡ ok again)
    × ((k : GoString) → lookup k again.actions ≡ lookup k normal.actions)
    × (again.protected_paths ≡ normal.protected_paths)

-- Normalizing an accepted request again accepts it, with actions that read the same and the same
-- protected paths.
pub normalize_request_twice :
    (request normal : PolicyRequest)
    → normalize_request request ≡ ok normal
    → (again : PolicyRequest) × (normalize_request normal ≡ ok again)
      × ((k : GoString) → lookup k again.actions ≡ lookup k normal.actions)
      × (again.protected_paths ≡ normal.protected_paths)
unfolding normalize_request
normalize_request_twice request normal h =
    let (actions, ha, h') = >>=-eq-ok (normalize_actions request.actions) _ h in
    let (paths, hp, last) = >>=-eq-ok (normalize_paths request.protected_paths []) _ h' in
    let (same, before, after) = normalize_actions-lookup request.actions actions ha in
    let (actions', ha') = normalize_actions_total actions after in
    let hp' = normalize_paths_twice request.protected_paths [] paths hp in
    subst Renormal (ok_injective last) (
      record { actions = actions'; protected_paths = paths },
      rw (ha', hp'),
      (normalize_actions-lookup actions actions' ha').0,
      refl,
    )

-- The paths without the white space at their ends, in order.
abbrev pub trimmed : List GoString → List GoString
trimmed [] = []
trimmed (raw ∷ raws) = trim_space raw ∷ trimmed raws

-- A path without backslash and NUL whose segments stay below the directory they start in.
abbrev pub IsBelow : GoString → Type 0
IsBelow p = (contains_byte 92 p ≡ false) × (contains_byte 0 p ≡ false) × All IsInner (split b'/' p)

-- The loop keeps every path, trimmed, and each is good.
normalize_paths-trimmed :
    (raws : List GoString) (seen : StringSet) (paths : List GoString)
    → normalize_paths raws seen ≡ ok paths
    → (paths ≡ trimmed raws) × All IsBelow paths
unfolding normalize_paths
normalize_paths-trimmed [] seen paths h =
    subst (λ ps. (ps ≡ []) × All IsBelow ps) (ok_injective h) (refl, tt)
normalize_paths-trimmed (raw ∷ raws) seen paths h =
    let (p, normal, h') = >>=-eq-ok (normalize_protected_path raw) _ h in
    let (u, fresh, h'') = >>=-eq-ok (check_fresh p seen) _ h' in
    let (rest, done, last) = >>=-eq-ok (normalize_paths raws (insert p tt seen)) _ h'' in
    let (same, good) = normalize_paths-trimmed raws (insert p tt seen) rest done in
    let first : p ≡ trim_space raw = sym (normalize_protected_path-inversion raw p normal).0 in
    subst (λ ps. (ps ≡ trimmed (raw ∷ raws)) × All IsBelow ps) (ok_injective last)
      (cc (first, same), (normalize_protected_path-IsInner raw p normal, good))

-- What holds of a normalized request: its actions read like those of the request, each with a good
-- name and decision; its protected paths are those of the request in order, trimmed, each is good,
-- and they are distinct.
pub record IsNormal (request normal : PolicyRequest) : Type 0 where
  pub same_actions : (k : GoString) → lookup k normal.actions ≡ lookup k request.actions
  pub good_actions : AllActions normal.actions
  pub same_paths : normal.protected_paths ≡ trimmed request.protected_paths
  pub good_paths : All IsBelow normal.protected_paths
  pub distinct_paths : Distinct normal.protected_paths

-- An accepted request keeps every action and decision it had; all names match the pattern and all
-- decisions are "allow" or "deny"; its protected paths are those of the request in order, without
-- the white space at their ends; none stands twice, none holds a backslash or a NUL, and none has a
-- segment that is "", "." or "..".
pub normalize_request-IsNormal :
    (request normal : PolicyRequest)
    → normalize_request request ≡ ok normal
    → IsNormal request normal
unfolding normalize_request
normalize_request-IsNormal request normal h =
    let (actions, ha, h') = >>=-eq-ok (normalize_actions request.actions) _ h in
    let (paths, hp, last) = >>=-eq-ok (normalize_paths request.protected_paths []) _ h' in
    let (same, before, after) = normalize_actions-lookup request.actions actions ha in
    let (same_paths, good_paths) = normalize_paths-trimmed request.protected_paths [] paths hp in
    subst (IsNormal request) (ok_injective last) (record {
      same_actions = same;
      good_actions = after;
      same_paths = same_paths;
      good_paths = good_paths;
      distinct_paths = (normalize_paths-Distinct request.protected_paths [] paths hp).0;
    })
