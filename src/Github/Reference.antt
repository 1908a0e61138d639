-- ===== src/Github/Reference.antt =====
-- The external references that the connector accepts.
use delegatd.Prelude.{
  ◌≡◌, ◌≢◌, ap, sym, ◌∙◌, subst, arith, true, false, not, List, [], ◌∷◌, ◌++◌, All, GoString, codes,
  ◌==◌, eq_iff, trim_space, contains_byte, split, join, join-split, split-lacks, ok, ok_injective,
  Bool-cases, inl, inr,
}
use delegatd.Github.{is_owner, is_repository_name, good_parts, two_parts, parse_external_ref}

-- The two names of a reference.
pub record IsReference (value owner repo : GoString) : Type 0 where
  pub joined : value ≡ owner ++ b'/' ∷ repo
  pub owner_lacks : contains_byte b'/' owner ≡ false
  pub repo_lacks : contains_byte b'/' repo ≡ false
  pub good_owner : is_owner owner ≡ true
  pub good_name : is_repository_name repo ≡ true
  pub not_here : repo ≢ codes "."
  pub not_above : repo ≢ codes ".."

two_parts-ok :
    (parts : List GoString) {owner repo : GoString}
    → two_parts parts ≡ ok (owner, repo)
    → (parts ≡ owner ∷ repo ∷ []) × (good_parts owner repo ≡ true)
unfolding two_parts
two_parts-ok [] h = cc
two_parts-ok (a ∷ []) h = cc
two_parts-ok (a ∷ b ∷ []) {owner} {repo} h = elim (Bool-cases (good_parts a b)) [
  | inl e ↦
      let out = ok_injective (rw e at h) in
      let same_a : a ≡ owner = ap (λ (o : GoString × GoString). o.0) out in
      let same_b : b ≡ repo = ap (λ (o : GoString × GoString). o.1) out in
      (
        rw (same_a, same_b),
        subst (λ x. good_parts x repo ≡ true) same_a (subst (λ y. good_parts a y ≡ true) same_b e),
      )
  | inr e ↦ cc (rw e at h)
]
two_parts-ok (a ∷ b ∷ c ∷ rest) h = cc

differs : (s t : GoString) → not (s == t) ≡ true → s ≢ t
differs s t h e = ground (arith, (eq_iff s t).1 e)

parse_external_ref-parts :
    (value owner repo : GoString)
    → parse_external_ref value ≡ ok (owner, repo)
    → two_parts (split b'/' value) ≡ ok (owner, repo)
unfolding parse_external_ref
parse_external_ref-parts value owner repo h = elim (Bool-cases (not (value == trim_space value))) [
  | inl e ↦ cc (rw e at h)
  | inr e ↦ rw e at h
]

-- A reference that is accepted is an owner and a repository name of their patterns around one slash;
-- neither holds another slash, and the name is neither "." nor "..".
pub parse_external_ref-IsReference :
    (value owner repo : GoString)
    → parse_external_ref value ≡ ok (owner, repo)
    → IsReference value owner repo
unfolding join
parse_external_ref-IsReference value owner repo h =
    let (shape, good) =
      two_parts-ok (split b'/' value) (parse_external_ref-parts value owner repo h) in
    let clean = subst (All (λ l. contains_byte b'/' l ≡ false)) shape (split-lacks b'/' value) in
    record {
      joined = sym (join-split b'/' value) ∙ ap (join b'/') shape;
      owner_lacks = clean.0;
      repo_lacks = clean.1.0;
      good_owner = ground (arith, good);
      good_name = ground (arith, good);
      not_here = differs repo (codes ".") (ground (arith, good));
      not_above = differs repo (codes "..") (ground (arith, good));
    }
