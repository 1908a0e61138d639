-- ===== src/Github/Scope.antt =====
-- The permissions of a token that `Snapshot` uses.
use delegatd.Prelude.{
  ◌≡◌, ◌≢◌, ap, refl, arith, true, false, [], ◌∷◌, GoString, codes, ◌==◌, eq_iff, differ, is_empty,
  GoMap, lookup, Option, none, some, int_ltb, length,
}
use delegatd.Domain.Time.{Time}
use delegatd.Github.Snapshot.{InstallationToken, permission, is_scoped}

-- The permissions to read contents and metadata are there, and no other permission is.
abbrev pub ReadsOnly : GoMap GoString → Type 0
ReadsOnly permissions =
    (lookup (codes "contents") permissions ≡ some (codes "read"))
    × (lookup (codes "metadata") permissions ≡ some (codes "read"))
    × ((name : GoString)
        → name ≢ codes "contents"
        → name ≢ codes "metadata"
        → lookup name permissions ≡ none)

value-some :
    (o : Option GoString)
    → elim o [ none ↦ [] | some value ↦ value ] ≡ codes "read"
    → o ≡ some (codes "read")
value-some none h = cc
value-some (some value) h = ap some h

permission-lookup :
    (permissions : GoMap GoString) (name : GoString)
    → permission permissions name ≡ codes "read"
    → lookup name permissions ≡ some (codes "read")
permission-lookup permissions name h = value-some (lookup name permissions) h

-- A map with two entries that has two keys has no third.
no_third :
    {V : Type 0} (m : GoMap V) (k j name : GoString) {v w : V}
    → length m ≡ 2
    → lookup k m ≡ some v
    → lookup j m ≡ some w
    → k ≢ j
    → name ≢ k
    → name ≢ j
    → lookup name m ≡ none
unfolding lookup
no_third [] k j name two at_k at_j apart other another = cc
no_third ((a, v) ∷ []) k j name two at_k at_j apart other another = absurd (omega arith)
no_third ((a, v) ∷ (b, w) ∷ []) k j name two at_k at_j apart other another =
    grind (arith, eq_iff a k, eq_iff a j, eq_iff a name, eq_iff b k, eq_iff b j, eq_iff b name)
no_third ((a, v) ∷ (b, w) ∷ x ∷ m) k j name two at_k at_j apart other another = absurd (omega arith)

two_names : (codes "contents" == codes "metadata") ≡ false
unfolding ◌==◌
two_names = refl

-- What the test of a token finds.
pub is_scoped-ReadsOnly :
    (now : Time) (t : InstallationToken) (expires : Time)
    → is_scoped now t expires ≡ true
    → (t.token ≢ []) × (int_ltb now.instant expires.instant ≡ true) × ReadsOnly t.permissions
is_scoped-ReadsOnly now t expires h =
    let contents =
      permission-lookup t.permissions (codes "contents")
        (ground (arith, eq_iff (permission t.permissions (codes "contents")) (codes "read"))) in
    let metadata =
      permission-lookup t.permissions (codes "metadata")
        (ground (arith, eq_iff (permission t.permissions (codes "metadata")) (codes "read"))) in
    let two : length t.permissions ≡ 2 = ground arith in
    (
      λ e. ground (arith, ap is_empty e),
      ground arith,
      (
        contents,
        metadata,
        λ name other another.
            no_third t.permissions (codes "contents") (codes "metadata") name two contents metadata
              (differ _ _ two_names) other another,
      ),
    )
