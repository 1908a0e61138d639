-- ===== src/Memory/Binding.antt =====
-- The resource that `CreateTask` writes, and what the loop over the resources rules out.
use delegatd.Prelude.{
  ◌≡◌, refl, ap, sym, ◌∙◌, subst, inl, inr, Bool, true, false, ◌&&◌, ◌||◌, not, [], ◌∷◌, arith,
  GoString, ◌==◌, eq_iff, GoMap, lookup, Option, none, some, ok, ok_injective, some_injective,
  Bool-cases,
}
use delegatd.Domain.Task.{TaskDraft, ResourceDraft}
use delegatd.Memory.{Resource, Parsed, stored_resource, same_identity, identity_taken, refreshed}

named_here :
    (a b : GoString) (same rest : Bool)
    → ((not (a == b) && same) || rest) ≡ false
    → same ≡ true
    → (a == b) ≡ true
named_here a b same rest h e = ground arith

later : (first rest : Bool) → (first || rest) ≡ false → rest ≡ false
later first rest h = ground arith

-- A resource of the store that has the identity of the draft has its name.
pub identity_taken-false :
    (draft : ResourceDraft) (m : GoMap Resource) (k : GoString) (r : Resource)
    → identity_taken draft m ≡ false
    → lookup k m ≡ some r
    → same_identity draft r ≡ true
    → r.name ≡ draft.name
unfolding identity_taken lookup
identity_taken-false draft [] k r h l i = cc
identity_taken-false draft ((j, q) ∷ m) k r h l i = elim (Bool-cases (j == k)) [
  | inl e ↦
      let here : q ≡ r = some_injective (rw e at l) in
      let same : same_identity draft q ≡ true =
        subst (λ x. same_identity draft x ≡ true) (sym here) i in
      ap (λ (x : Resource). x.name) (sym here)
      ∙ (eq_iff q.name draft.name).0 (named_here q.name draft.name (same_identity draft q) _ h same)
  | inr e ↦ identity_taken-false draft m k r (later _ (identity_taken draft m) h) (rw e at l) i
]

-- The resource that is written: under the name of the draft, with its connector and identity.
pub record IsKept (draft : TaskDraft) (r : Resource) (o : Option Resource) : Type 0 where
  pub name_kept :
      ((q : Resource) → o ≡ some q → q.name ≡ draft.resource.name) → r.name ≡ draft.resource.name
  pub connector_kept : r.connector ≡ draft.resource.connector
  pub identity_kept : r.external_identity ≡ draft.resource.external_identity
  pub onboarding_kept :
      (q : Resource)
      → o ≡ some q
      → (r.id ≡ q.id)
        × (r.name ≡ q.name)
        × (r.connector ≡ q.connector)
        × (r.external_identity ≡ q.external_identity)
        × (r.onboarded_at ≡ q.onboarded_at)

refreshed-IsKept :
    (draft : TaskDraft) (parsed : Parsed) (p : Resource)
    → same_identity draft.resource p ≡ true
    → IsKept draft (refreshed draft parsed p) (some p)
refreshed-IsKept draft parsed p same = record {
  name_kept = λ f. f p refl;
  connector_kept = ground (arith, eq_iff p.connector draft.resource.connector);
  identity_kept = ground (arith, eq_iff p.external_identity draft.resource.external_identity);
  onboarding_kept = λ q e.
      let f = some_injective e in
      (
        ap (λ (x : Resource). x.id) f,
        ap (λ (x : Resource). x.name) f,
        ap (λ (x : Resource). x.connector) f,
        ap (λ (x : Resource). x.external_identity) f,
        ap (λ (x : Resource). x.onboarded_at) f,
      );
}

pub stored_resource-IsKept :
    (draft : TaskDraft) (parsed : Parsed) (o : Option Resource) (r : Resource)
    → stored_resource draft parsed o ≡ ok r
    → IsKept draft r o
unfolding stored_resource
stored_resource-IsKept draft parsed none r h =
    subst (λ x. IsKept draft x none) (ok_injective h)
      (record {
        name_kept = λ f. refl;
        connector_kept = refl;
        identity_kept = refl;
        onboarding_kept = λ q e. cc;
      })
stored_resource-IsKept draft parsed (some p) r h =
    elim (Bool-cases (same_identity draft.resource p)) [
      | inr other ↦ cc (rw other at h)
      | inl same ↦
          subst (λ x. IsKept draft x (some p)) (ok_injective (rw same at h))
            (refreshed-IsKept draft parsed p same)
    ]
