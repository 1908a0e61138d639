-- ===== src/Memory/Outcome.antt =====
-- The two outcomes of `CreateTask`: an error and the store as it was, or the writes of one task.
use delegatd.Prelude.{
  ◌≡◌, refl, ap, sym, ◌∙◌, subst, ◌⊎◌, inl, inr, ◌↔◌, true, false, lookup, contains, Option, none,
  some, Result, ok, err, GoError, plain, codes, Result-cases, some_injective, ◌>>◌, Bool-cases,
}
use delegatd.Domain.Json.{Codec, IsCodec}
use delegatd.Domain.Snapshot.{parse_snapshot-IsCanonical}
use delegatd.Domain.Task.{TaskDraft, Task}
use delegatd.Memory.{
  Resource, Store, Parsed, validate_draft, parse_snapshots, same_identity, identity_taken,
  stored_resource, created_task, copy_task, written, commit, create_locked, create_parsed,
  create_task, conflict, onboarded, refreshed, store_error, not_submitted,
}
use delegatd.Memory.Snapshots.{
  IsValidDraft, validate_draft-IsValidDraft, IsValidDraft-validate_draft, AllParsed,
  parse_snapshots-total, copy_task-canonical,
}

-- The call failed and wrote nothing.
abbrev pub Rejected : Store → Result Task × Store → Type 0
Rejected s out = (e : GoError) × (out ≡ (err e, s))

-- What has to hold of the store for a draft.
pub record Admits (draft : TaskDraft) (s : Store) : Type 0 where
  pub fresh : contains draft.id s.tasks ≡ false
  pub free : identity_taken draft.resource s.resources ≡ false
  pub bound :
      (r : Resource)
      → lookup draft.resource.name s.resources ≡ some r
      → same_identity draft.resource r ≡ true

-- The call wrote one task and the resource `r`, and returned the task.
pub record Stored (codec : Codec) (draft : TaskDraft) (s : Store) (out : Result Task × Store)
    : Type 0 where
  pub parsed : Parsed
  pub resource : Resource
  pub valid : IsValidDraft codec draft
  pub all_parsed : AllParsed codec draft parsed
  pub admitted : Admits draft s
  pub kept : stored_resource draft parsed (lookup draft.resource.name s.resources) ≡ ok resource
  pub result : out ≡ (ok (created_task draft parsed resource), written draft parsed resource s)

module _ (codec : Codec) (laws : IsCodec codec) (draft : TaskDraft) (s : Store) where
  -- the copy that is returned never fails
  copy-created :
      (parsed : Parsed) (r : Resource)
      → AllParsed codec draft parsed
      → copy_task codec (created_task draft parsed r) ≡ ok (created_task draft parsed r)
  copy-created parsed r a =
      copy_task-canonical codec (created_task draft parsed r)
        (parse_snapshot-IsCanonical codec laws draft.input.bytes parsed.input a.input)
        (parse_snapshot-IsCanonical codec laws draft.configuration.bytes parsed.task_configuration
          a.task_configuration)
        (parse_snapshot-IsCanonical codec laws draft.policy.bytes parsed.policy a.policy)

  bound_of_kept :
      (parsed : Parsed) (o : Option Resource) {r : Resource}
      → stored_resource draft parsed o ≡ ok r
      → (q : Resource) → o ≡ some q
      → same_identity draft.resource q ≡ true
  unfolding stored_resource
  bound_of_kept parsed none h q e = cc
  bound_of_kept parsed (some p) {r} h q e =
      subst (λ x. same_identity draft.resource x ≡ true) (some_injective e)
        (elim (Bool-cases (same_identity draft.resource p)) [ inl y ↦ y | inr n ↦ cc (rw n at h) ])

  commit-cases :
      (parsed : Parsed)
      → IsValidDraft codec draft
      → AllParsed codec draft parsed
      → contains draft.id s.tasks ≡ false
      → identity_taken draft.resource s.resources ≡ false
      → (res : Result Resource)
      → stored_resource draft parsed (lookup draft.resource.name s.resources) ≡ res
      → Rejected s (commit codec draft parsed s res)
        ⊎ Stored codec draft s (commit codec draft parsed s res)
  unfolding commit
  commit-cases parsed v a fresh free (err x) e = inl (x, refl)
  commit-cases parsed v a fresh free (ok r) e = inr (record {
    parsed = parsed;
    resource = r;
    valid = v;
    all_parsed = a;
    admitted = record {
      fresh = fresh;
      free = free;
      bound = bound_of_kept parsed (lookup draft.resource.name s.resources) e;
    };
    kept = e;
    result = ap (λ c. (c, written draft parsed r s)) (copy-created parsed r a);
  })

  create_locked-cases :
      (parsed : Parsed)
      → IsValidDraft codec draft
      → AllParsed codec draft parsed
      → Rejected s (create_locked codec draft parsed s)
        ⊎ Stored codec draft s (create_locked codec draft parsed s)
  unfolding create_locked
  create_locked-cases parsed v a = elim (Bool-cases (contains draft.id s.tasks)) [
    | inl e ↦ rw e (inl (store_error not_submitted (plain (codes "duplicate task")), refl))
    | inr fresh ↦ elim (Bool-cases (identity_taken draft.resource s.resources)) [
      | inl e ↦ rw fresh (rw e (inl (conflict, refl)))
      | inr free ↦ rw fresh (
          rw free (
            commit-cases parsed v a fresh free
              (stored_resource draft parsed (lookup draft.resource.name s.resources)) refl))
    ]
  ]

  pub create_parsed-cases :
      Rejected s
        (create_parsed codec draft s (validate_draft codec draft >> parse_snapshots codec draft))
      ⊎ Stored codec draft s
          (create_parsed codec draft s (validate_draft codec draft >> parse_snapshots codec draft))
  unfolding create_parsed
  create_parsed-cases = elim (Result-cases (validate_draft codec draft)) [
    | inl (u, valid) ↦
        let v = validate_draft-IsValidDraft codec draft valid in
        let (parsed, done, a) = parse_snapshots-total codec draft v.good_snapshots in
        rw valid (rw done (create_locked-cases parsed v a))
    | inr (e, invalid) ↦ rw invalid (inl (store_error not_submitted e, refl))
  ]

  kept_of_bound :
      (parsed : Parsed) (o : Option Resource)
      → ((q : Resource) → o ≡ some q → same_identity draft.resource q ≡ true)
      → (r : Resource) × (stored_resource draft parsed o ≡ ok r)
  unfolding stored_resource
  kept_of_bound parsed none b = (onboarded draft parsed, refl)
  kept_of_bound parsed (some q) b = (refreshed draft parsed q, rw (b q refl))

  create_admitted :
      IsValidDraft codec draft
      → Admits draft s
      → (t : Task) × (s' : Store) × (create_parsed codec draft s
            (validate_draft codec draft >> parse_snapshots codec draft)
          ≡ (ok t, s'))
  unfolding create_parsed create_locked commit
  create_admitted v admitted =
      let (parsed, done, a) = parse_snapshots-total codec draft v.good_snapshots in
      let (r, kept) =
        kept_of_bound parsed (lookup draft.resource.name s.resources) admitted.bound in
      (
        created_task draft parsed r,
        written draft parsed r s,
        rw (IsValidDraft-validate_draft codec draft v) (
            rw done
              (rw (admitted.fresh) (rw (admitted.free) (rw kept (rw (copy-created parsed r a)))))),
      )

abbrev pub first {ℓ κ} : {A : Type ℓ} {B : Type κ} → A × B → A
first p = p.0

abbrev pub second {ℓ κ} : {A : Type ℓ} {B : Type κ} → A × B → B
second p = p.1

-- Under the laws of the JSON codec, a failed `CreateTask` leaves the store as it was, whatever made
-- it fail.
pub create_task-atomic :
    (codec : Codec)
    → IsCodec codec
    → (ctx : Option GoError) (draft : TaskDraft) (s s' : Option Store) (e : GoError)
    → create_task codec ctx draft s ≡ (err e, s')
    → s' ≡ s
unfolding create_task
create_task-atomic codec laws (some x) draft s s' e h = cc
create_task-atomic codec laws none draft none s' e h = cc
create_task-atomic codec laws none draft (some s) s' e h =
    elim (create_parsed-cases codec laws draft s) [
      | inl (x, rejected) ↦ sym (ap second h) ∙ ap (λ o. some (second o)) rejected
      | inr stored ↦ cc (ap first h, ap first stored.result)
    ]

-- Under the laws of the JSON codec: on a live context and store, `CreateTask` succeeds exactly when
-- `validateDraft` accepts the draft, its task id is new, no resource of another name has its
-- connector and identity, and the resource of its name, if there is one, has them.
pub create_task-succeeds_iff :
    (codec : Codec)
    → IsCodec codec
    → (draft : TaskDraft) (s : Store)
    → ((t : Task) × (s' : Option Store) × (create_task codec none draft (some s) ≡ (ok t, s')))
      ↔ (IsValidDraft codec draft × Admits draft s)
unfolding create_task
create_task-succeeds_iff codec laws draft s = (
  λ (t, s', h). elim (create_parsed-cases codec laws draft s) [
    | inl (x, rejected) ↦ cc (ap first h, ap first rejected)
    | inr stored ↦ (stored.valid, stored.admitted)
  ],
  λ (v, admitted).
      let (t, s', h) = create_admitted codec laws draft s v admitted in
      (t, some s', ap (λ o. (first o, some (second o))) h),
)
