-- ===== src/Memory/Invariant.antt =====
-- What holds of a store between two calls.
use delegatd.Prelude.{
  ◌≡◌, refl, ap, sym, ◌∙◌, inl, inr, true, false, List, [], ◌∷◌, arith, GoString, ◌==◌, eq_iff,
  GoMap, lookup, insert, lookup-insert, lookup-insert_self, at_key, off_key, lookup-insert-Keeps,
  pos, int_eq_of_eqb, some, Bool-cases,
}
use delegatd.Domain.Json.{Codec}
use delegatd.Domain.Snapshot.{IsCanonical}
use delegatd.Domain.Task.{TaskDraft, TaskHistoryEntry, Task}
use delegatd.Memory.{Resource, Store, Parsed, same_identity, identity_taken, created_task, written}
use delegatd.Memory.Binding.{IsKept, identity_taken-false}
use delegatd.Memory.Snapshots.{IsValidDraft}
use delegatd.Memory.Outcome.{Admits}

-- The task's resource is onboarded, under the id that the task shows.
abbrev pub IsBound : GoMap Resource → Task → Type 0
IsBound resources t =
    (r : Resource) × (lookup t.resource.name resources ≡ some r)
    × (r.id ≡ t.resource.id)
    × (r.connector ≡ t.resource.connector)

-- The history of a task is one entry, the first, with the status of the task.
abbrev pub HasEntry : GoMap (List TaskHistoryEntry) → GoString → Task → Type 0
HasEntry history id t =
    (e : TaskHistoryEntry) × (lookup id history ≡ some (e ∷ []))
    × (e.sequence ≡ pos 1)
    × (e.status ≡ t.status)

pub record IsValid (codec : Codec) (s : Store) : Type 0 where
  -- a resource stands under its own name
  pub named : (k : GoString) (r : Resource) → lookup k s.resources ≡ some r → r.name ≡ k
  -- no two resources have the same connector and external identity
  pub one_identity :
      (k j : GoString) (r q : Resource)
      → lookup k s.resources ≡ some r
      → lookup j s.resources ≡ some q
      → r.connector ≡ q.connector
      → r.external_identity ≡ q.external_identity
      → k ≡ j
  pub task_named : (id : GoString) (t : Task) → lookup id s.tasks ≡ some t → t.id ≡ id
  pub task_bound : (id : GoString) (t : Task) → lookup id s.tasks ≡ some t → IsBound s.resources t
  pub one_entry : (id : GoString) (t : Task) → lookup id s.tasks ≡ some t → HasEntry s.history id t
  pub input_canonical :
      (id : GoString) (t : Task) → lookup id s.tasks ≡ some t → IsCanonical codec t.input

module _ (draft : TaskDraft) (resources : GoMap Resource) (r : Resource)
    (free : identity_taken draft.resource resources ≡ false)
    (named : (k : GoString) (q : Resource) → lookup k resources ≡ some q → q.name ≡ k)
    (kept : IsKept draft r (lookup draft.resource.name resources)) where
  -- Whatever has the identity of the draft after the write stands under its name.
  claims_name :
      (j : GoString) (q : Resource)
      → lookup j (insert draft.resource.name r resources) ≡ some q
      → q.connector ≡ draft.resource.connector
      → q.external_identity ≡ draft.resource.external_identity
      → draft.resource.name ≡ j
  claims_name =
      lookup-insert-Keeps
        (λ j q.
          q.connector ≡ draft.resource.connector
          → q.external_identity ≡ draft.resource.external_identity
          → draft.resource.name ≡ j)
        draft.resource.name r resources (λ c i. refl)
        (λ j q l c i.
          sym (identity_taken-false draft.resource resources j q free l (same_of q c i))
          ∙ named j q l)
    where
      same_of :
          (q : Resource)
          → q.connector ≡ draft.resource.connector
          → q.external_identity ≡ draft.resource.external_identity
          → same_identity draft.resource q ≡ true
      same_of q c i = ground (
        arith,
        eq_iff q.connector draft.resource.connector,
        eq_iff q.external_identity draft.resource.external_identity,
      )

  insert-named :
      (k : GoString) (q : Resource)
      → lookup k (insert draft.resource.name r resources) ≡ some q
      → q.name ≡ k
  insert-named =
      lookup-insert-Keeps (λ k q. q.name ≡ k) draft.resource.name r resources
        (kept.name_kept (λ q l. named draft.resource.name q l)) named

  insert-one_identity :
      ((k j : GoString) (p q : Resource)
        → lookup k resources ≡ some p
        → lookup j resources ≡ some q
        → p.connector ≡ q.connector
        → p.external_identity ≡ q.external_identity
        → k ≡ j)
      → (k j : GoString) (p q : Resource)
      → lookup k (insert draft.resource.name r resources) ≡ some p
      → lookup j (insert draft.resource.name r resources) ≡ some q
      → p.connector ≡ q.connector
      → p.external_identity ≡ q.external_identity
      → k ≡ j
  insert-one_identity old k j p q hp hq c i =
      let n = draft.resource.name in
      elim (Bool-cases (n == k)) [
        | inl e ↦
            let same = at_key n k r resources e hp in
            sym ((eq_iff n k).0 e)
            ∙ claims_name j q hq
                (sym c ∙ ap (λ (x : Resource). x.connector) (sym same) ∙ kept.connector_kept)
                (sym i ∙ ap (λ (x : Resource). x.external_identity) (sym same) ∙ kept.identity_kept)
        | inr e ↦ elim (Bool-cases (n == j)) [
          | inl f ↦
              let same = at_key n j r resources f hq in
              sym (
                claims_name k p hp
                  (c ∙ ap (λ (x : Resource). x.connector) (sym same) ∙ kept.connector_kept)
                  (i ∙ ap (λ (x : Resource). x.external_identity) (sym same) ∙ kept.identity_kept))
              ∙ (eq_iff n j).0 f
          | inr f ↦ old k j p q (off_key n k r resources e hp) (off_key n j r resources f hq) c i
        ]
      ]

  insert-IsBound :
      (t : Task) → IsBound resources t → IsBound (insert draft.resource.name r resources) t
  insert-IsBound t (x, l, id, conn) =
      let n = draft.resource.name in
      elim (Bool-cases (n == t.resource.name)) [
        | inl e ↦
            let same = (eq_iff n t.resource.name).0 e in
            let (kid, kname, kconn, kext, kat) =
              kept.onboarding_kept x (ap (λ k. lookup k resources) same ∙ l) in
            (r, lookup-insert n t.resource.name r resources ∙ rw e, kid ∙ id, kconn ∙ conn)
        | inr e ↦ (x, lookup-insert n t.resource.name r resources ∙ rw e l, id, conn)
      ]

  created-IsBound :
      (parsed : Parsed)
      → IsBound (insert draft.resource.name r resources) (created_task draft parsed r)
  created-IsBound parsed =
      let name = kept.name_kept (λ q l. named draft.resource.name q l) in
      (
        r,
        ap (λ k. lookup k (insert draft.resource.name r resources)) name
            ∙ lookup-insert_self draft.resource.name r resources,
        refl,
        refl,
      )

initial_entry :
    (codec : Codec) (draft : TaskDraft)
    → IsValidDraft codec draft
    → (draft.initial_history.sequence ≡ pos 1) × (draft.initial_history.status ≡ draft.status)
initial_entry codec draft v =
    let entry = draft.initial_history in
    let h = v.good_history in
    (
      int_eq_of_eqb entry.sequence (pos 1) (ground arith),
      (eq_iff entry.status draft.status).0 (ground arith),
    )

written-HasEntry :
    (codec : Codec) (draft : TaskDraft) (parsed : Parsed) (r : Resource) (s : Store)
    → IsValidDraft codec draft
    → ((id : GoString) (t : Task) → lookup id s.tasks ≡ some t → HasEntry s.history id t)
    → (id : GoString) (t : Task) → lookup id (written draft parsed r s).tasks ≡ some t
    → HasEntry (written draft parsed r s).history id t
written-HasEntry codec draft parsed r s v old id t l =
    let es = draft.initial_history ∷ [] in
    elim (Bool-cases (draft.id == id)) [
      | inl e ↦
          let same = at_key draft.id id (created_task draft parsed r) s.tasks e l in
          let (first, status) = initial_entry codec draft v in
          (
            draft.initial_history,
            lookup-insert draft.id id es s.history ∙ rw e,
            first,
            status ∙ ap (λ (u : Task). u.status) same,
          )
      | inr e ↦
          let (entry, there, first, status) =
            old id t (off_key draft.id id (created_task draft parsed r) s.tasks e l) in
          (entry, lookup-insert draft.id id es s.history ∙ rw e there, first, status)
    ]

-- The writes of a task keep the invariant.
pub written-IsValid :
    (codec : Codec) (draft : TaskDraft) (parsed : Parsed) (r : Resource) (s : Store)
    → IsValid codec s
    → IsValidDraft codec draft
    → Admits draft s
    → IsKept draft r (lookup draft.resource.name s.resources)
    → IsCanonical codec parsed.input
    → IsValid codec (written draft parsed r s)
written-IsValid codec draft parsed r s v valid admitted kept canonical =
    let resources = insert draft.resource.name r s.resources in
    let t = created_task draft parsed r in
    record {
      named = insert-named draft s.resources r admitted.free v.named kept;
      one_identity =
          insert-one_identity draft s.resources r admitted.free v.named kept v.one_identity;
      task_named = lookup-insert-Keeps (λ id u. u.id ≡ id) draft.id t s.tasks refl v.task_named;
      task_bound =
          lookup-insert-Keeps (λ id u. IsBound resources u) draft.id t s.tasks
            (created-IsBound draft s.resources r admitted.free v.named kept parsed)
            (λ id u l.
              insert-IsBound draft s.resources r admitted.free v.named kept u
                (v.task_bound id u l));
      one_entry = written-HasEntry codec draft parsed r s valid v.one_entry;
      input_canonical =
          lookup-insert-Keeps (λ id u. IsCanonical codec u.input) draft.id t s.tasks canonical
            v.input_canonical;
    }
