-- ===== src/Memory/Traces.antt =====
-- Sequences of calls. The mutex of the store makes concurrent calls such a sequence, in the order
-- in which they take it.
use delegatd.Prelude.{
  ◌≡◌, ap, sym, ◌∙◌, subst, ◌⊎◌, inl, inr, true, List, [], ◌∷◌, GoString, ◌==◌, eq_iff, lookup,
  lookup-insert, contains, Option, none, some, is_some, ok, GoError, Bool-cases, Result-cases,
  Option-cases,
}
use delegatd.Domain.Json.{Codec, IsCodec}
use delegatd.Domain.Task.{TaskDraft, Task}
use delegatd.Memory.{Resource, Store, Parsed, new, written, create_task, task}
use delegatd.Memory.Outcome.{create_task-atomic}
use delegatd.Memory.Laws.{Success, create_task-Success, task-written}
use delegatd.Memory.Binding.{IsKept, stored_resource-IsKept}
use delegatd.Memory.Invariant.{IsValid, written-IsValid}

-- A call of `CreateTask`: the state of its context at entry, and its draft.
abbrev pub Call : Type 0
Call = Option GoError × TaskDraft

unfoldable pub run : Codec → Option Store → List Call → Option Store
run codec h [] = h
run codec h ((ctx, draft) ∷ calls) = run codec (create_task codec ctx draft h).1 calls

abbrev pub IsValidStore : Codec → Option Store → Type 0
IsValidStore codec none = Unit
IsValidStore codec (some s) = IsValid codec s

new-IsValid : (codec : Codec) → IsValid codec new
unfolding lookup
new-IsValid codec = record {
  named = λ k r l. cc;
  one_identity = λ k j r q l. cc;
  task_named = λ id t l. cc;
  task_bound = λ id t l. cc;
  one_entry = λ id t l. cc;
  input_canonical = λ id t l. cc;
}

-- The same onboarding, whatever has been refreshed since.
pub record SameOnboarding (r q : Resource) : Type 0 where
  pub id : r.id ≡ q.id
  pub name : r.name ≡ q.name
  pub connector : r.connector ≡ q.connector
  pub external_identity : r.external_identity ≡ q.external_identity
  pub onboarded_at : r.onboarded_at ≡ q.onboarded_at

-- The store has a resource of the name, with the onboarding of `q`.
abbrev pub Onboarded : GoString → Resource → Option Store → Type 0
Onboarded k q none = ⊥
Onboarded k q (some s) = (r : Resource) × (lookup k s.resources ≡ some r) × SameOnboarding r q

written-Onboarded :
    (draft : TaskDraft) (parsed : Parsed) (r : Resource) (s : Store) (k : GoString) (q : Resource)
    → IsKept draft r (lookup draft.resource.name s.resources)
    → Onboarded k q (some s)
    → Onboarded k q (some (written draft parsed r s))
written-Onboarded draft parsed r s k q kept (x, there, same) =
    let n = draft.resource.name in
    elim (Bool-cases (n == k)) [
      | inl e ↦
          let (kid, kname, kconn, kext, kat) =
            kept.onboarding_kept x (ap (λ j. lookup j s.resources) ((eq_iff n k).0 e) ∙ there) in
          (
            r,
            lookup-insert n k r s.resources ∙ rw e,
            record {
              id = kid ∙ same.id;
              name = kname ∙ same.name;
              connector = kconn ∙ same.connector;
              external_identity = kext ∙ same.external_identity;
              onboarded_at = kat ∙ same.onboarded_at;
            },
          )
      | inr e ↦ (x, lookup-insert n k r s.resources ∙ rw e there, same)
    ]

task-contains :
    (codec : Codec) (id : GoString) (t : Task) (s : Store)
    → task codec none id (some s) ≡ ok t
    → contains id s.tasks ≡ true
unfolding task
task-contains codec id t s e = elim (Option-cases (lookup id s.tasks)) [
  | inl missing ↦ cc (rw missing at e)
  | inr (u, there) ↦ ap is_some there
]

module _ (codec : Codec) (laws : IsCodec codec) where
  -- Either nothing changed or a task was written.
  call-cases :
      (ctx : Option GoError) (draft : TaskDraft) (h : Option Store)
      → ((create_task codec ctx draft h).1 ≡ h)
        ⊎ ((t : Task) × Success codec draft t h (create_task codec ctx draft h).1)
  call-cases ctx draft h = elim (Result-cases (create_task codec ctx draft h).0) [
    | inl (t, e) ↦ inr (
      t,
      create_task-Success codec laws ctx draft h (create_task codec ctx draft h).1 t
          (ap (λ r. (r, (create_task codec ctx draft h).1)) e),
    )
    | inr (x, e) ↦ inl (
        create_task-atomic codec laws ctx draft h (create_task codec ctx draft h).1 x
          (ap (λ r. (r, (create_task codec ctx draft h).1)) e))
  ]

  create_task-IsValidStore :
      (ctx : Option GoError) (draft : TaskDraft) (h : Option Store)
      → IsValidStore codec h
      → IsValidStore codec (create_task codec ctx draft h).1
  create_task-IsValidStore ctx draft h v = elim (call-cases ctx draft h) [
    | inl same ↦ subst (IsValidStore codec) (sym same) v
    | inr (t, st) ↦ subst (IsValidStore codec) (sym st.left) (
        written-IsValid codec draft st.parsed st.resource st.before
          (subst (IsValidStore codec) st.started v) st.valid st.admitted
          (stored_resource-IsKept draft st.parsed (lookup draft.resource.name st.before.resources)
            st.resource st.kept)
          st.parsed_input)
  ]

  run-IsValidStore :
      (h : Option Store) (calls : List Call)
      → IsValidStore codec h
      → IsValidStore codec (run codec h calls)
  unfolding run
  run-IsValidStore h [] v = v
  run-IsValidStore h ((ctx, draft) ∷ calls) v =
      run-IsValidStore (create_task codec ctx draft h).1 calls
        (create_task-IsValidStore ctx draft h v)

  -- Under the laws of the JSON codec, whatever calls a new store has served: every resource stands
  -- under its own name, no two share connector and external identity, and every task stands under
  -- its own id, with a history of one entry of its status, and shows the id and the connector of a
  -- resource that is onboarded.
  pub run-IsValid : (calls : List Call) → IsValidStore codec (run codec (some new) calls)
  run-IsValid calls = run-IsValidStore (some new) calls (new-IsValid codec)

  task_kept :
      (ctx : Option GoError) (draft : TaskDraft) (h : Option Store) (id : GoString) (t : Task)
      → task codec none id h ≡ ok t
      → task codec none id (create_task codec ctx draft h).1 ≡ ok t
  task_kept ctx draft h id t e = elim (call-cases ctx draft h) [
    | inl same ↦ ap (task codec none id) same ∙ e
    | inr (u, st) ↦
        let before = sym (ap (task codec none id) st.started) ∙ e in
        ap (task codec none id) st.left
        ∙ task-written codec none id draft st.parsed st.resource st.before (λ q. cc (
          ap (λ k. contains k st.before.tasks) q,
          task-contains codec id t st.before before,
          st.admitted.fresh,
        ))
        ∙ before
  ]

  -- Under the laws of the JSON codec, a task that `Task` returns is the same after any further
  -- calls.
  pub task-run :
      (id : GoString) (t : Task) (h : Option Store) (calls : List Call)
      → task codec none id h ≡ ok t
      → task codec none id (run codec h calls) ≡ ok t
  unfolding run
  task-run id t h [] e = e
  task-run id t h ((ctx, draft) ∷ calls) e =
      task-run id t (create_task codec ctx draft h).1 calls (task_kept ctx draft h id t e)

  -- What a resource was onboarded as: its id, name, connector, external identity and time.
  onboarding-step :
      (ctx : Option GoError) (draft : TaskDraft) (h : Option Store) (k : GoString) (q : Resource)
      → Onboarded k q h
      → Onboarded k q (create_task codec ctx draft h).1
  onboarding-step ctx draft h k q o = elim (call-cases ctx draft h) [
    | inl same ↦ subst (Onboarded k q) (sym same) o
    | inr (t, st) ↦ subst (Onboarded k q) (sym st.left) (
        written-Onboarded draft st.parsed st.resource st.before k q
          (stored_resource-IsKept draft st.parsed (lookup draft.resource.name st.before.resources)
            st.resource st.kept)
          (subst (Onboarded k q) st.started o))
  ]

  -- Under the laws of the JSON codec: once a resource is onboarded, no further call changes its id,
  -- name, connector, external identity or onboarding time.
  pub onboarding-run :
      (k : GoString) (q : Resource) (h : Option Store) (calls : List Call)
      → Onboarded k q h
      → Onboarded k q (run codec h calls)
  unfolding run
  onboarding-run k q h [] o = o
  onboarding-run k q h ((ctx, draft) ∷ calls) o =
      onboarding-run k q (create_task codec ctx draft h).1 calls (onboarding-step ctx draft h k q o)
