-- ===== src/Sqlite/Effect.antt =====
-- What a call of `CreateTask` leaves in the database.
use delegatd.Prelude.{
  ◌≡◌, ◌≢◌, refl, ap, sym, ◌∙◌, subst, true, Option, none, some, GoString, ℤ, ◌==◌, eq_iff, eq_refl,
  arith, Result, ok, err, GoError, ok_injective, >>=-eq-ok, if◌then◌else◌, Bool-cases, inl, inr,
}
use delegatd.Domain.Id.{parse_resource_id}
use delegatd.Domain.Json.{Codec}
use delegatd.Domain.Snapshot.{Snapshot, new_snapshot}
use delegatd.Domain.Task.{TaskDraft}
use delegatd.Memory.{guard}
use delegatd.Memory.Snapshots.{guard-true}
use delegatd.Sqlite.Engine.{
  Engine, IsEngine, ResourceRow, ResourceUpdate, updated, updated_row, Tables,
}
use delegatd.Sqlite.Draft.{TimeText, resource_json, is_ok}
use delegatd.Sqlite.Create.{
  submitted, new_row, row_update, onboard, refresh, bound_to, sound, bind_resource, snapshot_of,
  task_row, history_row, write_task,
}

pub submitted-ok {ℓ} : {A : Type ℓ} (m : Result A) {a : A} → submitted m ≡ ok a → m ≡ ok a
submitted-ok (ok a) h = h
submitted-ok (err e) h = cc

-- A resource of the table, and what it was onboarded as.
pub record SameBinding (r q : ResourceRow) : Type 0 where
  pub id : r.id ≡ q.id
  pub name : r.name ≡ q.name
  pub connector : r.connector_instance ≡ q.connector_instance
  pub identity : r.external_identity ≡ q.external_identity
  pub onboarded : r.onboarded_at ≡ q.onboarded_at

SameBinding-refl : (r : ResourceRow) → SameBinding r r
SameBinding-refl r = record {
  id = refl;
  name = refl;
  connector = refl;
  identity = refl;
  onboarded = refl;
}

-- The table has a resource of the name, with the binding of `q`.
abbrev pub Bound : GoString → ResourceRow → Tables → Type 0
Bound n q tables = (r : ResourceRow) × (tables.resources n ≡ some r) × SameBinding r q

-- Every resource of the first tables is bound in the second as it was.
abbrev pub Keeps : Tables → Tables → Type 0
Keeps before after =
    (n : GoString) (q : ResourceRow) → before.resources n ≡ some q → Bound n q after

module _ (codec : Codec) (times : TimeText) (engine : Engine) (laws : IsEngine engine)
    (ctx : Option GoError) (draft : TaskDraft) where
  -- What binding the resource to the draft did: the resource's id, and the transaction after it.
  record Binds (t : engine.Transaction) (out : GoString × engine.Transaction) : Type 0 where
    based : laws.base out.1 ≡ laws.base t
    good_id :
        is_ok (parse_resource_id draft.resource.candidate_id) ≡ true
        → is_ok (parse_resource_id out.0) ≡ true
    same_tasks : (laws.inside out.1).tasks ≡ (laws.inside t).tasks
    same_history : (laws.inside out.1).history ≡ (laws.inside t).history
    keeps : Keeps (laws.inside t) (laws.inside out.1)
    there :
        (r : ResourceRow) × ((laws.inside out.1).resources draft.resource.name ≡ some r)
        × (r.id ≡ out.0)
        × (r.connector_instance ≡ draft.resource.connector)
        × (r.external_identity ≡ draft.resource.external_identity)

  insert-Keeps :
      (row : ResourceRow) (t t' : engine.Transaction)
      → (laws.inside t).resources row.name ≡ none
      → ((n : GoString)
          → (laws.inside t').resources n
            ≡ (if row.name == n then some row else (laws.inside t).resources n))
      → Keeps (laws.inside t) (laws.inside t')
  insert-Keeps row t t' new after n q old = elim (Bool-cases (row.name == n)) [
    | inl e ↦ absurd (cc (ap (laws.inside t).resources ((eq_iff row.name n).0 e), new, old))
    | inr e ↦ (q, (after n ∙ rw e old), SameBinding-refl q)
  ]

  onboard-Binds :
      (t : engine.Transaction) (owner : Option GoString) (out : GoString × engine.Transaction)
      → onboard codec times engine ctx draft t owner ≡ ok out
      → Binds t out
  unfolding onboard
  onboard-Binds t (some x) out h = cc
  onboard-Binds t none out h =
      let row = new_row codec times engine ctx draft in
      let (t', h1, k1) = >>=-eq-ok (submitted (engine.insert_resource ctx row t)) _ h in
      let (based, new, after, tasks, history) = laws.insert_resource-inside (submitted-ok _ h1) in
      subst (Binds t) (ok_injective k1) (record {
        based = based;
        good_id = λ good. good;
        same_tasks = tasks;
        same_history = history;
        keeps = insert-Keeps row t t' new after;
        there = (
          row,
          (after draft.resource.name ∙ rw (eq_refl draft.resource.name) refl),
          refl,
          refl,
          refl,
        );
      })

  updated_row-SameBinding : (u : ResourceUpdate) (r : ResourceRow) → SameBinding (updated_row u r) r
  updated_row-SameBinding u r = elim (Bool-cases (r.id == u.id)) [
    | inl e ↦
        rw e
          (record { id = refl; name = refl; connector = refl; identity = refl; onboarded = refl })
    | inr e ↦ rw e (SameBinding-refl r)
  ]

  bound_to-same :
      (r : ResourceRow)
      → bound_to codec times engine ctx draft r ≡ true
      → (r.connector_instance ≡ draft.resource.connector)
        × (r.external_identity ≡ draft.resource.external_identity)
  bound_to-same r h = ground (
    arith,
    eq_iff r.connector_instance draft.resource.connector,
    eq_iff r.external_identity draft.resource.external_identity,
  )

  refresh-Binds :
      (t : engine.Transaction) (r : ResourceRow) (out : GoString × engine.Transaction)
      → (laws.inside t).resources draft.resource.name ≡ some r
      → refresh codec times engine ctx draft t r ≡ ok out
      → Binds t out
  unfolding refresh
  refresh-Binds t r out found h =
      let u = row_update codec times engine ctx draft r.id in
      let (u1, h1, k1) = >>=-eq-ok (guard (bound_to codec times engine ctx draft r) _) _ h in
      let (u2, h2, k2) = >>=-eq-ok (guard (sound codec times engine ctx draft r) _) _ k1 in
      let (t', h3, k3) = >>=-eq-ok (submitted (engine.update_resource ctx u t)) _ k2 in
      let (based, after, tasks, history) = laws.update_resource-inside (submitted-ok _ h3) in
      let same = updated_row-SameBinding u r in
      let bound : bound_to codec times engine ctx draft r ≡ true = guard-true _ _ h1 in
      let good : sound codec times engine ctx draft r ≡ true = guard-true _ _ h2 in
      subst (Binds t) (ok_injective k3) (record {
        based = based;
        good_id = λ candidate. ground arith;
        same_tasks = tasks;
        same_history = history;
        keeps = λ n q old.
            (updated_row u q, (after n ∙ ap (updated u) old), updated_row-SameBinding u q);
        there = (
          updated_row u r,
          (after draft.resource.name ∙ ap (updated u) found),
          same.id,
          same.connector ∙ (bound_to-same r bound).0,
          same.identity ∙ (bound_to-same r bound).1,
        );
      })

  bind_resource-Binds :
      (t : engine.Transaction) (o : Option ResourceRow) (out : GoString × engine.Transaction)
      → (laws.inside t).resources draft.resource.name ≡ o
      → bind_resource codec times engine ctx draft t o ≡ ok out
      → Binds t out
  unfolding bind_resource
  bind_resource-Binds t (some r) out found h = refresh-Binds t r out found h
  bind_resource-Binds t none out found h =
      let (owner, h1, k1) = >>=-eq-ok (submitted (engine.owner_of ctx _ _ t)) _ h in
      onboard-Binds t owner out k1

  -- What the statements of a submission did: the resource's id, and the transaction after them.
  pub record Writes (t : engine.Transaction) (out : GoString × engine.Transaction) : Type 0 where
    pub json : Snapshot
    pub based : laws.base out.1 ≡ laws.base t
    pub good_id :
        is_ok (parse_resource_id draft.resource.candidate_id) ≡ true
        → is_ok (parse_resource_id out.0) ≡ true
    pub encoded :
        new_snapshot codec (resource_json (snapshot_of codec times engine ctx draft out.0))
        ≡ ok json
    pub fresh : (laws.inside t).tasks draft.id ≡ none
    pub task_added :
        (k : GoString)
        → (laws.inside out.1).tasks k ≡ (
            if draft.id == k
            then some (task_row codec times engine ctx draft out.0 json)
            else (laws.inside t).tasks k)
    pub history_added :
        (laws.inside out.1).history draft.id draft.initial_history.sequence
        ≡ some (history_row codec times engine ctx draft)
    pub history_kept :
        (k : GoString) (n : ℤ)
        → k ≢ draft.id
        → (laws.inside out.1).history k n ≡ (laws.inside t).history k n
    pub keeps : Keeps (laws.inside t) (laws.inside out.1)
    pub there :
        (r : ResourceRow) × ((laws.inside out.1).resources draft.resource.name ≡ some r)
        × (r.id ≡ out.0)
        × (r.connector_instance ≡ draft.resource.connector)
        × (r.external_identity ≡ draft.resource.external_identity)

  pub write_task-Writes :
      (t : engine.Transaction) (out : GoString × engine.Transaction)
      → write_task codec times engine ctx draft t ≡ ok out
      → Writes t out
  unfolding write_task
  write_task-Writes t out h =
      let (o, h1, k1) =
        >>=-eq-ok (submitted (engine.resource_by_name ctx draft.resource.name t)) _ h in
      let (b, h2, k2) = >>=-eq-ok (bind_resource codec times engine ctx draft t o) _ k1 in
      let snapshot = snapshot_of codec times engine ctx draft b.0 in
      let (j, h3, k3) = >>=-eq-ok (submitted (new_snapshot codec (resource_json snapshot))) _ k2 in
      let row = task_row codec times engine ctx draft b.0 j in
      let (t2, h4, k4) = >>=-eq-ok (submitted (engine.insert_task ctx row b.1)) _ k3 in
      let (t3, h5, k5) =
        >>=-eq-ok
          (submitted (engine.insert_history ctx (history_row codec times engine ctx draft) t2)) _
          k4 in
      let found = laws.found_by_name (submitted-ok _ h1) in
      let bound = bind_resource-Binds t o b found.0 h2 in
      let (based2, fresh, added, resources2, history2) =
        laws.insert_task-inside (submitted-ok _ h4) in
      let (based3, entry, others, resources3, tasks3) =
        laws.insert_history-inside (submitted-ok _ h5) in
      let resources = resources3 ∙ resources2 in
      subst (Writes t) (ok_injective k5) (record {
        json = j;
        based = based3 ∙ based2 ∙ bound.based;
        good_id = bound.good_id;
        encoded = submitted-ok _ h3;
        fresh = sym (ap (λ f. f draft.id) bound.same_tasks) ∙ fresh;
        task_added = λ k.
            ap (λ f. f k) tasks3
            ∙ added k
            ∙ ap (λ f. if draft.id == k then some row else f k) bound.same_tasks;
        history_added = entry;
        history_kept =
            λ k n other. others k n other ∙ ap (λ f. f k n) (history2 ∙ bound.same_history);
        keeps = λ n q old.
            let (r, there, same) = bound.keeps n q old in
            (r, (ap (λ f. f n) resources ∙ there), same);
        there =
            let (r, stored, same_id, same_connector, same_identity) = bound.there in
            (
              r,
              (ap (λ f. f draft.resource.name) resources ∙ stored),
              same_id,
              same_connector,
              same_identity,
            );
      })
