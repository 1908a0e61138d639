-- ===== src/Examples/Tables.antt =====
-- A database in memory that meets the laws of the engine.
use delegatd.Prelude.{
  ◌≡◌, ◌≢◌, refl, ap, sym, ◌∙◌, subst, Bool, true, false, ◌&&◌, List, [], ◌∷◌, Option, none, some,
  GoString, codes, ℤ, pos, negsuc, int_eqb, ◌==◌, eq_iff, eq_refl, arith, Result, ok, err, GoError,
  plain, ok_injective, some_injective, if◌then◌else◌, Bool-cases, inl, inr,
}
use delegatd.Sqlite.Engine.{
  Engine, IsEngine, Tables, ResourceRow, ResourceUpdate, TaskRow, HistoryRow, updated, updated_row,
}

pub record Rows : Type 0 where
  pub resources : List ResourceRow
  pub tasks : GoString → Option TaskRow
  pub history : GoString → ℤ → Option HistoryRow

abbrev pub no_rows : Rows
no_rows = record { resources = []; tasks = λ id. none; history = λ id n. none }

unfoldable pub named : GoString → List ResourceRow → Option ResourceRow
named n [] = none
named n (r ∷ rs) = if r.name == n then some r else named n rs

abbrev owns : GoString → GoString → ResourceRow → Bool
owns c i r = r.connector_instance == c && r.external_identity == i

unfoldable pub owner : GoString → GoString → List ResourceRow → Option GoString
owner c i [] = none
owner c i (r ∷ rs) = if owns c i r then some r.name else owner c i rs

unfoldable pub update_all : ResourceUpdate → List ResourceRow → List ResourceRow
update_all u [] = []
update_all u (r ∷ rs) = updated_row u r ∷ update_all u rs

abbrev live {ℓ} : {A : Type ℓ} → Option GoError → Result A → Result A
live none r = r
live (some e) r = err e

abbrev unique : GoError
unique = plain (codes "UNIQUE constraint failed")

abbrev Pair : Type 0
Pair = Rows × Rows

abbrev with_resource : ResourceRow → Pair → Pair
with_resource row (base, rows) = (base, record rows { resources = row ∷ rows.resources })

abbrev with_task : TaskRow → Pair → Pair
with_task row (base, rows) =
    (base, record rows { tasks = λ k. if row.id == k then some row else rows.tasks k })

abbrev with_entry : HistoryRow → Pair → Pair
with_entry row (base, rows) = (
  base,
  record rows {
    history =
        λ k n. if row.task_id == k && int_eqb row.sequence n then some row else rows.history k n;
  },
)

-- A row is added where the key is free.
abbrev add {ℓ} : {A : Type ℓ} → Option A → Pair → Result Pair
add none t = ok t
add (some a) t = err unique

abbrev pub tables_engine : Engine
tables_engine = record {
  Database = Rows;
  Transaction = Pair;
  begin = λ ctx d. live ctx (ok (d, d));
  commit = λ t. (ok tt, t.1);
  rollback = λ t. t.0;
  resource_by_name = λ ctx n t. live ctx (ok (named n t.1.resources));
  owner_of = λ ctx c i t. live ctx (ok (owner c i t.1.resources));
  insert_resource =
      λ ctx row t. live ctx (add (named row.name t.1.resources) (with_resource row t));
  update_resource =
      λ ctx u t. live ctx (ok (t.0, record t.1 { resources = update_all u t.1.resources }));
  insert_task = λ ctx row t. live ctx (add (t.1.tasks row.id) (with_task row t));
  insert_history = λ ctx row t. live ctx (ok (with_entry row t));
  task_by_id = λ ctx id d. live ctx (ok (d.tasks id));
}

live-ok {ℓ} :
    {A : Type ℓ} (ctx : Option GoError) (r : Result A) {a : A} → live ctx r ≡ ok a → r ≡ ok a
live-ok none r h = h
live-ok (some e) r h = cc

add-ok {ℓ} :
    {A : Type ℓ} (found : Option A) (t : Pair) {t' : Pair}
    → add found t ≡ ok t'
    → (found ≡ none) × (t ≡ t')
add-ok none t h = (refl, ok_injective h)
add-ok (some a) t h = cc

named_here :
    (n : GoString) (r : ResourceRow) (rs : List ResourceRow)
    → (r.name == n) ≡ true
    → named n (r ∷ rs) ≡ some r
unfolding named
named_here n r rs e = rw e refl

named_later :
    (n : GoString) (r : ResourceRow) (rs : List ResourceRow)
    → (r.name == n) ≡ false
    → named n (r ∷ rs) ≡ named n rs
unfolding named
named_later n r rs e = rw e refl

owner_here :
    (c i : GoString) (r : ResourceRow) (rs : List ResourceRow)
    → owns c i r ≡ true
    → owner c i (r ∷ rs) ≡ some r.name
unfolding owner
owner_here c i r rs e = rw e refl

owner_later :
    (c i : GoString) (r : ResourceRow) (rs : List ResourceRow)
    → owns c i r ≡ false
    → owner c i (r ∷ rs) ≡ owner c i rs
unfolding owner
owner_later c i r rs e = rw e refl

not_owned :
    (c i : GoString) (x r : ResourceRow)
    → owns c i x ≡ false
    → x ≡ r
    → r.connector_instance ≡ c
    → r.external_identity ≢ i
not_owned c i x r o same same_c same_i =
    let same_c' : x.connector_instance ≡ c =
      ap (λ (y : ResourceRow). y.connector_instance) same ∙ same_c in
    let same_i' : x.external_identity ≡ i =
      ap (λ (y : ResourceRow). y.external_identity) same ∙ same_i in
    ground (arith, eq_iff x.connector_instance c, eq_iff x.external_identity i)

named-name :
    (n : GoString) (rs : List ResourceRow) {r : ResourceRow} → named n rs ≡ some r → r.name ≡ n
unfolding named
named-name n [] h = cc
named-name n (x ∷ rs) {r} h = elim (Bool-cases (x.name == n)) [
  | inl e ↦
      let same : x ≡ r = some_injective (sym (named_here n x rs e) ∙ h) in
      subst (λ (y : ResourceRow). y.name ≡ n) same ((eq_iff x.name n).0 e)
  | inr e ↦ named-name n rs (sym (named_later n x rs e) ∙ h)
]

named-update_all :
    (u : ResourceUpdate) (n : GoString) (rs : List ResourceRow)
    → named n (update_all u rs) ≡ updated u (named n rs)
unfolding named update_all
named-update_all u n [] = refl
named-update_all u n (r ∷ rs) = elim (Bool-cases (r.id == u.id)) [
  | inl i ↦ elim (Bool-cases (r.name == n)) [
    | inl e ↦ rw i (rw e (rw i refl))
    | inr e ↦ rw i (rw e (named-update_all u n rs))
  ]
  | inr i ↦ elim (Bool-cases (r.name == n)) [
    | inl e ↦ rw i (rw e (rw i refl))
    | inr e ↦ rw i (rw e (named-update_all u n rs))
  ]
]

owner-none :
    (c i n : GoString) (rs : List ResourceRow) {r : ResourceRow}
    → owner c i rs ≡ none
    → named n rs ≡ some r
    → r.connector_instance ≡ c
    → r.external_identity ≢ i
unfolding named owner
owner-none c i n [] h found same_c same_i = cc
owner-none c i n (x ∷ rs) {r} h found same_c same_i = elim (Bool-cases (owns c i x)) [
  | inl o ↦ cc (h, owner_here c i x rs o)
  | inr o ↦ elim (Bool-cases (x.name == n)) [
    | inl e ↦
        let same : x ≡ r = some_injective (sym (named_here n x rs e) ∙ found) in
        not_owned c i x r o same same_c same_i
    | inr e ↦
        owner-none c i n rs (sym (owner_later c i x rs o) ∙ h) (sym (named_later n x rs e) ∙ found)
          same_c same_i
  ]
]

int_eqb_refl : (n : ℤ) → int_eqb n n ≡ true
int_eqb_refl (pos a) = ground arith
int_eqb_refl (negsuc a) = ground arith

own_entry :
    (row : HistoryRow) (t : Pair) → (with_entry row t).1.history row.task_id row.sequence ≡ some row
own_entry row (b, t) = rw (eq_refl row.task_id) (rw (int_eqb_refl row.sequence))

other_entry :
    (row : HistoryRow) (t : Pair) (k : GoString) (n : ℤ)
    → k ≢ row.task_id
    → (with_entry row t).1.history k n ≡ t.1.history k n
other_entry row (b, t) k n other = ground (arith, eq_iff row.task_id k)

abbrev pub tables_of : Rows → Tables
tables_of d = record { resources = λ n. named n d.resources; tasks = d.tasks; history = d.history }

pub tables-IsEngine : IsEngine tables_engine
unfolding named
tables-IsEngine = record {
  content = tables_of;
  inside = λ t. tables_of t.1;
  base = λ t. t.0;
  begin-inside = λ {ctx} {d} {t} h.
      let same : (d, d) ≡ t = ok_injective (live-ok ctx _ h) in
      (sym (ap (λ (x : Pair). x.0) same), sym (ap (λ (x : Pair). tables_of x.1) same));
  rollback-base = λ t. refl;
  commit-content = λ {t} {u} {d} h. ap tables_of (sym (ap (λ o. o.1) h));
  commit-base = λ {t} {x} {d} h. cc (ap (λ o. o.0) h);
  found_by_name = λ {ctx} {n} {t} {o} h.
      let same : named n t.1.resources ≡ o = ok_injective (live-ok ctx _ h) in
      (same, λ r q. named-name n t.1.resources (same ∙ q));
  no_owner = λ {ctx} {c} {i} {t} h {n} {r} found same_c.
      owner-none c i n t.1.resources (ok_injective (live-ok ctx _ h)) found same_c;
  insert_resource-inside = λ {ctx} {row} {t} {t'} h.
      let (free, same) = add-ok (named row.name t.1.resources) _ (live-ok ctx _ h) in
      subst
        (λ (x : Pair).
          (x.0 ≡ t.0)
          × (named row.name t.1.resources ≡ none)
          × ((n : GoString)
              → named n x.1.resources ≡ (if row.name == n then some row else named n t.1.resources))
          × (x.1.tasks ≡ t.1.tasks)
          × (x.1.history ≡ t.1.history))
        same (refl, free, λ n. refl, refl, refl);
  update_resource-inside = λ {ctx} {u} {t} {t'} h.
      let same = ok_injective (live-ok ctx _ h) in
      subst
        (λ (x : Pair).
          (x.0 ≡ t.0)
          × ((n : GoString) → named n x.1.resources ≡ updated u (named n t.1.resources))
          × (x.1.tasks ≡ t.1.tasks)
          × (x.1.history ≡ t.1.history))
        same (refl, λ n. named-update_all u n t.1.resources, refl, refl);
  insert_task-inside = λ {ctx} {row} {t} {t'} h.
      let (free, same) = add-ok (t.1.tasks row.id) _ (live-ok ctx _ h) in
      subst
        (λ (x : Pair).
          (x.0 ≡ t.0)
          × (t.1.tasks row.id ≡ none)
          × ((k : GoString) → x.1.tasks k ≡ (if row.id == k then some row else t.1.tasks k))
          × ((tables_of x.1).resources ≡ (tables_of t.1).resources)
          × (x.1.history ≡ t.1.history))
        same (refl, free, λ n. refl, refl, refl);
  insert_history-inside = λ {ctx} {row} {t} {t'} h.
      let same = ok_injective (live-ok ctx _ h) in
      subst
        (λ (x : Pair).
          (x.0 ≡ t.0)
          × (x.1.history row.task_id row.sequence ≡ some row)
          × ((k : GoString) (n : ℤ) → k ≢ row.task_id → x.1.history k n ≡ t.1.history k n)
          × ((tables_of x.1).resources ≡ (tables_of t.1).resources)
          × (x.1.tasks ≡ t.1.tasks))
        same (refl, own_entry row t, other_entry row t, refl, refl);
  task_by_id-content = λ k d. refl;
}
