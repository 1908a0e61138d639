-- ===== src/Control/Draft.antt =====
-- The drafts that `SubmitManualRepository` hands to the store.
use delegatd.Prelude.{
  ◌≡◌, refl, subst, Bool, true, false, ◌||◌, not, [], arith, GoString, ◌==◌, eq_refl, is_empty,
  lookup, Option, none, some, In, Result, ok, err, GoError, ok_injective, >>=-eq-ok, pos, negsuc, ℤ,
  int_eqb, inl,
}
use delegatd.Domain.Id.{parse_task_id, parse_resource_id, task_prefix, resource_prefix}
use delegatd.Domain.Time.{is_zero}
use delegatd.Domain.Input.{TaskInput}
use delegatd.Domain.Json.{Codec, IsCodec, Json}
use delegatd.Domain.Snapshot.{Snapshot, new_snapshot, new_snapshot-IsCanonical}
use delegatd.Domain.Task.{
  PolicyRequest, EffectivePolicy, RepositoryMaterial, TaskDraft, deny, request_json,
  configuration_json, input_json, policy_json,
}
use delegatd.Policy.Request.{normalize_request}
use delegatd.Policy.Resolve.{resolve}
use delegatd.Policy.Resolve.Actions.{resolve-denies}
use delegatd.Policy.Resolve.Protected.{resolve-protected}
use delegatd.Memory.{guard, resource_ok, validate_draft}
use delegatd.Memory.Snapshots.{IsValidDraft, IsValidDraft-validate_draft, Parses}
use delegatd.Control.Submit.{
  Context, TaskService, attempt, cancelled, configured, from_source, complete,
  clone_repository_configuration, manual, Captured, capture, draft_of, prepare, bad_configuration,
  bad_input,
}

pub attempt-ok {ℓ} :
    {A : Type ℓ} (reason : GoString) (m : Result A) {a : A} → attempt reason m ≡ ok a → m ≡ ok a
attempt-ok reason (ok a) h = h
attempt-ok reason (err e) h = cc

attempt-guard :
    (reason : GoString) (b : Bool) (e : GoError) {u : Unit {0}}
    → attempt reason (guard b e) ≡ ok u
    → b ≡ true
attempt-guard reason true e h = refl
attempt-guard reason false e h = cc

-- What was captured, and from what.
record CapturedFrom (codec : Codec) (input : TaskInput) (operator : PolicyRequest)
    (material : RepositoryMaterial) (captured : Captured) : Type 0 where
  repository_policy : PolicyRequest
  operator_policy : PolicyRequest
  normal_repository :
      normalize_request (clone_repository_configuration material.configuration).policy
      ≡ ok repository_policy
  normal_operator : normalize_request operator ≡ ok operator_policy
  is_manual : manual input ≡ true
  configuration :
      new_snapshot codec (
        configuration_json (record (clone_repository_configuration material.configuration) {
          policy = repository_policy;
        }))
      ≡ ok captured.configuration
  requested_policy :
      new_snapshot codec (request_json repository_policy) ≡ ok captured.requested_policy
  task_input : new_snapshot codec (input_json input) ≡ ok captured.input
  policy :
      new_snapshot codec (policy_json (resolve operator_policy repository_policy []))
      ≡ ok captured.policy

capture-CapturedFrom :
    (codec : Codec) (input : TaskInput) (operator : PolicyRequest) (material : RepositoryMaterial)
    (captured : Captured)
    → capture codec input operator material ≡ ok captured
    → CapturedFrom codec input operator material captured
unfolding capture
capture-CapturedFrom codec input operator material captured h =
    let (rp, h1, k1) = >>=-eq-ok (attempt bad_configuration _) _ h in
    let (op, h2, k2) = >>=-eq-ok (attempt _ (normalize_request operator)) _ k1 in
    let (u, h3, k3) = >>=-eq-ok (attempt bad_input _) _ k2 in
    let (c, h4, k4) = >>=-eq-ok (attempt bad_configuration _) _ k3 in
    let (r, h5, k5) = >>=-eq-ok (attempt bad_configuration _) _ k4 in
    let (i, h6, k6) = >>=-eq-ok (attempt bad_input _) _ k5 in
    let (p, h7, k7) =
      >>=-eq-ok (attempt _ (new_snapshot codec (policy_json (resolve op rp [])))) _ k6 in
    subst (CapturedFrom codec input operator material) (ok_injective k7) (record {
      repository_policy = rp;
      operator_policy = op;
      normal_repository = attempt-ok _ _ h1;
      normal_operator = attempt-ok _ _ h2;
      is_manual = attempt-guard _ (manual input) _ h3;
      configuration = attempt-ok _ _ h4;
      requested_policy = attempt-ok _ _ h5;
      task_input = attempt-ok _ _ h6;
      policy = attempt-ok _ _ h7;
    })

-- The draft, and what it was made of.
record PreparedFrom (codec : Codec) (name connector : GoString) (input : TaskInput)
    (operator : PolicyRequest) (draft : TaskDraft) : Type 0 where
  this : TaskService
  material : RepositoryMaterial
  captured : Captured
  named : is_empty name || is_empty connector ≡ false
  whole : complete material ≡ true
  from : CapturedFrom codec input operator material captured
  running : is_zero this.now ≡ false
  task_id : parse_task_id (this.new_id task_prefix) ≡ ok (this.new_id task_prefix)
  resource_id : parse_resource_id (this.new_id resource_prefix) ≡ ok (this.new_id resource_prefix)
  made : draft_of this name connector material captured ≡ draft

same_task_id : (v : GoString) {id : GoString} → parse_task_id v ≡ ok id → parse_task_id v ≡ ok v
unfolding parse_task_id
same_task_id v h = ground arith

same_resource_id :
    (v : GoString) {id : GoString} → parse_resource_id v ≡ ok id → parse_resource_id v ≡ ok v
unfolding parse_resource_id
same_resource_id v h = ground arith

not-true : (b : Bool) → not b ≡ true → b ≡ false
not-true true h = cc
not-true false h = refl

configured-named :
    (service : Option TaskService) (name connector : GoString) {this : TaskService}
    → configured service name connector ≡ ok this
    → is_empty name || is_empty connector ≡ false
configured-named none name connector h = cc
configured-named (some s) name connector h = ground arith

prepare-PreparedFrom :
    (codec : Codec) (ctx : Context) (service : Option TaskService) (name connector : GoString)
    (input : TaskInput) (operator : PolicyRequest) (source : Option (Result RepositoryMaterial))
    (draft : TaskDraft)
    → prepare codec ctx service name connector input operator source ≡ ok draft
    → PreparedFrom codec name connector input operator draft
unfolding prepare
prepare-PreparedFrom codec ctx service name connector input operator source draft h =
    let (u1, h1, k1) = >>=-eq-ok (cancelled ctx.at_entry) _ h in
    let (this, h2, k2) = >>=-eq-ok (configured service name connector) _ k1 in
    let (m, h3, k3) = >>=-eq-ok (from_source ctx source) _ k2 in
    let (u4, h4, k4) = >>=-eq-ok (attempt bad_configuration (guard (complete m) _)) _ k3 in
    let (c, h5, k5) = >>=-eq-ok (capture codec input operator m) _ k4 in
    let (u6, h6, k6) = >>=-eq-ok (attempt _ (guard (not (is_zero this.now)) _)) _ k5 in
    let (t, h7, k7) = >>=-eq-ok (attempt _ (parse_task_id (this.new_id task_prefix))) _ k6 in
    let (r, h8, k8) =
      >>=-eq-ok (attempt _ (parse_resource_id (this.new_id resource_prefix))) _ k7 in
    record {
      this = this;
      material = m;
      captured = c;
      named = configured-named service name connector h2;
      whole = attempt-guard _ (complete m) _ h4;
      from = capture-CapturedFrom codec input operator m c h5;
      running = not-true (is_zero this.now) (attempt-guard _ (not (is_zero this.now)) _ h6);
      task_id = same_task_id _ (attempt-ok _ _ h7);
      resource_id = same_resource_id _ (attempt-ok _ _ h8);
      made = ok_injective k8;
    }

complete_resource :
    (m : RepositoryMaterial) (name connector : GoString) (this : TaskService) (c : Captured)
    → complete m ≡ true
    → is_empty name || is_empty connector ≡ false
    → resource_ok (draft_of this name connector m c).resource ≡ true
complete_resource m name connector this c h n = ground arith

int_eqb_refl : (z : ℤ) → int_eqb z z ≡ true
int_eqb_refl (pos n) = ground arith
int_eqb_refl (negsuc n) = ground arith

module _ (codec : Codec) (laws : IsCodec codec) where
  captured-Parses : (v : Json) (s : Snapshot) → new_snapshot codec v ≡ ok s → Parses codec s
  captured-Parses v s h = (s, new_snapshot-IsCanonical codec laws v s h)

  module _ (ctx : Context) (service : Option TaskService) (name connector : GoString)
      (input : TaskInput) (operator : PolicyRequest) (source : Option (Result RepositoryMaterial))
      (draft : TaskDraft) where
    -- Under the laws of the JSON codec, a draft that is handed to the store passes the store's
    -- `validateDraft`.
    pub validate_draft-prepare :
        prepare codec ctx service name connector input operator source ≡ ok draft
        → validate_draft codec draft ≡ ok tt
    unfolding ◌==◌
    validate_draft-prepare h =
        let p =
          prepare-PreparedFrom codec ctx service name connector input operator source draft h in
        let f = p.from in
        let c = p.captured in
        IsValidDraft-validate_draft codec draft (
          subst (IsValidDraft codec) p.made (record {
            good_id = p.task_id;
            good_metadata = rw p.running refl;
            good_resource_id = p.resource_id;
            good_resource = complete_resource p.material name connector p.this c p.whole p.named;
            one_configuration = eq_refl c.configuration.bytes;
            good_snapshots = (
              captured-Parses _ c.configuration f.configuration,
              (
                captured-Parses _ c.requested_policy f.requested_policy,
                (
                  captured-Parses _ c.input f.task_input,
                  (
                    captured-Parses _ c.configuration f.configuration,
                    (captured-Parses _ c.policy f.policy, tt),
                  ),
                ),
              ),
            );
            good_history = rw (int_eqb_refl p.this.now.instant) refl;
          }))

    -- Under the laws of the JSON codec, the policy that is stored with a submitted task is the
    -- snapshot of an effective policy that denies by default and in which every named action is
    -- denied, and that protects all the paths that the operator's request, made normal, protects.
    pub prepare-denies :
        prepare codec ctx service name connector input operator source ≡ ok draft
        → (policy : EffectivePolicy) × (operator_policy : PolicyRequest) × (new_snapshot codec
              (policy_json policy)
            ≡ ok draft.policy)
          × (normalize_request operator ≡ ok operator_policy)
          × (policy.default_action ≡ deny)
          × ((action decision : GoString)
              → lookup action policy.actions ≡ some decision
              → decision ≡ deny)
          × ((path : GoString)
              → In path operator_policy.protected_paths
              → In path policy.protected_paths)
    prepare-denies h =
        let p =
          prepare-PreparedFrom codec ctx service name connector input operator source draft h in
        let f = p.from in
        let effective = resolve f.operator_policy f.repository_policy [] in
        (
          effective,
          f.operator_policy,
          subst (λ (d : TaskDraft). new_snapshot codec (policy_json effective) ≡ ok d.policy) p.made
              f.policy,
          f.normal_operator,
          unfold resolve in refl,
          λ action decision q.
              resolve-denies f.operator_policy f.repository_policy action decision q,
          λ path i. ((resolve-protected f.operator_policy f.repository_policy []).1 path).1 (inl i),
        )

-- A draft that is handed to the store has a task id of the grammar.
pub prepare-task_id :
    (codec : Codec) (ctx : Context) (service : Option TaskService) (name connector : GoString)
    (input : TaskInput) (operator : PolicyRequest) (source : Option (Result RepositoryMaterial))
    (draft : TaskDraft)
    → prepare codec ctx service name connector input operator source ≡ ok draft
    → parse_task_id draft.id ≡ ok draft.id
prepare-task_id codec ctx service name connector input operator source draft h =
    let p = prepare-PreparedFrom codec ctx service name connector input operator source draft h in
    subst (λ (d : TaskDraft). parse_task_id d.id ≡ ok d.id) p.made p.task_id
