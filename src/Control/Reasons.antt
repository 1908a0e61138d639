-- ===== src/Control/Reasons.antt =====
-- The errors of the task service are failures with a public reason.
use delegatd.Prelude.{
  ◌≡◌, ◌≢◌, subst, inl, inr, [], GoString, codes, Option, none, some, Result, ok, err, GoError,
  ◌>>=◌, Bool-cases, ◌&&◌, ◌||◌, not, is_empty,
}
use delegatd.Domain.Id.{parse_task_id, parse_resource_id, task_prefix, resource_prefix}
use delegatd.Domain.Input.{TaskInput}
use delegatd.Domain.Json.{Codec}
use delegatd.Domain.Task.{
  PolicyRequest, RepositoryMaterial, TaskDraft, Task, configuration_json, request_json, input_json,
  policy_json,
}
use delegatd.Domain.Snapshot.{new_snapshot}
use delegatd.Domain.Time.{is_zero}
use delegatd.Policy.Request.{normalize_request}
use delegatd.Policy.Resolve.{resolve}
use delegatd.Memory.{guard}
use delegatd.Control.Failure.{
  new_failure, failure_from_cause, failure_from_cause-reason, task_failed, task_cancelled,
}
use delegatd.Control.Store.{TaskStore}
use delegatd.Control.Submit.{
  Context, TaskService, cancelled, attempt, configured, from_source, capture, prepare, answered,
  store_draft, submit_manual_repository, clone_repository_configuration, complete, manual,
  bad_configuration, bad_input,
}
use delegatd.Control.Show.{show, store_ready, explained}

-- The error is a `Failure` with a reason that is not empty.
abbrev pub Explains : GoError → Type 0
Explains e =
    (reason : GoString) × (cause : GoError) × (e ≡ new_failure reason cause) × (reason ≢ [])

-- The result is no error, or one that explains itself.
abbrev Explained {ℓ} : {A : Type ℓ} → Result A → Type ℓ
Explained r = (e : GoError) → r ≡ err e → Explains e

ok-Explained {ℓ} : {A : Type ℓ} (a : A) → Explained (ok a)
ok-Explained a e q = cc q

failure-Explained {ℓ} :
    {A : Type ℓ} (reason : GoString) (cause : GoError)
    → reason ≢ []
    → Explained {A = A} (err (new_failure reason cause))
failure-Explained reason cause full e q = (reason, cause, cc q, full)

from_cause-Explained {ℓ} :
    {A : Type ℓ} (ctx : Option GoError) (cause : GoError)
    → Explained {A = A} (err (failure_from_cause ctx cause))
from_cause-Explained ctx cause e q = subst Explains (cc q) (failure_from_cause-reason ctx cause)

>>=-Explained {ℓ κ} :
    {A : Type ℓ} {B : Type κ} (m : Result A) (f : A → Result B)
    → Explained m
    → ((a : A) → Explained (f a))
    → Explained (m >>= f)
>>=-Explained (ok a) f h k = k a
>>=-Explained (err x) f h k = λ e q. h e (cc q)

attempt-Explained {ℓ κ} :
    {A : Type ℓ} {B : Type κ} (reason : GoString) (m : Result A) (f : A → Result B)
    → reason ≢ []
    → ((a : A) → Explained (f a))
    → Explained (attempt reason m >>= f)
attempt-Explained reason (ok a) f full k = k a
attempt-Explained reason (err x) f full k = failure-Explained reason x full

cancelled-Explained : (ctx : Option GoError) → Explained (cancelled ctx)
cancelled-Explained none = ok-Explained tt
cancelled-Explained (some e) = failure-Explained task_cancelled e (λ q. cc q)

configured-Explained :
    (service : Option TaskService) (name connector : GoString)
    → Explained (configured service name connector)
configured-Explained none name connector = failure-Explained task_failed _ (λ q. cc q)
configured-Explained (some service) name connector =
    elim (Bool-cases (service.has_store && not (is_empty name || is_empty connector))) [
      | inl y ↦ rw y (ok-Explained service)
      | inr n ↦ rw n (failure-Explained task_failed _ (λ q. cc q))
    ]

from_source-Explained :
    (ctx : Context) (source : Option (Result RepositoryMaterial))
    → Explained (from_source ctx source)
from_source-Explained ctx none = failure-Explained task_failed _ (λ q. cc q)
from_source-Explained ctx (some (ok m)) = ok-Explained m
from_source-Explained ctx (some (err e)) = from_cause-Explained ctx.after_source e

store_ready-Explained : (service : Option TaskService) → Explained (store_ready service)
store_ready-Explained none = failure-Explained _ _ (λ q. cc q)
store_ready-Explained (some service) = elim (Bool-cases service.has_store) [
  | inl y ↦ rw y (ok-Explained tt)
  | inr n ↦ rw n (failure-Explained _ _ (λ q. cc q))
]

explained-Explained {ℓ} :
    {A : Type ℓ} (ctx : Option GoError) (r : Result A) → Explained (explained ctx r)
explained-Explained ctx (ok a) = ok-Explained a
explained-Explained ctx (err e) = from_cause-Explained ctx e

capture-Explained :
    (codec : Codec) (input : TaskInput) (operator : PolicyRequest) (m : RepositoryMaterial)
    → Explained (capture codec input operator m)
unfolding capture
capture-Explained codec input operator m =
    let c = clone_repository_configuration m.configuration in
    let bad_conf : bad_configuration ≢ [] = λ q. cc q in
    let bad_in : bad_input ≢ [] = λ q. cc q in
    let failed : task_failed ≢ [] = λ q. cc q in
    attempt-Explained bad_configuration (normalize_request c.policy) _ bad_conf (λ rp.
      attempt-Explained task_failed (normalize_request operator) _ failed (λ op.
        attempt-Explained bad_input (guard (manual input) _) _ bad_in (λ u.
          attempt-Explained bad_configuration
            (new_snapshot codec (configuration_json (record c { policy = rp }))) _ bad_conf
            (λ cs.
              attempt-Explained bad_configuration (new_snapshot codec (request_json rp)) _ bad_conf
                (λ rs.
                  attempt-Explained bad_input (new_snapshot codec (input_json input)) _ bad_in
                    (λ is.
                      attempt-Explained task_failed
                        (new_snapshot codec (policy_json (resolve op rp []))) _ failed
                        (λ p. ok-Explained _)))))))

prepare-Explained :
    (codec : Codec) (ctx : Context) (service : Option TaskService) (name connector : GoString)
    (input : TaskInput) (operator : PolicyRequest) (source : Option (Result RepositoryMaterial))
    → Explained (prepare codec ctx service name connector input operator source)
unfolding prepare
prepare-Explained codec ctx service name connector input operator source =
    let bad_conf : bad_configuration ≢ [] = λ q. cc q in
    let failed : task_failed ≢ [] = λ q. cc q in
    >>=-Explained (cancelled ctx.at_entry) _ (cancelled-Explained ctx.at_entry) (λ u.
      >>=-Explained (configured service name connector) _
        (configured-Explained service name connector)
        (λ this. >>=-Explained (from_source ctx source) _ (from_source-Explained ctx source) (λ m.
          attempt-Explained bad_configuration (guard (complete m) _) _ bad_conf (λ u4.
            >>=-Explained (capture codec input operator m) _
              (capture-Explained codec input operator m)
              (λ c. attempt-Explained task_failed (guard (not (is_zero this.now)) _) _ failed (λ u6.
                attempt-Explained task_failed (parse_task_id (this.new_id task_prefix)) _ failed
                  (λ t.
                    attempt-Explained task_failed (parse_resource_id (this.new_id resource_prefix))
                      _ failed (λ r. ok-Explained _))))))))

answered-Explained {ℓ} :
    {S : Type ℓ} (ctx : Option GoError) (out : Result Task × S) → Explained (answered ctx out).0
unfolding answered
answered-Explained ctx (ok t, s) = ok-Explained t
answered-Explained ctx (err e, s) = from_cause-Explained ctx e

stored-Explained :
    (store : TaskStore) (ctx : Context) (r : Result TaskDraft) (s : store.State)
    → Explained r
    → Explained (store_draft store ctx r s).0
unfolding store_draft
stored-Explained store ctx (ok draft) s h =
    answered-Explained ctx.after_store (store.create_task ctx.at_store draft s)
stored-Explained store ctx (err x) s h = λ e q. h e (cc q)

-- Whatever the store does, an error of a submission is a `Failure` with a reason that is not empty,
-- so its text never is that of an inner error.
pub submit_manual_repository-Explains :
    (codec : Codec) (store : TaskStore) (ctx : Context) (service : Option TaskService)
    (name connector : GoString) (input : TaskInput) (operator : PolicyRequest)
    (source : Option (Result RepositoryMaterial)) (s : store.State) (e : GoError)
    → (submit_manual_repository codec store ctx service name connector input operator source s).0
      ≡ err e
    → Explains e
unfolding submit_manual_repository
submit_manual_repository-Explains codec store ctx service name connector input operator source s =
    stored-Explained store ctx (prepare codec ctx service name connector input operator source) s
      (prepare-Explained codec ctx service name connector input operator source)

-- An error of `Show` is a `Failure` with a reason that is not empty, whatever the store does.
pub show-Explains :
    (store : TaskStore) (ctx : Context) (service : Option TaskService) (id : GoString)
    (s : store.State) (e : GoError)
    → show store ctx service id s ≡ err e
    → Explains e
unfolding show
show-Explains store ctx service id s =
    >>=-Explained (cancelled ctx.at_entry) _ (cancelled-Explained ctx.at_entry) (λ u.
      >>=-Explained (store_ready service) _ (store_ready-Explained service) (λ v.
        attempt-Explained (codes "task not found") (parse_task_id id) _ (λ q. cc q)
          (λ w. explained-Explained ctx.after_store (store.task ctx.at_store id s))))
