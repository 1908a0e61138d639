-- ===== src/Control/Failure.antt =====
-- internal/control/failure.go, and `failureFromCause` of internal/control/task.go. The `Error`
-- methods of the types are in `error_text`, their `SafeReason` methods in `own_reason`.
use delegatd.Prelude.{
  ◌≡◌, ◌≢◌, refl, inl, inr, [], ◌∷◌, GoString, codes, Option, none, some, GoError, ErrorType,
  failure, store, repository, validation, diagnostic, plain, sentinel, typed, wrapped, Option-cases,
}

abbrev pub task_failed : GoString
task_failed = codes "task failed"

abbrev pub task_cancelled : GoString
task_cancelled = codes "task cancelled"

-- `NewFailure` of a cause that is not nil
abbrev pub new_failure : GoString → GoError → GoError
new_failure reason cause = wrapped failure reason cause

or_default : GoString → GoString → GoString
or_default default_text [] = default_text
or_default default_text (b ∷ reason) = b ∷ reason

-- The `Error` of the types that carry a reason: a `Failure` and a store's error without one have a
-- default text.
unfoldable pub error_text : ErrorType → GoString → GoString
unfolding or_default
error_text failure reason = or_default task_failed reason
error_text store reason = or_default (codes "task store is unavailable") reason
error_text repository reason = reason
error_text validation reason = reason
error_text diagnostic reason = reason

-- What `SafeReason` returns, for the types that have the method.
unfoldable pub own_reason : ErrorType → GoString → Option GoString
own_reason failure reason = some (error_text failure reason)
own_reason store reason = some (error_text store reason)
own_reason repository reason = some reason
own_reason validation reason = none
own_reason diagnostic reason = none

or_below : Option GoString → Option GoString → Option GoString
or_below none below = below
or_below (some reason) below = some reason

-- `errors.As` with a `SafeReason` provider: the reason of the first error of the chain that has
-- one.
unfoldable pub provided_reason : GoError → Option GoString
unfolding or_below
provided_reason (plain text) = none
provided_reason (sentinel s) = none
provided_reason (typed t reason) = own_reason t reason
provided_reason (wrapped t reason cause) = or_below (own_reason t reason) (provided_reason cause)

reason_or_failed : Option GoString → GoString
unfolding or_default
reason_or_failed none = task_failed
reason_or_failed (some reason) = or_default task_failed reason

of_failure : ErrorType → GoString → Option GoString → Option GoString
of_failure failure reason below = some (error_text failure reason)
of_failure store reason below = below
of_failure repository reason below = below
of_failure validation reason below = below
of_failure diagnostic reason below = below

-- `errors.As` with a `*Failure`: the text of the first one of the chain.
unfoldable pub failure_text : GoError → Option GoString
unfolding of_failure
failure_text (plain text) = none
failure_text (sentinel s) = none
failure_text (typed t reason) = of_failure t reason none
failure_text (wrapped t reason cause) = of_failure t reason (failure_text cause)

-- `SafeReason` of an error that is not nil
unfoldable pub safe_reason : GoError → GoString
unfolding reason_or_failed
safe_reason e = elim (failure_text e) [
  | none ↦ reason_or_failed (provided_reason e)
  | some text ↦ text
]

-- `failureFromCause`; the first argument is the context's error after the failed call.
unfoldable pub failure_from_cause : Option GoError → GoError → GoError
unfolding reason_or_failed
failure_from_cause (some e) cause = new_failure task_cancelled e
failure_from_cause none cause = new_failure (reason_or_failed (provided_reason cause)) cause

or_default-full : (default_text s : GoString) → default_text ≢ [] → or_default default_text s ≢ []
unfolding or_default
or_default-full default_text [] h e = h e
or_default-full default_text (b ∷ s) h e = cc e

error_text-failure-full : (reason : GoString) → error_text failure reason ≢ []
unfolding error_text
error_text-failure-full reason = or_default-full task_failed reason (λ e. cc e)

of_failure-full :
    (t : ErrorType) (reason : GoString) (below : Option GoString)
    → ((text : GoString) → below ≡ some text → text ≢ [])
    → (text : GoString) → of_failure t reason below ≡ some text
    → text ≢ []
unfolding of_failure
of_failure-full failure reason below h text e = λ q. error_text-failure-full reason (cc (e, q))
of_failure-full store reason below h text e = h text e
of_failure-full repository reason below h text e = h text e
of_failure-full validation reason below h text e = h text e
of_failure-full diagnostic reason below h text e = h text e

failure_text-full : (e : GoError) (text : GoString) → failure_text e ≡ some text → text ≢ []
unfolding failure_text
failure_text-full (plain s) text h = cc
failure_text-full (sentinel s) text h = cc
failure_text-full (typed t reason) text h = of_failure-full t reason none (λ u q. cc) text h
failure_text-full (wrapped t reason cause) text h =
    of_failure-full t reason (failure_text cause) (failure_text-full cause) text h

reason_or_failed-full : (o : Option GoString) → reason_or_failed o ≢ []
unfolding reason_or_failed
reason_or_failed-full none e = cc e
reason_or_failed-full (some s) e = or_default-full task_failed s (λ q. cc q) e

-- The public reason of an error is never empty.
pub safe_reason-full : (e : GoError) → safe_reason e ≢ []
unfolding safe_reason
safe_reason-full e = elim (Option-cases (failure_text e)) [
  | inl q ↦ rw (safe_reason, q) (reason_or_failed-full (provided_reason e))
  | inr (text, q) ↦ rw (safe_reason, q) (failure_text-full e text q)
]

reason_or_failed-some : (reason : GoString) → reason ≢ [] → reason_or_failed (some reason) ≡ reason
unfolding reason_or_failed or_default
reason_or_failed-some [] h = absurd (h refl)
reason_or_failed-some (b ∷ reason) h = refl

-- What `failureFromCause` returns has as its public reason "task cancelled" when the context has an
-- error by then. Otherwise the reason is that of the first error of the chain that has one, and the
-- cause is kept.
pub safe_reason-failure_from_cause :
    (ctx : Option GoError) (cause : GoError)
    → ((e : GoError) → ctx ≡ some e → safe_reason (failure_from_cause ctx cause) ≡ task_cancelled)
      × ((reason : GoString)
          → ctx ≡ none
          → provided_reason cause ≡ some reason
          → reason ≢ []
          → failure_from_cause ctx cause ≡ new_failure reason cause)
      × (ctx ≡ none
          → provided_reason cause ≡ none
          → failure_from_cause ctx cause ≡ new_failure task_failed cause)
unfolding failure_from_cause
safe_reason-failure_from_cause none cause = (
  λ e q. cc q,
  λ reason q p full. rw p (rw (reason_or_failed-some reason full)),
  λ q p. rw p (unfold reason_or_failed in refl),
)
safe_reason-failure_from_cause (some x) cause = (
  λ e q. unfold safe_reason failure_text of_failure error_text or_default in refl,
  λ reason q. cc q,
  λ q. cc q,
)

-- `failureFromCause` returns a `Failure` with a reason that is not empty.
pub failure_from_cause-reason :
    (ctx : Option GoError) (cause : GoError)
    → (reason : GoString) × (inner : GoError) × (failure_from_cause ctx cause
        ≡ new_failure reason inner)
      × (reason ≢ [])
unfolding failure_from_cause
failure_from_cause-reason none cause = (
  reason_or_failed (provided_reason cause),
  cause,
  refl,
  reason_or_failed-full (provided_reason cause),
)
failure_from_cause-reason (some e) cause = (task_cancelled, e, refl, λ q. cc q)
