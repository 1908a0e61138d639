-- ===== src/Doctor/Order.antt =====
-- The report of the doctor does not depend on the order in which the probes finish.
use delegatd.Prelude.{
  ◌≡◌, refl, ap, ◌∙◌, ℕ, zero, suc, ◌<◌, Bool, true, false, ◌&&◌, ◌||◌, List, [], ◌∷◌, arith,
  GoString, Option, none, some, length, eqb, all, if◌then◌else◌,
}
use delegatd.Doctor.{
  Failure, Check, CheckResult, empty_result, probed, outcome, make_results, finish, run_in, run,
  passed, report_ok,
}

-- The index is one of the list.
unfoldable pub member : ℕ → List ℕ → Bool
member n [] = false
member n (m ∷ order) = eqb n m || member n order

-- Every check's own outcome, in the order of the checks.
unfoldable pub outcomes : List Check → List CheckResult
outcomes [] = []
outcomes (c ∷ cs) = outcome c ∷ outcomes cs

-- The results when just the goroutines of `done` have finished.
progress : (ℕ → Bool) → List Check → List CheckResult
progress done [] = []
progress done (c ∷ cs) =
    (if done 0 then outcome c else empty_result) ∷ progress (λ n. done (suc n)) cs

progress-same :
    (d e : ℕ → Bool) (checks : List Check)
    → ((n : ℕ) → d n ≡ e n)
    → progress d checks ≡ progress e checks
unfolding progress
progress-same d e [] h = refl
progress-same d e (c ∷ cs) h = rw (h 0) (
    ap (λ rs. (if e 0 then outcome c else empty_result) ∷ rs)
      (progress-same (λ n. d (suc n)) (λ n. e (suc n)) cs (λ n. h (suc n))))

make_results-progress : (checks : List Check) → make_results checks ≡ progress (λ n. false) checks
unfolding make_results progress
make_results-progress [] = refl
make_results-progress (c ∷ cs) = ap (λ rs. empty_result ∷ rs) (make_results-progress cs)

zero_ne_suc : (m : ℕ) → eqb 0 (suc m) ≡ false
zero_ne_suc m = ground arith

finish-progress :
    (m : ℕ) (d : ℕ → Bool) (checks : List Check)
    → finish m checks (progress d checks) ≡ progress (λ n. eqb n m || d n) checks
unfolding finish progress
finish-progress zero d [] = refl
finish-progress (suc m) d [] = refl
finish-progress zero d (c ∷ cs) =
    ap (λ rs. outcome c ∷ rs)
      (progress-same (λ n. d (suc n)) (λ n. eqb (suc n) 0 || d (suc n)) cs (λ n. ground arith))
finish-progress (suc m) d (c ∷ cs) = rw (zero_ne_suc m) (
    ap (λ rs. (if d 0 then outcome c else empty_result) ∷ rs)
      (finish-progress m (λ n. d (suc n)) cs
        ∙ progress-same (λ n. eqb n m || d (suc n)) (λ n. eqb (suc n) (suc m) || d (suc n)) cs
            (λ n. ground arith)))

run_in-progress :
    (order : List ℕ) (d : ℕ → Bool) (checks : List Check)
    → run_in order checks (progress d checks) ≡ progress (λ n. member n order || d n) checks
unfolding run_in member
run_in-progress [] d checks = refl
run_in-progress (m ∷ order) d checks =
    ap (run_in order checks) (finish-progress m d checks)
    ∙ run_in-progress order (λ n. eqb n m || d n) checks
    ∙ progress-same (λ n. member n order || (eqb n m || d n))
        (λ n. (eqb n m || member n order) || d n) checks (λ n. ground arith)

progress-full :
    (d : ℕ → Bool) (checks : List Check)
    → ((n : ℕ) → n < length checks → d n ≡ true)
    → progress d checks ≡ outcomes checks
unfolding progress outcomes
progress-full d [] h = refl
progress-full d (c ∷ cs) h =
    rw (h 0 (omega arith)) (
      ap (λ rs. outcome c ∷ rs)
        (progress-full (λ n. d (suc n)) cs (λ n l. h (suc n) (omega arith))))

-- In whatever order the goroutines finish, `Run` reports every check's own outcome, in the order of
-- the checks.
pub run-outcomes :
    (order : List ℕ) (checks : List Check)
    → ((n : ℕ) → n < length checks → member n order ≡ true)
    → run order checks ≡ outcomes checks
unfolding run
run-outcomes order checks h =
    ap (run_in order checks) (make_results-progress checks)
    ∙ run_in-progress order (λ n. false) checks
    ∙ progress-full (λ n. member n order || false) checks (λ n l. ground (arith, h n l))

abbrev found_good : Option (GoString × Option Failure) → Bool
found_good none = false
found_good (some (detail, failure)) = passed failure

-- The check has a probe, and it found no failure.
abbrev pub passes : Check → Bool
passes check = found_good check.probe

probed-passes :
    (id : GoString) (probe : Option (GoString × Option Failure))
    → passed (probed id probe).failure ≡ found_good probe
unfolding probed passed
probed-passes id none = refl
probed-passes id (some (detail, failure)) = refl

outcome-passes : (c : Check) → passed (outcome c).failure ≡ passes c
unfolding outcome
outcome-passes c = probed-passes c.id c.probe

outcomes-passes : (checks : List Check) → report_ok (outcomes checks) ≡ all passes checks
unfolding outcomes report_ok
outcomes-passes [] = refl
outcomes-passes (c ∷ cs) = rw (outcome-passes c) (ap (λ b. passes c && b) (outcomes-passes cs))

-- When all goroutines have finished, the report is good exactly when every check has a probe that
-- found no failure.
pub report_ok-run :
    (order : List ℕ) (checks : List Check)
    → ((n : ℕ) → n < length checks → member n order ≡ true)
    → report_ok (run order checks) ≡ all passes checks
report_ok-run order checks h = ap report_ok (run-outcomes order checks h) ∙ outcomes-passes checks
