-- ===== src/Doctor.antt =====
-- internal/doctor/doctor.go: `Run`, which starts one goroutine per check, and the report.
pub mod Order
use delegatd.Prelude.{
  ◌≡◌, refl, ℕ, zero, suc, Bool, true, false, ◌&&◌, List, [], ◌∷◌, GoString, codes, Option, none,
  some,
}

-- `Failure`, with its cause left to the probe
pub record Failure : Type 0 where
  pub reason : GoString

-- A probe is what the function returns under the command's context, or nil.
pub record Check : Type 0 where
  pub id : GoString
  pub probe : Option (GoString × Option Failure)

-- `Result`
pub record CheckResult : Type 0 where
  pub id : GoString
  pub detail : GoString
  pub failure : Option Failure

-- the zero value that `make` fills the results with
abbrev pub empty_result : CheckResult
empty_result = record { id = []; detail = []; failure = none }

unfoldable pub probed : GoString → Option (GoString × Option Failure) → CheckResult
probed id none = record {
  id = id;
  detail = [];
  failure = some (record { reason = codes "diagnostic probe is unavailable" });
}
probed id (some (detail, failure)) = record { id = id; detail = detail; failure = failure }

-- What one goroutine writes to its own element.
unfoldable pub outcome : Check → CheckResult
outcome check = probed check.id check.probe

unfoldable pub make_results : List Check → List CheckResult
make_results [] = []
make_results (c ∷ cs) = empty_result ∷ make_results cs

-- The goroutine of the index runs: it writes its element.
unfoldable pub finish : ℕ → List Check → List CheckResult → List CheckResult
finish n [] rs = rs
finish n (c ∷ cs) [] = []
finish zero (c ∷ cs) (r ∷ rs) = outcome c ∷ rs
finish (suc n) (c ∷ cs) (r ∷ rs) = r ∷ finish n cs rs

-- The goroutines run in the order of the list.
unfoldable pub run_in : List ℕ → List Check → List CheckResult → List CheckResult
run_in [] checks results = results
run_in (n ∷ order) checks results = run_in order checks (finish n checks results)

-- `Run`, with the order in which the goroutines finish
unfoldable pub run : List ℕ → List Check → List CheckResult
run order checks = run_in order checks (make_results checks)

unfoldable pub passed : Option Failure → Bool
passed none = true
passed (some f) = false

-- `OK`
unfoldable pub report_ok : List CheckResult → Bool
unfolding passed
report_ok [] = true
report_ok (r ∷ rs) = passed r.failure && report_ok rs
