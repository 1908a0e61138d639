-- ===== src/Prelude/Results.antt =====
-- Go's errors as values, and the results of fallible code.
use mathlib.Core.Path.{◌≡◌, refl}
use mathlib.Core.List.{List}
use mathlib.Core.Option.{some}
use mathlib.Core.Logic.{◌⊎◌, inl, inr}
use Prim.Native.Nat.{ℕ}

-- The package-level error values that the code compares by identity with `errors.Is`.
pub data Sentinel : Type 0 where
  task_not_found resource_conflict store_corrupt store_unsupported : Sentinel
  protocol_unavailable frame_too_large output_too_large response_too_large : Sentinel
  canceled deadline_exceeded : Sentinel

-- The error types that carry a reason; all but `validation` and `diagnostic` have `SafeReason`.
pub data ErrorType : Type 0 where
  failure store repository validation diagnostic : ErrorType

-- `errors.New` and foreign errors are `plain`, with their text. A `typed` error has a nil cause.
pub data GoError : Type 0 where
  plain : List ℕ → GoError
  sentinel : Sentinel → GoError
  typed : ErrorType → List ℕ → GoError
  wrapped : ErrorType → List ℕ → GoError → GoError

pub data Result {ℓ} (Value : Type ℓ) : Type ℓ where
  err : GoError → Result Value
  ok : Value → Result Value

-- `if err != nil { return …, err }` after a call, and the same where its value is dropped.
infixl 5 ◌>>=◌ ◌>>◌
abbrev pub ◌>>=◌ {ℓ κ} :
    {First : Type ℓ} {Next : Type κ} → Result First → (First → Result Next) → Result Next
err failed >>= next = err failed
ok value >>= next = next value

abbrev pub ◌>>◌ {ℓ κ} : {First : Type ℓ} {Next : Type κ} → Result First → Result Next → Result Next
first >> next = first >>= λ dropped. next

-- A chain that succeeds had a first call that succeeded.
pub >>=-eq-ok {ℓ κ} :
    {First : Type ℓ} {Next : Type κ} (call : Result First) (next : First → Result Next)
    {last : Next}
    → (call >>= next) ≡ ok last
    → (value : First) × (call ≡ ok value) × (next value ≡ ok last)
>>=-eq-ok (err failed) next succeeded = cc
>>=-eq-ok (ok value) next succeeded = (value, refl, succeeded)

pub ok_injective {ℓ} : {A : Type ℓ} {a b : A} → ok a ≡ ok b → a ≡ b
ok_injective h = cc

pub some_injective {ℓ} : {A : Type ℓ} {a b : A} → some a ≡ some b → a ≡ b
some_injective h = cc

pub Result-cases {ℓ} :
    {A : Type ℓ} (r : Result A) → ((a : A) × (r ≡ ok a)) ⊎ ((e : GoError) × (r ≡ err e))
Result-cases (ok a) = inl (a, refl)
Result-cases (err e) = inr (e, refl)
