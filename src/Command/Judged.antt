-- ===== src/Command/Judged.antt =====
-- Commands that were used and commands that were misused, and how the tests of the command line tell
-- them apart.
use delegatd.Prelude.{
  ◌≡◌, ◌≢◌, refl, arith, ℕ, ◌≤◌, Bool, true, false, ◌||◌, not, List, [], ◌∷◌, GoString, ◌==◌,
  eq_iff, is_empty, length, eqb, if◌then◌else◌, Bool-cases, inl, inr, ◌⊎◌,
}
use delegatd.Command.{Printed, line, misused, helped}

-- Exit code 0 or 1, with nothing on the standard error.
abbrev pub Served : Printed → Type 0
Served p = (p.code ≤ 1) × (p.stderr ≡ [])

-- Exit code 2, with nothing on the standard output and something on the standard error.
abbrev pub Refused : Printed → Type 0
Refused p = (p.code ≡ 2) × (p.stdout ≡ []) × (p.stderr ≢ [])

-- A use was served, and what is none was refused.
abbrev pub Judged : Type 0 → Printed → Type 0
Judged Use p = (Use × Served p) ⊎ ((Use → ⊥) × Refused p)

line_full : (s : GoString) → line s ≢ []
line_full [] e = cc
line_full (b ∷ s) e = cc

pub misused-Refused : (usage : GoString) → Refused (misused usage)
misused-Refused usage = (refl, refl, line_full usage)

pub helped-Served : (usage : GoString) → Served (helped usage)
helped-Served usage = (omega arith, refl)

-- A test that holds exactly when a condition fails.
abbrev pub Rejects : Bool → Type 0 → Type 0
Rejects b P = (b ≡ true → P → ⊥) × (b ≡ false → P)

pub is_empty-Rejects : (s : GoString) → Rejects (is_empty s) (s ≢ [])
is_empty-Rejects [] = (λ h k. k refl, λ h. cc)
is_empty-Rejects (b ∷ s) = (λ h k. cc, λ h e. cc)

pub no_args-Rejects : (args : List GoString) → Rejects (not (eqb (length args) 0)) (args ≡ [])
no_args-Rejects [] = (λ h k. cc, λ h. refl)
no_args-Rejects (a ∷ args) = (λ h e. cc, λ h. absurd (ground arith))

pub eqb-Rejects : (m n : ℕ) → Rejects (not (eqb m n)) (m ≡ n)
eqb-Rejects m n = (λ h e. ground arith, λ h. ground arith)

pub or-Rejects : (a b : Bool) {P Q : Type 0} → Rejects a P → Rejects b Q → Rejects (a || b) (P × Q)
or-Rejects true b p q = (λ h (x, y). p.0 refl x, λ h. cc)
or-Rejects false b p q = (λ h (x, y). q.0 h y, λ h. (p.1 refl, q.1 h))

-- A command that refuses unless a condition holds.
pub guarded-Judged :
    (b : Bool) {P Use : Type 0} (p q : Printed)
    → Rejects b P
    → (Use → P)
    → Refused p
    → (P → Judged Use q)
    → Judged Use (if b then p else q)
guarded-Judged true p q rejects needs refused next = inr (λ u. rejects.0 refl (needs u), refused)
guarded-Judged false p q rejects needs refused next = next (rejects.1 refl)

-- A command that serves a call for help first.
pub helped-Judged :
    (a b : Bool) {Use : Type 0} (p q : Printed)
    → Served p
    → Judged Use q
    → Judged (((a ≡ true) ⊎ (b ≡ true)) ⊎ Use) (if a || b then p else q)
helped-Judged true b p q served next = inl (inl (inl refl), served)
helped-Judged false true p q served next = inl (inl (inr refl), served)
helped-Judged false false p q served (inl (u, s)) = inl (inr u, s)
helped-Judged false false p q served (inr (unused, r)) =
    inr (λ u. elim u [ inl (inl e) ↦ cc | inl (inr e) ↦ cc | inr v ↦ unused v ], r)

-- A command that serves a call for help, and otherwise refuses unless a condition holds.
pub tested-Judged :
    (a b bad : Bool) {P Use : Type 0} (p q r : Printed)
    → Served p
    → Refused q
    → Rejects bad P
    → (Use → P)
    → (P → Judged Use r)
    → Judged (((a ≡ true) ⊎ (b ≡ true)) ⊎ Use) (if a || b then p else if bad then q else r)
tested-Judged a b bad p q r served refused rejects needs next =
    helped-Judged a b p (if bad then q else r) served
      (guarded-Judged bad q r rejects needs refused next)

-- Two ways to use a command, of which only one is open.
open_first : {A U V : Type 0} (p : Printed) → A → (A → V → ⊥) → Judged U p → Judged ((A × U) ⊎ V) p
open_first p a apart (inl (u, s)) = inl (inl (a, u), s)
open_first p a apart (inr (unused, r)) =
    inr (λ v. elim v [ inl (c, u) ↦ unused u | inr o ↦ apart a o ], r)

open_second : {A U V : Type 0} (p : Printed) → (A → ⊥) → Judged V p → Judged ((A × U) ⊎ V) p
open_second p shut (inl (v, s)) = inl (inr v, s)
open_second p shut (inr (unused, r)) =
    inr (λ v. elim v [ inl (c, u) ↦ shut c | inr o ↦ unused o ], r)

under : {A U : Type 0} → A → (p : Printed) → Judged U p → Judged (A × U) p
under a p (inl (u, s)) = inl ((a, u), s)
under a p (inr (unused, r)) = inr (λ (c, u). unused u, r)

neither :
    {A B Use : Type 0} (q : Printed) → (A → ⊥) → (B → ⊥) → Judged Use q → Judged ((A ⊎ B) ⊎ Use) q
neither q a b (inl (u, s)) = inl (inr u, s)
neither q a b (inr (unused, r)) =
    inr (λ u. elim u [ inl (inl x) ↦ a x | inl (inr y) ↦ b y | inr v ↦ unused v ], r)

-- A command that is chosen by its name.
pub named-Judged :
    (command name : GoString) {Use Other : Type 0} (p q : Printed)
    → (command ≡ name → Other → ⊥)
    → Judged Use p
    → Judged Other q
    → Judged (((command ≡ name) × Use) ⊎ Other) (if command == name then p else q)
named-Judged command name p q apart this next = elim (Bool-cases (command == name)) [
  | inl e ↦ rw e (open_first p ((eq_iff command name).0 e) apart this)
  | inr e ↦ rw e (open_second q (λ c. cc (e, (eq_iff command name).1 c)) next)
]

-- The last name that is tried.
pub last-Judged :
    (command name : GoString) {Use : Type 0} (p q : Printed)
    → Judged Use p
    → Refused q
    → Judged ((command ≡ name) × Use) (if command == name then p else q)
last-Judged command name p q this refused = elim (Bool-cases (command == name)) [
  | inl e ↦ rw e (under ((eq_iff command name).0 e) p this)
  | inr e ↦ rw e (inr (λ (c, u). cc (e, (eq_iff command name).1 c), refused))
]

-- A command that serves two names for help first.
pub either-Judged :
    (command name other : GoString) {Use : Type 0} (p q : Printed)
    → Served p
    → Judged Use q
    → Judged
        (((command ≡ name) ⊎ (command ≡ other)) ⊎ Use)
        (if command == name || command == other then p else q)
either-Judged command name other p q served next = elim (Bool-cases (command == name)) [
  | inl e ↦ rw e (inl (inl (inl ((eq_iff command name).0 e)), served))
  | inr e ↦ elim (Bool-cases (command == other)) [
    | inl e' ↦ rw (e, e') (inl (inl (inr ((eq_iff command other).0 e')), served))
    | inr e' ↦
        rw (e, e')
          (neither q (λ c. cc (e, (eq_iff command name).1 c))
            (λ c. cc (e', (eq_iff command other).1 c)) next)
  ]
]

pub both : {Use : Type 0} (p : Printed) → Judged Use p → (Use → Served p) × ((Use → ⊥) → Refused p)
both p (inl (u, s)) = (λ v. s, λ unused. absurd (unused u))
both p (inr (unused, r)) = (λ u. absurd (unused u), λ v. r)
