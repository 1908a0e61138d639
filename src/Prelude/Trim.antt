-- ===== src/Prelude/Trim.antt =====
-- `strings.TrimSpace` is idempotent.
use delegatd.Prelude.Tests.{eqb, Bool-cases}
use delegatd.Prelude.Text.{GoString}
use delegatd.Prelude.Space.{
  space_width, space_width_back, drop_space, trim_left, trim_right, trim_space,
}
use Prim.Native.Nat.{ℕ, zero, suc, ◌-◌}
use mathlib.Core.Path.{◌≡◌, refl, sym, ap, subst, ◌∙◌}
use mathlib.Core.Logic.{inl, inr}
use mathlib.Core.Bool.{true}
use mathlib.Core.List.{[], ◌∷◌, ◌++◌, reverse, reverse-reverse, reverse-append}
use native.Mathlib.Omega.{arith}

-- No white space is measured at the front.
abbrev Settled : (GoString → ℕ) → GoString → Type 0
Settled width [] = Unit
Settled width (a ∷ s) = eqb (width (a ∷ s)) 0 ≡ true

module _ (width : GoString → ℕ) where
  drop_space-Settled : (owed : ℕ) (s : GoString) → Settled width (drop_space width owed s)
  unfolding drop_space
  drop_space-Settled zero [] = tt
  drop_space-Settled (suc owed) [] = tt
  drop_space-Settled (suc owed) (a ∷ s) = drop_space-Settled owed s
  drop_space-Settled zero (a ∷ s) = elim (Bool-cases (eqb (width (a ∷ s)) 0)) [
    | inl e ↦ rw e e
    | inr e ↦ rw e (drop_space-Settled (width (a ∷ s) - 1) s)
  ]

  drop_space-fixed : (s : GoString) → Settled width s → drop_space width 0 s ≡ s
  unfolding drop_space
  drop_space-fixed [] h = refl
  drop_space-fixed (a ∷ s) h = rw h

  -- what is dropped stands in front of what is left
  drop_space-suffix :
      (owed : ℕ) (s : GoString) → (dropped : GoString) × (s ≡ dropped ++ drop_space width owed s)
  unfolding drop_space
  drop_space-suffix zero [] = ([], refl)
  drop_space-suffix (suc owed) [] = ([], refl)
  drop_space-suffix (suc owed) (a ∷ s) =
      let (d, e) = drop_space-suffix owed s in (a ∷ d, ap (λ r. a ∷ r) e)
  drop_space-suffix zero (a ∷ s) =
      let (d, e) = drop_space-suffix (width (a ∷ s) - 1) s in
      elim (Bool-cases (eqb (width (a ∷ s)) 0)) [
        | inl stop ↦ ([], rw stop)
        | inr more ↦ (a ∷ d, rw more (ap (λ r. a ∷ r) e))
      ]

-- A text that begins with no white space has none at the front of its prefixes.
prefix-Settled : (s t : GoString) → Settled space_width (s ++ t) → Settled space_width s
unfolding space_width
prefix-Settled [] t h = tt
prefix-Settled (a ∷ []) [] h = h
prefix-Settled (a ∷ []) (b ∷ []) h = ground arith
prefix-Settled (a ∷ []) (b ∷ c ∷ t) h = ground arith
prefix-Settled (a ∷ b ∷ []) [] h = h
prefix-Settled (a ∷ b ∷ []) (c ∷ t) h = ground arith
prefix-Settled (a ∷ b ∷ c ∷ s) t h = h

trim_right-prefix : (s : GoString) → (cut : GoString) × (s ≡ trim_right s ++ cut)
unfolding trim_right
trim_right-prefix s =
    let (d, e) = drop_space-suffix space_width_back 0 (reverse s) in
    (
      reverse d,
      sym (reverse-reverse s)
          ∙ ap reverse e
          ∙ reverse-append d (drop_space space_width_back 0 (reverse s)),
    )

trim_right_twice : (s : GoString) → trim_right (trim_right s) ≡ trim_right s
unfolding trim_right
trim_right_twice s = ap reverse (
    ap (drop_space space_width_back 0) (reverse-reverse (drop_space space_width_back 0 (reverse s)))
    ∙ drop_space-fixed space_width_back (drop_space space_width_back 0 (reverse s))
        (drop_space-Settled space_width_back 0 (reverse s)))

-- Trimming what was trimmed changes nothing.
pub trim_space_twice : (s : GoString) → trim_space (trim_space s) ≡ trim_space s
unfolding trim_space
trim_space_twice s =
    let (cut, e) = trim_right-prefix (trim_left s) in
    let settled : Settled space_width (trim_right (trim_left s)) =
      prefix-Settled (trim_right (trim_left s)) cut
        (subst (Settled space_width) e (unfold trim_left in drop_space-Settled space_width 0 s)) in
    let left : trim_left (trim_right (trim_left s)) ≡ trim_right (trim_left s) =
      unfold trim_left in drop_space-fixed space_width (trim_right (trim_left s)) settled in
    ap trim_right left ∙ trim_right_twice (trim_left s)
