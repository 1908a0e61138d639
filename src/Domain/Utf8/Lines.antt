-- ===== src/Domain/Utf8/Lines.antt =====
-- The lines of a valid UTF-8 text are valid, and so is the text that valid lines join to.
use delegatd.Prelude.{
  ℕ, ◌≡◌, refl, sym, ◌∙◌, inl, inr, true, some, List, [], ◌∷◌, arith, GoString, All, eqb,
  Bool-cases, split, cons_first, join,
}
use delegatd.Domain.Utf8.{
  Pending, IsOwed, next, next-IsOwed, completes, completes-cons, completes-ascii, completes-append,
  utf8_valid,
}

abbrev pub AllValid : List GoString → Type 0
AllValid = All (λ l. utf8_valid l ≡ true)

-- The first line completes what is pending, and the others are whole.
abbrev FirstRest : Pending → List GoString → Type 0
FirstRest p [] = ⊥
FirstRest p (l ∷ ls) = (completes p l ≡ true) × All (λ m. completes (some []) m ≡ true) ls

FirstRest-cons :
    (p : Pending) (b : ℕ) (ls : List GoString)
    → FirstRest (next p b) ls
    → FirstRest p (cons_first b ls)
unfolding cons_first
FirstRest-cons p b [] h = elim h [ ]
FirstRest-cons p b (l ∷ ls) h = (completes-cons p b l ∙ h.0, h.1)

FirstRest-All :
    (ls : List GoString) → FirstRest (some []) ls → All (λ m. completes (some []) m ≡ true) ls
FirstRest-All [] h = tt
FirstRest-All (l ∷ ls) h = h

split-FirstRest :
    (p : Pending) (s : GoString) → IsOwed p → completes p s ≡ true → FirstRest p (split 10 s)
unfolding split
split-FirstRest p [] o h = (h, tt)
split-FirstRest p (b ∷ s) o h = elim (Bool-cases (eqb b 10)) [
  | inl e ↦
      let (whole, more) = completes-ascii p b s (ground arith) o h in
      rw e (
        rw whole (unfold completes in refl),
        FirstRest-All (split 10 s) (split-FirstRest (some []) s tt more),
      )
  | inr e ↦ rw e (
      FirstRest-cons p b (split 10 s)
        (split-FirstRest (next p b) s (next-IsOwed p b o) (sym (completes-cons p b s) ∙ h)))
]

pub split-AllValid : (s : GoString) → utf8_valid s ≡ true → AllValid (split 10 s)
unfolding utf8_valid
split-AllValid s h = FirstRest-All (split 10 s) (split-FirstRest (some []) s tt h)

pub join-utf8_valid : (ls : List GoString) → AllValid ls → utf8_valid (join 10 ls) ≡ true
unfolding utf8_valid join
join-utf8_valid [] h = unfold completes in refl
join-utf8_valid (l ∷ []) h = h.0
join-utf8_valid (l ∷ m ∷ ls) h =
    completes-append (some []) l 10 (join 10 (m ∷ ls)) (omega arith) h.0
      (join-utf8_valid (m ∷ ls) h.1)
