-- ===== src/Domain/Input/Acceptance.antt =====
-- Which texts `NormalizeManualInput` accepts.
use delegatd.Prelude.{
  ℕ, suc, ◌≤◌, ◌≡◌, ◌≢◌, ◌↔◌, refl, ap, inl, inr, true, false, List, [], ◌∷◌, arith, GoString, All,
  Bool-cases, split, join, join-split, contains_byte, length, length-append, trim_space, trim_left,
  trim_right, List-cases, is_empty, ok, pos,
}
use delegatd.Domain.Utf8.{utf8_valid}
use delegatd.Domain.Input.{
  TaskInput, task_source_manual, max_manual_input_size, replace_crlf, replace_cr, is_blank,
  drop_blank, keep_line, drop_blank_end, instructions_of, normalize_manual_input,
}
use delegatd.Domain.Input.Lines.{FirstFull, drop_blank-FirstFull}
use delegatd.Domain.Input.Normal.{accepted}

-- The bytes of the joined lines.
abbrev joined : List GoString → ℕ
joined ls = length (join 10 ls)

joined-tail : (l : GoString) (ls : List GoString) → joined ls ≤ joined (l ∷ ls)
unfolding join
joined-tail l [] = omega arith
joined-tail l (m ∷ ls) = omega (arith, length-append l (10 ∷ join 10 (m ∷ ls)))

joined-drop_blank : (ls : List GoString) → joined (drop_blank ls) ≤ joined ls
unfolding drop_blank
joined-drop_blank [] = omega arith
joined-drop_blank (l ∷ ls) = ground (arith, joined-drop_blank ls, joined-tail l ls)

joined-keep_line :
    (l m : GoString) (kept ls : List GoString)
    → joined kept ≤ joined (m ∷ ls)
    → joined (keep_line l kept) ≤ joined (l ∷ m ∷ ls)
unfolding keep_line join
joined-keep_line l m [] ls h = ground (arith, length-append l (10 ∷ join 10 (m ∷ ls)))
joined-keep_line l m (k ∷ kept) ls h =
    omega
      (arith, length-append l (10 ∷ join 10 (m ∷ ls)), length-append l (10 ∷ join 10 (k ∷ kept)))

joined-drop_blank_end : (ls : List GoString) → joined (drop_blank_end ls) ≤ joined ls
unfolding drop_blank_end
joined-drop_blank_end [] = omega arith
joined-drop_blank_end (l ∷ []) = unfold keep_line join in ground arith
joined-drop_blank_end (l ∷ m ∷ ls) =
    joined-keep_line l m (drop_blank_end (m ∷ ls)) ls (joined-drop_blank_end (m ∷ ls))

length-replace_crlf : (s : GoString) → length (replace_crlf s) ≤ length s
unfolding replace_crlf
length-replace_crlf [] = omega arith
length-replace_crlf (a ∷ []) = omega arith
length-replace_crlf (a ∷ b ∷ s) = ground (arith, length-replace_crlf s, length-replace_crlf (b ∷ s))

length-replace_cr : (s : GoString) → length (replace_cr s) ≡ length s
unfolding replace_cr
length-replace_cr [] = refl
length-replace_cr (a ∷ s) = ap suc (length-replace_cr s)

-- the lines of the text, before blank ones are dropped
abbrev pub lines_of : GoString → List GoString
lines_of raw = split 10 (replace_cr (replace_crlf raw))

-- The instructions are never longer than the text, so the second test of the size never fires.
pub length-instructions_of : (raw : GoString) → length (instructions_of raw) ≤ length raw
unfolding instructions_of
length-instructions_of raw = omega (
  arith,
  joined-drop_blank_end (drop_blank (lines_of raw)),
  joined-drop_blank (lines_of raw),
  ap length (join-split 10 (replace_cr (replace_crlf raw))),
  length-replace_cr (replace_crlf raw),
  length-replace_crlf raw,
)

abbrev pub AllBlank : List GoString → Type 0
AllBlank = All (λ l. is_blank l ≡ true)

drop_blank-blank : (ls : List GoString) → AllBlank ls → drop_blank ls ≡ []
unfolding drop_blank
drop_blank-blank [] h = refl
drop_blank-blank (l ∷ ls) h = rw h.0 (drop_blank-blank ls h.1)

blank-drop_blank : (ls : List GoString) → drop_blank ls ≡ [] → AllBlank ls
unfolding drop_blank
blank-drop_blank [] h = tt
blank-drop_blank (l ∷ ls) h = elim (Bool-cases (is_blank l)) [
  | inl e ↦ (e, blank-drop_blank ls (rw e at h))
  | inr e ↦ cc (rw e at h)
]

empty_line_is_blank : ¬ (is_blank [] ≡ false)
unfolding trim_space trim_left trim_right
empty_line_is_blank h = ground arith

-- Lines of which the first is not blank join to something.
keep_line-full :
    (l : GoString) (ls : List GoString)
    → is_blank l ≡ false
    → is_empty (join 10 (keep_line l ls)) ≡ false
unfolding keep_line join
keep_line-full [] ls h = absurd (empty_line_is_blank h)
keep_line-full (b ∷ l) [] h = rw h
keep_line-full (b ∷ l) (m ∷ ls) h = refl

kept-full :
    (ls : List GoString) → FirstFull ls → ls ≢ [] → is_empty (join 10 (drop_blank_end ls)) ≡ false
unfolding drop_blank_end
kept-full [] f h = absurd (h refl)
kept-full (l ∷ ls) f h = keep_line-full l (drop_blank_end ls) f

empty-iff-AllBlank :
    (raw : GoString) → (is_empty (instructions_of raw) ≡ true) ↔ AllBlank (lines_of raw)
unfolding instructions_of
empty-iff-AllBlank raw = (
  λ e. elim (List-cases (drop_blank (lines_of raw))) [
    | inl none_left ↦ blank-drop_blank (lines_of raw) none_left
    | inr some_left ↦
        cc
          (e, kept-full (drop_blank (lines_of raw)) (drop_blank-FirstFull (lines_of raw)) some_left)
  ],
  λ blank. rw (drop_blank-blank (lines_of raw) blank) (unfold drop_blank_end join in refl),
)

accepted_only :
    (raw : GoString) (input : TaskInput)
    → normalize_manual_input raw ≡ ok input
    → (length raw ≤ max_manual_input_size)
      × (utf8_valid raw ≡ true)
      × (contains_byte 0 raw ≡ false)
      × ¬ AllBlank (lines_of raw)
accepted_only raw input h =
    let (u, n, e, l, eq) = accepted raw input h in
    (
      unfold normalize_manual_input in ground arith,
      u,
      n,
      λ blank. cc (e, (empty-iff-AllBlank raw).1 blank),
    )

accepts :
    (raw : GoString)
    → length raw ≤ max_manual_input_size
    → utf8_valid raw ≡ true
    → contains_byte 0 raw ≡ false
    → is_empty (instructions_of raw) ≡ false
    → normalize_manual_input raw
      ≡ ok (record {
        version = pos 1;
        source = task_source_manual;
        instructions = instructions_of raw;
      })
unfolding normalize_manual_input
accepts raw l u n e = ground (arith, length-instructions_of raw)

-- A text is accepted exactly when it has at most 1 MiB, is valid UTF-8 without NUL, and has a line
-- that is not blank after every CR LF and CR is made a line feed.
pub normalize_manual_input-accepts_iff :
    (raw : GoString)
    → ((input : TaskInput) × (normalize_manual_input raw ≡ ok input)) ↔ (
        (length raw ≤ max_manual_input_size)
        × (utf8_valid raw ≡ true)
        × (contains_byte 0 raw ≡ false)
        × ¬ AllBlank (lines_of raw))
normalize_manual_input-accepts_iff raw = (
  λ ok_input. accepted_only raw ok_input.0 ok_input.1,
  λ (l, u, n, some_line). (
    record { version = pos 1; source = task_source_manual; instructions = instructions_of raw },
    accepts raw l u n (elim (Bool-cases (is_empty (instructions_of raw))) [
      | inl e ↦ absurd (some_line ((empty-iff-AllBlank raw).0 e))
      | inr e ↦ e
    ]),
  ),
)
