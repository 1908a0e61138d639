-- ===== src/Domain/Input/Lines.antt =====
-- What the steps of `NormalizeManualInput` do to a text and to its lines.
use delegatd.Prelude.{
  ℕ, ◌<◌, ◌≡◌, refl, ap, sym, ◌∙◌, inl, inr, true, false, ◌&&◌, ◌||◌, some, List, [], ◌∷◌, ◌++◌,
  arith, GoString, All, eqb, Bool-cases, split, cons_first, join, contains_byte,
}
use delegatd.Domain.Utf8.{
  Pending, IsOwed, next, next-IsOwed, completes, completes-cons, completes-ascii,
  completes-cons_ascii, utf8_valid,
}
use delegatd.Domain.Input.{
  replace_crlf, replace_cr, is_blank, drop_blank, keep_line, drop_blank_end,
}

-- The replacements leave a text with no carriage return as it is.
pub replace_crlf-lacks : (s : GoString) → contains_byte 13 s ≡ false → replace_crlf s ≡ s
unfolding replace_crlf contains_byte
replace_crlf-lacks [] h = refl
replace_crlf-lacks (a ∷ []) h = refl
replace_crlf-lacks (a ∷ b ∷ s) h = ground (arith, replace_crlf-lacks (b ∷ s))

pub replace_cr-lacks : (s : GoString) → contains_byte 13 s ≡ false → replace_cr s ≡ s
unfolding replace_cr contains_byte
replace_cr-lacks [] h = refl
replace_cr-lacks (a ∷ s) h = ground (arith, replace_cr-lacks s)

pub lacks-replace_cr : (s : GoString) → contains_byte 13 (replace_cr s) ≡ false
unfolding replace_cr contains_byte
lacks-replace_cr [] = refl
lacks-replace_cr (a ∷ s) = ground (arith, lacks-replace_cr s)

-- No step makes a NUL byte.
pub nul-replace_crlf :
    (s : GoString) → contains_byte 0 s ≡ false → contains_byte 0 (replace_crlf s) ≡ false
unfolding replace_crlf contains_byte
nul-replace_crlf [] h = refl
nul-replace_crlf (a ∷ []) h = h
nul-replace_crlf (a ∷ b ∷ s) h = ground (arith, nul-replace_crlf (b ∷ s), nul-replace_crlf s)

pub nul-replace_cr :
    (s : GoString) → contains_byte 0 s ≡ false → contains_byte 0 (replace_cr s) ≡ false
unfolding replace_cr contains_byte
nul-replace_cr [] h = refl
nul-replace_cr (a ∷ s) h = ground (arith, nul-replace_cr s)

-- A byte that stands in no text stands in none of its lines, nor in lines joined at another byte.
abbrev pub AllLack : ℕ → List GoString → Type 0
AllLack c = All (λ l. contains_byte c l ≡ false)

AllLack-cons_first :
    (c b : ℕ) (ls : List GoString) → eqb b c ≡ false → AllLack c ls → AllLack c (cons_first b ls)
unfolding cons_first contains_byte
AllLack-cons_first c b [] h a = ground arith
AllLack-cons_first c b (l ∷ ls) h a = ground arith

pub split-AllLack : (c : ℕ) (s : GoString) → contains_byte c s ≡ false → AllLack c (split 10 s)
unfolding split contains_byte
split-AllLack c [] h = (refl, tt)
split-AllLack c (b ∷ s) h =
    let rest = split-AllLack c s (ground arith) in
    elim (Bool-cases (eqb b 10)) [
      | inl e ↦ rw e (refl, rest)
      | inr e ↦ rw e (AllLack-cons_first c b (split 10 s) (ground arith) rest)
    ]

lacks-append :
    (c : ℕ) (s t : GoString) → contains_byte c (s ++ t) ≡ (contains_byte c s || contains_byte c t)
unfolding contains_byte
lacks-append c [] t = refl
lacks-append c (a ∷ s) t = ground (arith, lacks-append c s t)

lacks-newline :
    (c : ℕ) (s : GoString)
    → eqb 10 c ≡ false
    → contains_byte c s ≡ false
    → contains_byte c (10 ∷ s) ≡ false
unfolding contains_byte
lacks-newline c s e h = ground arith

pub join-lacks :
    (c : ℕ) (ls : List GoString)
    → eqb 10 c ≡ false
    → AllLack c ls
    → contains_byte c (join 10 ls) ≡ false
unfolding join
join-lacks c [] e h = unfold contains_byte in refl
join-lacks c (l ∷ []) e h = h.0
join-lacks c (l ∷ m ∷ ls) e h =
    lacks-append c l (10 ∷ join 10 (m ∷ ls))
    ∙ rw h.0 (lacks-newline c (join 10 (m ∷ ls)) e (join-lacks c (m ∷ ls) e h.1))

-- A line feed in place of an ASCII byte.
completes-newline :
    (p : Pending) (b : ℕ) (s t : GoString)
    → completes p (b ∷ s) ≡ true
    → b < 0x80
    → IsOwed p
    → (completes (some []) s ≡ true → completes (some []) t ≡ true)
    → completes p (10 ∷ t) ≡ true
completes-newline p b s t h small o keep =
    let (whole, more) = completes-ascii p b s small o h in
    rw whole (completes-cons_ascii 10 t (omega arith) ∙ keep more)

-- Valid UTF-8 stays valid.
completes-replace_crlf :
    (p : Pending) (s : GoString)
    → IsOwed p
    → completes p s ≡ true
    → completes p (replace_crlf s) ≡ true
unfolding replace_crlf
completes-replace_crlf p [] o h = h
completes-replace_crlf p (a ∷ []) o h = h
completes-replace_crlf p (a ∷ b ∷ s) o h =
    let pair = λ (k : completes (some []) (b ∷ s) ≡ true) (f : b < 0x80).
      completes-replace_crlf (some []) s tt (sym (completes-cons_ascii b s f) ∙ k) in
    let single =
      completes-replace_crlf (next p a) (b ∷ s) (next-IsOwed p a o)
        (sym (completes-cons p a (b ∷ s)) ∙ h) in
    elim (Bool-cases (eqb a 13 && eqb b 10)) [
      | inl e ↦ rw e (
          completes-newline p a (b ∷ s) (replace_crlf s) h (ground arith) o
            (λ k. pair k (ground arith)))
      | inr e ↦ rw e (completes-cons p a (replace_crlf (b ∷ s)) ∙ single)
    ]

completes-replace_cr :
    (p : Pending) (s : GoString)
    → IsOwed p
    → completes p s ≡ true
    → completes p (replace_cr s) ≡ true
unfolding replace_cr
completes-replace_cr p [] o h = h
completes-replace_cr p (a ∷ s) o h =
    let next_line = completes-replace_cr (some []) s tt in
    let single =
      completes-replace_cr (next p a) s (next-IsOwed p a o) (sym (completes-cons p a s) ∙ h) in
    elim (Bool-cases (eqb a 13)) [
      | inl e ↦ rw e (completes-newline p a s (replace_cr s) h (ground arith) o next_line)
      | inr e ↦ rw e (completes-cons p a (replace_cr s) ∙ single)
    ]

pub replace-utf8_valid :
    (s : GoString) → utf8_valid s ≡ true → utf8_valid (replace_cr (replace_crlf s)) ≡ true
unfolding utf8_valid
replace-utf8_valid s h =
    completes-replace_cr (some []) (replace_crlf s) tt (completes-replace_crlf (some []) s tt h)

-- The loops keep whatever all lines have.
pub All-drop_blank {ℓ} :
    (P : GoString → Type ℓ) (ls : List GoString) → All P ls → All P (drop_blank ls)
unfolding drop_blank
All-drop_blank P [] h = h
All-drop_blank P (l ∷ ls) h = elim (Bool-cases (is_blank l)) [
  | inl e ↦ rw e (All-drop_blank P ls h.1)
  | inr e ↦ rw e h
]

All-keep_line {ℓ} :
    (P : GoString → Type ℓ) (l : GoString) (ls : List GoString)
    → P l
    → All P ls
    → All P (keep_line l ls)
unfolding keep_line
All-keep_line P l [] p h = elim (Bool-cases (is_blank l)) [ inl e ↦ rw e tt | inr e ↦ rw e (p, tt) ]
All-keep_line P l (m ∷ ls) p h = (p, h)

pub All-drop_blank_end {ℓ} :
    (P : GoString → Type ℓ) (ls : List GoString) → All P ls → All P (drop_blank_end ls)
unfolding drop_blank_end
All-drop_blank_end P [] h = h
All-drop_blank_end P (l ∷ ls) h =
    All-keep_line P l (drop_blank_end ls) h.0 (All-drop_blank_end P ls h.1)

-- The first line is not blank, or there is none.
abbrev pub FirstFull : List GoString → Type 0
FirstFull [] = Unit
FirstFull (l ∷ ls) = is_blank l ≡ false

pub drop_blank-FirstFull : (ls : List GoString) → FirstFull (drop_blank ls)
unfolding drop_blank
drop_blank-FirstFull [] = tt
drop_blank-FirstFull (l ∷ ls) = elim (Bool-cases (is_blank l)) [
  | inl e ↦ rw e (drop_blank-FirstFull ls)
  | inr e ↦ rw e e
]

keep_line-FirstFull :
    (l : GoString) (ls : List GoString) → is_blank l ≡ false → FirstFull (keep_line l ls)
unfolding keep_line
keep_line-FirstFull l [] h = rw h h
keep_line-FirstFull l (m ∷ ls) h = h

pub drop_blank_end-FirstFull : (ls : List GoString) → FirstFull ls → FirstFull (drop_blank_end ls)
unfolding drop_blank_end
drop_blank_end-FirstFull [] h = tt
drop_blank_end-FirstFull (l ∷ ls) h = keep_line-FirstFull l (drop_blank_end ls) h

-- Lines that are trimmed stay as they are.
pub drop_blank-full : (ls : List GoString) → FirstFull ls → drop_blank ls ≡ ls
unfolding drop_blank
drop_blank-full [] h = refl
drop_blank-full (l ∷ ls) h = rw h

drop_blank_end-keep_line :
    (l : GoString) (ls : List GoString)
    → drop_blank_end ls ≡ ls
    → drop_blank_end (keep_line l ls) ≡ keep_line l ls
unfolding drop_blank_end keep_line
drop_blank_end-keep_line l [] h = ground arith
drop_blank_end-keep_line l (m ∷ ls) h = ap (keep_line l) h

pub drop_blank_end_twice :
    (ls : List GoString) → drop_blank_end (drop_blank_end ls) ≡ drop_blank_end ls
unfolding drop_blank_end
drop_blank_end_twice [] = refl
drop_blank_end_twice (l ∷ ls) =
    drop_blank_end-keep_line l (drop_blank_end ls) (drop_blank_end_twice ls)

-- The last line is not blank, or there is none.
abbrev pub LastFull : List GoString → Type 0
LastFull [] = Unit
LastFull (l ∷ []) = is_blank l ≡ false
LastFull (l ∷ m ∷ ls) = LastFull (m ∷ ls)

keep_line-LastFull : (l : GoString) (ls : List GoString) → LastFull ls → LastFull (keep_line l ls)
unfolding keep_line
keep_line-LastFull l [] h = elim (Bool-cases (is_blank l)) [ inl e ↦ rw e tt | inr e ↦ rw e e ]
keep_line-LastFull l (m ∷ ls) h = h

pub drop_blank_end-LastFull : (ls : List GoString) → LastFull (drop_blank_end ls)
unfolding drop_blank_end
drop_blank_end-LastFull [] = tt
drop_blank_end-LastFull (l ∷ ls) =
    keep_line-LastFull l (drop_blank_end ls) (drop_blank_end-LastFull ls)
