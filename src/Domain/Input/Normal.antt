-- ===== src/Domain/Input/Normal.antt =====
-- The normal form that `NormalizeManualInput` brings a text into.
use delegatd.Prelude.{
  ◌≤◌, ◌≡◌, refl, ap, sym, ◌∙◌, true, false, List, arith, GoString, All, split, join, contains_byte,
  split-join, split-lacks, length, is_empty, ok, pos,
}
use delegatd.Domain.Utf8.{utf8_valid}
use delegatd.Domain.Utf8.Lines.{split-AllValid, join-utf8_valid}
use delegatd.Domain.Input.{
  TaskInput, task_source_manual, max_manual_input_size, replace_crlf, replace_cr, drop_blank,
  drop_blank_end, instructions_of, normalize_manual_input,
}
use delegatd.Domain.Input.Lines.{
  replace_crlf-lacks, replace_cr-lacks, lacks-replace_cr, nul-replace_crlf, nul-replace_cr,
  split-AllLack, join-lacks, replace-utf8_valid, All-drop_blank, All-drop_blank_end, FirstFull,
  drop_blank-FirstFull, drop_blank_end-FirstFull, drop_blank-full, drop_blank_end_twice, LastFull,
  drop_blank_end-LastFull,
}

-- the lines that are kept
kept_lines : GoString → List GoString
kept_lines raw = drop_blank_end (drop_blank (split 10 (replace_cr (replace_crlf raw))))

module _ {ℓ} (P : GoString → Type ℓ) where
  kept_lines-All :
      (raw : GoString) → All P (split 10 (replace_cr (replace_crlf raw))) → All P (kept_lines raw)
  unfolding kept_lines
  kept_lines-All raw h =
      All-drop_blank_end P (drop_blank (split 10 (replace_cr (replace_crlf raw))))
        (All-drop_blank P (split 10 (replace_cr (replace_crlf raw))) h)

kept_lines-FirstFull : (raw : GoString) → FirstFull (kept_lines raw)
unfolding kept_lines
kept_lines-FirstFull raw =
    drop_blank_end-FirstFull (drop_blank (split 10 (replace_cr (replace_crlf raw))))
      (drop_blank-FirstFull (split 10 (replace_cr (replace_crlf raw))))

kept_lines-trimmed : (raw : GoString) → drop_blank_end (kept_lines raw) ≡ kept_lines raw
unfolding kept_lines
kept_lines-trimmed raw =
    drop_blank_end_twice (drop_blank (split 10 (replace_cr (replace_crlf raw))))

kept_lines-LastFull : (raw : GoString) → LastFull (kept_lines raw)
unfolding kept_lines
kept_lines-LastFull raw =
    drop_blank_end-LastFull (drop_blank (split 10 (replace_cr (replace_crlf raw))))

instructions_of-eq : (raw : GoString) → instructions_of raw ≡ join 10 (kept_lines raw)
unfolding instructions_of kept_lines
instructions_of-eq raw = refl

instructions_of-no_cr : (raw : GoString) → contains_byte 13 (instructions_of raw) ≡ false
instructions_of-no_cr raw = rw (instructions_of-eq raw) (
    join-lacks 13 (kept_lines raw) refl (
      kept_lines-All (λ l. contains_byte 13 l ≡ false) raw
        (split-AllLack 13 (replace_cr (replace_crlf raw)) (lacks-replace_cr (replace_crlf raw)))))

instructions_of-no_nul :
    (raw : GoString) → contains_byte 0 raw ≡ false → contains_byte 0 (instructions_of raw) ≡ false
instructions_of-no_nul raw h = rw (instructions_of-eq raw) (
    join-lacks 0 (kept_lines raw) refl (
      kept_lines-All (λ l. contains_byte 0 l ≡ false) raw
        (split-AllLack 0 (replace_cr (replace_crlf raw))
          (nul-replace_cr (replace_crlf raw) (nul-replace_crlf raw h)))))

instructions_of-utf8_valid :
    (raw : GoString) → utf8_valid raw ≡ true → utf8_valid (instructions_of raw) ≡ true
instructions_of-utf8_valid raw h = rw (instructions_of-eq raw) (
    join-utf8_valid (kept_lines raw) (
      kept_lines-All (λ l. utf8_valid l ≡ true) raw
        (split-AllValid (replace_cr (replace_crlf raw)) (replace-utf8_valid raw h))))

-- Unless nothing is left, the lines of the instructions are the lines that were kept.
split-instructions_of :
    (raw : GoString)
    → is_empty (instructions_of raw) ≡ false
    → split 10 (instructions_of raw) ≡ kept_lines raw
split-instructions_of raw h = rw (instructions_of-eq raw) (
    split-join 10 (kept_lines raw) (λ e. unfold join in cc (ap is_empty (instructions_of-eq raw)))
      (kept_lines-All (λ l. contains_byte 10 l ≡ false) raw
        (split-lacks 10 (replace_cr (replace_crlf raw)))))

instructions_of_twice :
    (raw : GoString)
    → is_empty (instructions_of raw) ≡ false
    → instructions_of (instructions_of raw) ≡ instructions_of raw
instructions_of_twice raw h =
    let cr = instructions_of-no_cr raw in
    let text = instructions_of raw in
    let same : kept_lines text ≡ kept_lines raw =
      unfold kept_lines in
      ap (λ s. drop_blank_end (drop_blank (split 10 (replace_cr s)))) (replace_crlf-lacks text cr)
      ∙ ap (λ s. drop_blank_end (drop_blank (split 10 s))) (replace_cr-lacks text cr)
      ∙ ap (λ ls. drop_blank_end (drop_blank ls)) (split-instructions_of raw h)
      ∙ ap drop_blank_end (drop_blank-full (kept_lines raw) (kept_lines-FirstFull raw))
      ∙ kept_lines-trimmed raw in
    instructions_of-eq text ∙ ap (join 10) same ∙ sym (instructions_of-eq raw)

-- What holds of every accepted input.
pub record IsNormal (input : TaskInput) : Type 0 where
  pub version_one : input.version ≡ pos 1
  pub manual : input.source ≡ task_source_manual
  pub non_empty : is_empty input.instructions ≡ false
  pub fits : length input.instructions ≤ max_manual_input_size
  pub encoded : utf8_valid input.instructions ≡ true
  pub no_nul : contains_byte 0 input.instructions ≡ false
  pub no_cr : contains_byte 13 input.instructions ≡ false
  pub first_full : FirstFull (split 10 input.instructions)
  pub last_full : LastFull (split 10 input.instructions)

-- What the tests of an accepted input have found.
pub accepted :
    (raw : GoString) (input : TaskInput)
    → normalize_manual_input raw ≡ ok input
    → (utf8_valid raw ≡ true)
      × (contains_byte 0 raw ≡ false)
      × (is_empty (instructions_of raw) ≡ false)
      × (length (instructions_of raw) ≤ max_manual_input_size)
      × (input ≡ record {
        version = pos 1;
        source = task_source_manual;
        instructions = instructions_of raw;
      })
unfolding normalize_manual_input
accepted raw input h = ground arith

-- An accepted input has version 1 and source "manual"; its instructions are valid UTF-8 of at most
-- 1 MiB, not empty, without NUL and carriage return, and neither their first nor their last line is
-- blank.
pub normalize_manual_input-IsNormal :
    (raw : GoString) (input : TaskInput) → normalize_manual_input raw ≡ ok input → IsNormal input
normalize_manual_input-IsNormal raw input h =
    let (u, n, e, l, eq) = accepted raw input h in
    let lines = split-instructions_of raw e in
    rw eq (record {
      version_one = refl;
      manual = refl;
      non_empty = e;
      fits = l;
      encoded = instructions_of-utf8_valid raw u;
      no_nul = instructions_of-no_nul raw n;
      no_cr = instructions_of-no_cr raw;
      first_full = rw lines (kept_lines-FirstFull raw);
      last_full = rw lines (kept_lines-LastFull raw);
    })

-- A text that passes the tests and that the steps leave as it is, is accepted as it is.
accepts_normal :
    (text : GoString)
    → length text ≤ max_manual_input_size
    → utf8_valid text ≡ true
    → contains_byte 0 text ≡ false
    → is_empty text ≡ false
    → instructions_of text ≡ text
    → normalize_manual_input text
      ≡ ok (record { version = pos 1; source = task_source_manual; instructions = text })
unfolding normalize_manual_input
accepts_normal text l u n e same = ground arith

-- Normalizing the instructions of an accepted input accepts them and gives the same input.
pub normalize_manual_input_twice :
    (raw : GoString) (input : TaskInput)
    → normalize_manual_input raw ≡ ok input
    → normalize_manual_input input.instructions ≡ ok input
normalize_manual_input_twice raw input h =
    let (u, n, e, l, eq) = accepted raw input h in
    rw eq (
      accepts_normal (instructions_of raw) l (instructions_of-utf8_valid raw u)
        (instructions_of-no_nul raw n) e (instructions_of_twice raw e))
