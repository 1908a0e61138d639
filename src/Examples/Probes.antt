-- ===== src/Examples/Probes.antt =====
-- The diagnoses of Docker and OMP, at outputs of their commands.
use delegatd.Prelude.{
  ◌≡◌, refl, ap, sym, ◌∙◌, arith, ℕ, ◌<◌, Bool, true, false, [], ◌∷◌, ◌++◌, GoString, codes, concat,
  append_assoc, take, length, contains_byte, ltb, eqb, none, some, Result, ok, plain, pos,
  if◌then◌else◌, ◌↔◌, Bool-cases, inl, inr,
}
use delegatd.Docker.{
  max_version_output_size, empty_buffer, copy_output, RawRead, raw, nothing_left, JsonText, Command,
  probe,
}
use delegatd.Docker.Output.{copy_output-take}
use delegatd.Docker.Passes.{Reports, passing, probe-passes_iff}
use delegatd.Omp.{
  max_ready_frame_size, SliceEnd, at_newline, buffer_full, stopped, LineReader, IsLineReader,
  read_ready_frame, FrameText, Process, frame_fuel, Diagnosis,
}
use delegatd.Omp as Omp
use delegatd.Domain.Snapshot.{trim_newline-append}
use delegatd.Omp.Frame.{read_ready_frame-returns, read_ready_frame-first_line}
use delegatd.Omp.Passes.{IsReady, probe-passes_iff_IsReady}

-- the text before a byte, whether the byte is there, and the text after it
unfoldable cut : ℕ → GoString → (GoString × Bool) × GoString
cut c [] = (([], false), [])
cut c (b ∷ s) =
    let ((front, found), back) = cut c s in
    if eqb b c then (([], true), s) else ((b ∷ front, found), back)

abbrev word : GoString → RawRead
word [] = nothing_left
word (b ∷ s) = raw (cut 32 (b ∷ s)).0.0 (cut 32 (b ∷ s)).1

unfoldable unquote : GoString → GoString
unquote [] = []
unquote (b ∷ s) = (cut b'"' s).0.0

-- words between spaces
abbrev words : JsonText
words = record { decode_raw = word; decode_any = word; unmarshal = λ s. ok (unquote s) }

abbrev command : Command
command = record {
  look_path = ok (codes "/usr/bin/docker");
  output = codes "\"27.1\" " ∷ codes "\"linux\"" ∷ [];
  run = none;
}

copy_output-take_example :
    ((copy_output command.output empty_buffer).bytes
      ≡ take max_version_output_size (concat command.output))
    × ((copy_output command.output empty_buffer).too_large
        ≡ ltb max_version_output_size (length (concat command.output)))
copy_output-take_example = copy_output-take command.output ((λ e. cc), ((λ e. cc), tt))

probe-passes_iff_example : (probe words command ≡ (codes "Docker server 27.1 (linux)", none)) ↔ (
    (version : GoString) × Reports words command version
    × (passing version ≡ (codes "Docker server 27.1 (linux)", none)))
probe-passes_iff_example =
    probe-passes_iff words command (codes "Docker server 27.1 (linux)") ((λ e. cc), ((λ e. cc), tt))

-- A reader whose buffer holds all of the text.

abbrev slice_of : (GoString × Bool) × GoString → (GoString × SliceEnd) × GoString
slice_of ((front, true), back) = ((front ++ 10 ∷ [], at_newline), back)
slice_of ((front, false), back) = ((front, stopped (plain (codes "EOF"))), back)

abbrev whole_text : LineReader
whole_text = record { Reader = GoString; read_slice = λ s. slice_of (cut 10 s) }

cut_there :
    (c : ℕ) (s : GoString)
    → (cut c s).0.1 ≡ true
    → (contains_byte c (cut c s).0.0 ≡ false) × (s ≡ (cut c s).0.0 ++ c ∷ (cut c s).1)
unfolding cut contains_byte
cut_there c [] h = cc
cut_there c (b ∷ s) h = elim (Bool-cases (eqb b c)) [
  | inl e ↦ let same : b ≡ c = ground arith in rw e (refl, ap (λ x. x ∷ s) same)
  | inr e ↦
      let (clean, rest) = cut_there c s (rw e at h) in rw e (ground arith, ap (λ r. b ∷ r) rest)
]

slice_of-at_newline :
    (x : (GoString × Bool) × GoString)
    → (slice_of x).0.1 ≡ at_newline
    → (x.0.1 ≡ true) × ((slice_of x).0.0 ≡ x.0.0 ++ 10 ∷ []) × ((slice_of x).1 ≡ x.1)
slice_of-at_newline ((front, true), back) h = (refl, refl, refl)
slice_of-at_newline ((front, false), back) h = cc

slice_of-full : {A : Type 0} (x : (GoString × Bool) × GoString) → (slice_of x).0.1 ≡ buffer_full → A
slice_of-full ((front, true), back) h = cc
slice_of-full ((front, false), back) h = cc

whole_text-line :
    (s : GoString)
    → (slice_of (cut 10 s)).0.1 ≡ at_newline
    → (front : GoString) × ((slice_of (cut 10 s)).0.0 ≡ front ++ 10 ∷ [])
      × (contains_byte 10 front ≡ false)
      × (s ≡ (slice_of (cut 10 s)).0.0 ++ (slice_of (cut 10 s)).1)
whole_text-line s h =
    let (there, same_front, same_back) = slice_of-at_newline (cut 10 s) h in
    let (clean, all) = cut_there 10 s there in
    (
      (cut 10 s).0.0,
      same_front,
      clean,
      all
          ∙ sym (append_assoc (cut 10 s).0.0 (10 ∷ []) (cut 10 s).1)
          ∙ ap (λ f. f ++ (cut 10 s).1) (sym same_front)
          ∙ ap (λ r. (slice_of (cut 10 s)).0.0 ++ r) (sym same_back),
    )

whole_text-IsLineReader : IsLineReader whole_text
whole_text-IsLineReader = record {
  unread = λ s. s;
  line = whole_text-line;
  full = λ s h. slice_of-full (cut 10 s) h;
}

-- the frame of a runtime that is ready, and more after it
abbrev printed : GoString
printed = codes "ready 1" ++ 10 ∷ codes "more"

ready_line : read_ready_frame whole_text 2 [] printed ≡ some (ok (codes "ready 1"), codes "more")
unfolding read_ready_frame cut
ready_line = ap (λ s. some (ok s, codes "more")) (trim_newline-append (codes "ready 1"))

read_ready_frame-first_line_example :
    (contains_byte 10 (codes "ready 1") ≡ false)
    × (length (codes "ready 1") < max_ready_frame_size)
    × (whole_text-IsLineReader.unread printed
        ≡ codes "ready 1" ++ 10 ∷ whole_text-IsLineReader.unread (codes "more"))
read_ready_frame-first_line_example =
    read_ready_frame-first_line whole_text whole_text-IsLineReader 2 printed (codes "ready 1")
      (codes "more") ready_line

read_ready_frame-returns_example :
    (out : Result GoString × GoString) × (read_ready_frame whole_text frame_fuel [] printed
      ≡ some out)
read_ready_frame-returns_example =
    read_ready_frame-returns whole_text whole_text-IsLineReader frame_fuel printed (omega arith)

abbrev frames : FrameText
frames = record { unmarshal = λ s. ok ((cut 32 s).0.0, some (pos (length (cut 32 s).1))) }

abbrev process : Process whole_text
process = record {
  look_path = ok (codes "/usr/bin/omp");
  pipe = none;
  stdin_pipe = none;
  start = none;
  stdout = printed;
  close_stdin = none;
  wait = none;
}

probe-passes_iff_IsReady_example :
    (d : Diagnosis) × (Omp.probe frames whole_text process ≡ some d)
    × ((d.1 ≡ none) ↔ IsReady frames whole_text whole_text-IsLineReader process)
probe-passes_iff_IsReady_example =
    probe-passes_iff_IsReady frames whole_text process whole_text-IsLineReader
