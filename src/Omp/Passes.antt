-- ===== src/Omp/Passes.antt =====
-- The diagnosis of the OMP runtime always answers, and when it passes.
use delegatd.Prelude.{
  ◌≡◌, refl, ap, sym, ◌∙◌, arith, ◌∷◌, ◌++◌, ◌==◌, eq_iff, contains_byte, ℤ, pos, int_eq_of_eqb,
  ok_injective, >>=-eq-ok, Bool, true, false, [], GoString, codes, Option, none, some,
  some_injective, Bool-cases, inl, inr, Result, ok, err, GoError, ◌↔◌,
}
use delegatd.Omp.{
  LineReader, IsLineReader, read_ready_frame, FrameText, ready_frame, is_protocol_unavailable,
  Process, Diagnosis, failed, frame_fuel, protocol_one, waited, shut_down, advertised, framed, read,
  unless_failed, found, probe, Reading,
}
use delegatd.Omp.Frame.{read_ready_frame-returns, read_ready_frame-first_line}

abbrev pub passing : Diagnosis
passing = (codes "OMP RPC protocol 1", none)

-- The steps that the runtime has to go through: its executable is found, its pipes are made, it
-- starts, the first line of its output is read and decodes to the type "ready" and the protocol 1, its
-- input is closed, and it ends without an error.
pub record IsReady (json : FrameText) (lines : LineReader) (laws : IsLineReader lines)
    (process : Process lines) : Type 0 where
  pub executable : (path : GoString) × (process.look_path ≡ ok path)
  pub pipe : process.pipe ≡ none
  pub stdin_pipe : process.stdin_pipe ≡ none
  pub start : process.start ≡ none
  pub frame :
      (bytes : GoString) × (r : lines.Reader) × (read_ready_frame lines frame_fuel [] process.stdout
        ≡ some (ok bytes, r))
      × (contains_byte 10 bytes ≡ false)
      × (laws.unread process.stdout ≡ bytes ++ 10 ∷ laws.unread r)
      × (json.unmarshal bytes ≡ ok (codes "ready", some (pos 1)))
  pub close_stdin : process.close_stdin ≡ none
  pub wait : process.wait ≡ none

-- A frame that advertises protocol 1 is just that.
protocol_one-one : (o : Option ℤ) → protocol_one o ≡ ok true → o ≡ some (pos 1)
protocol_one-one none h = cc
protocol_one-one (some version) h = ap some (int_eq_of_eqb version (pos 1) (ok_injective h))

ready_frame-one :
    (json : FrameText) (bytes : GoString)
    → ready_frame json bytes ≡ ok true
    → json.unmarshal bytes ≡ ok (codes "ready", some (pos 1))
unfolding ready_frame
ready_frame-one json bytes h =
    let ((kind, protocol), decoded, k) = >>=-eq-ok (json.unmarshal bytes) _ h in
    elim (Bool-cases (kind == codes "ready")) [
      | inl e ↦
          decoded
          ∙ ap (λ (f : GoString × Option ℤ). ok f)
              (cc ((eq_iff kind (codes "ready")).0 e, protocol_one-one protocol (rw e at k)))
      | inr e ↦ cc (rw e at k)
    ]

one-ready_frame :
    (json : FrameText) (bytes : GoString)
    → json.unmarshal bytes ≡ ok (codes "ready", some (pos 1))
    → ready_frame json bytes ≡ ok true
unfolding ready_frame ◌==◌
one-ready_frame json bytes h = rw h refl

module _ (json : FrameText) (lines : LineReader) (process : Process lines) where
  -- a diagnosis that fails has a failure
  failing {ℓ} : {A : Type ℓ} (reason : GoString) → (failed reason).1 ≡ none → A
  failing reason h = cc

  failing_in {ℓ} :
      {A : Type ℓ} (reason : GoString) {d : Diagnosis}
      → some (failed reason) ≡ some d
      → d.1 ≡ none
      → A
  failing_in reason h p = failing reason (ap (λ (o : Diagnosis). o.1) (some_injective h) ∙ p)

  answers :
      (reading : Reading lines) {out : Result GoString × lines.Reader}
      → reading ≡ some out
      → (d : Diagnosis) × (read json lines process reading ≡ some d)
  answers (some (result, r)) h = (framed json lines process result, refl)
  answers none h = cc

  tried :
      (o : Option GoError) (next : Option Diagnosis)
      → (d : Diagnosis) × (next ≡ some d)
      → (d : Diagnosis) × (unless_failed json lines process o next ≡ some d)
  tried none next h = h
  tried (some e) next h = (_, refl)

  looked_up :
      (o : Result GoString) (next : Option Diagnosis)
      → (d : Diagnosis) × (next ≡ some d)
      → (d : Diagnosis) × (found json lines process o next ≡ some d)
  looked_up (ok path) next h = h
  looked_up (err e) next h = (_, refl)

  probe-answers : IsLineReader lines → (d : Diagnosis) × (probe json lines process ≡ some d)
  unfolding probe
  probe-answers laws =
      let (out, h) = read_ready_frame-returns lines laws frame_fuel process.stdout (omega arith) in
      looked_up process.look_path _ (
        tried process.pipe _ (
          tried process.stdin_pipe _ (
            tried process.start _
              (answers (read_ready_frame lines frame_fuel [] process.stdout) h))))

  waited-passing : (o : Option GoError) → (waited json lines process o).1 ≡ none → o ≡ none
  unfolding waited
  waited-passing none h = refl
  waited-passing (some e) h = failing _ h

  shut_down-passing :
      (o : Option GoError)
      → (shut_down json lines process o).1 ≡ none
      → (o ≡ none) × ((waited json lines process process.wait).1 ≡ none)
  unfolding shut_down
  shut_down-passing none h = (refl, h)
  shut_down-passing (some e) h = failing _ h

  advertised-passing :
      (r : Result Bool)
      → (advertised json lines process r).1 ≡ none
      → (r ≡ ok true) × (process.close_stdin ≡ none) × (process.wait ≡ none)
  unfolding advertised
  advertised-passing (err e) h = elim (Bool-cases (is_protocol_unavailable e)) [
    | inl p ↦ failing _ (rw p at h)
    | inr p ↦ failing _ (rw p at h)
  ]
  advertised-passing (ok false) h = failing _ h
  advertised-passing (ok true) h =
      let (closed, h1) = shut_down-passing process.close_stdin h in
      (refl, closed, waited-passing process.wait h1)

  unless_failed-passing :
      (o : Option GoError) (next : Option Diagnosis) {d : Diagnosis}
      → unless_failed json lines process o next ≡ some d
      → d.1 ≡ none
      → (o ≡ none) × (next ≡ some d)
  unless_failed-passing none next h p = (refl, h)
  unless_failed-passing (some e) next h p = failing_in _ h p

  found-passing :
      (o : Result GoString) (next : Option Diagnosis) {d : Diagnosis}
      → found json lines process o next ≡ some d
      → d.1 ≡ none
      → ((path : GoString) × (o ≡ ok path)) × (next ≡ some d)
  found-passing (ok path) next h p = ((path, refl), h)
  found-passing (err e) next h p = failing_in _ h p

  read-passing :
      (reading : Reading lines) {d : Diagnosis}
      → read json lines process reading ≡ some d
      → d.1 ≡ none
      → (bytes : GoString) × (r : lines.Reader) × (reading ≡ some (ok bytes, r))
        × ((advertised json lines process (ready_frame json bytes)).1 ≡ none)
  unfolding framed
  read-passing none h p = cc
  read-passing (some (err e, r)) h p = failing_in _ h p
  read-passing (some (ok bytes, r)) h p =
      (bytes, r, refl, ap (λ (o : Diagnosis). o.1) (some_injective h) ∙ p)

  module _ (laws : IsLineReader lines) where
    passing-IsReady :
        (d : Diagnosis)
        → probe json lines process ≡ some d
        → d.1 ≡ none
        → IsReady json lines laws process
    unfolding probe
    passing-IsReady d h p =
        let (executable, h1) = found-passing process.look_path _ h p in
        let (pipe, h2) = unless_failed-passing process.pipe _ h1 p in
        let (stdin_pipe, h3) = unless_failed-passing process.stdin_pipe _ h2 p in
        let (start, h4) = unless_failed-passing process.start _ h3 p in
        let (bytes, r, reading, h5) =
          read-passing (read_ready_frame lines frame_fuel [] process.stdout) h4 p in
        let (ready, close_stdin, wait) = advertised-passing (ready_frame json bytes) h5 in
        let (one_line, short, all) =
          read_ready_frame-first_line lines laws frame_fuel process.stdout bytes r reading in
        record {
          executable = executable;
          pipe = pipe;
          stdin_pipe = stdin_pipe;
          start = start;
          frame = (bytes, r, reading, one_line, all, ready_frame-one json bytes ready);
          close_stdin = close_stdin;
          wait = wait;
        }

    IsReady-passing : IsReady json lines laws process → probe json lines process ≡ some passing
    unfolding probe framed advertised shut_down waited
    IsReady-passing ready =
        let (path, executable) = ready.executable in
        let (bytes, r, reading, one_line, all, decoded) = ready.frame in
        let advertises = one-ready_frame json bytes decoded in
        rw executable (
          rw ready.pipe (
            rw ready.stdin_pipe
              (rw ready.start (rw reading (rw advertises (rw ready.close_stdin (rw ready.wait)))))))

    -- The probe answers, and it reports no failure exactly when the executable is found, its pipes
    -- are made, it starts, the first line of its output is read and decodes to the type "ready" and
    -- the protocol 1, its input is closed, and it ends without an error; for any reader that keeps to
    -- `IsLineReader`.
    pub probe-passes_iff_IsReady :
        (d : Diagnosis) × (probe json lines process ≡ some d)
        × ((d.1 ≡ none) ↔ IsReady json lines laws process)
    probe-passes_iff_IsReady =
        let (d, h) = probe-answers laws in
        (
          d,
          h,
          (
            λ p. passing-IsReady d h p,
            λ ready. ap (λ (o : Diagnosis). o.1) (some_injective (sym h ∙ IsReady-passing ready)),
          ),
        )
