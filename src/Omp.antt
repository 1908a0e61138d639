-- ===== src/Omp.antt =====
-- internal/runtime/omp/doctor.go: the diagnosis of the OMP runtime. What os/exec, bufio and
-- encoding/json answer are arguments.
pub mod Frame
pub mod Passes
use delegatd.Prelude.{
  ◌≡◌, ◌≢◌, refl, ℕ, zero, suc, ◌+◌, Bool, true, false, ◌&&◌, not, List, [], ◌∷◌, ◌++◌, GoString,
  codes, ◌==◌, is_empty, contains_byte, Option, none, some, ℤ, pos, int_eqb, Result, ok, err,
  GoError, plain, sentinel, typed, wrapped, frame_too_large, protocol_unavailable, ◌>>=◌,
  if◌then◌else◌, ltb, length,
}
use delegatd.Domain.Snapshot.{trim_newline}
use delegatd.Doctor.{Check, Failure}

abbrev pub max_ready_frame_size : ℕ
max_ready_frame_size = 1048576

-- How a call of `ReadSlice` ended: with the delimiter, with a full buffer, or with another error.
pub data SliceEnd : Type 0 where
  at_newline buffer_full : SliceEnd
  stopped : GoError → SliceEnd

-- `bufio.Reader`, with `ReadSlice` at a line feed
pub record LineReader : Type 1 where
  pub Reader : Type 0
  pub read_slice : Reader → (GoString × SliceEnd) × Reader

-- `unread` is what the reader has yet to give. A slice that ends with the delimiter holds it once; a
-- full buffer holds bytes, and no delimiter.
pub record IsLineReader (lines : LineReader) : Type 0 where
  pub unread : lines.Reader → GoString
  pub line :
      (r : lines.Reader)
      → (lines.read_slice r).0.1 ≡ at_newline
      → (front : GoString) × ((lines.read_slice r).0.0 ≡ front ++ 10 ∷ [])
        × (contains_byte 10 front ≡ false)
        × (unread r ≡ (lines.read_slice r).0.0 ++ unread (lines.read_slice r).1)
  pub full :
      (r : lines.Reader)
      → (lines.read_slice r).0.1 ≡ buffer_full
      → ((lines.read_slice r).0.0 ≢ [])
        × (contains_byte 10 (lines.read_slice r).0.0 ≡ false)
        × (unread r ≡ (lines.read_slice r).0.0 ++ unread (lines.read_slice r).1)

module _ (lines : LineReader) where
  abbrev pub Reading : Type 0
  Reading = Option (Result GoString × lines.Reader)

  -- After a slice that fits: `next` is what the loop does if it goes on.
  abbrev pub ended : SliceEnd → GoString → lines.Reader → Reading → Reading
  ended at_newline frame r next = some (ok (trim_newline frame), r)
  ended buffer_full frame r next = next
  ended (stopped e) frame r next = some (err e, r)

  -- The loop of `readReadyFrame`, with the frame so far; `none` when the fuel is used up.
  unfoldable pub read_ready_frame : ℕ → GoString → lines.Reader → Reading
  read_ready_frame zero frame r = none
  read_ready_frame (suc fuel) frame r =
      let (slice, r') = lines.read_slice r in
      let next = read_ready_frame fuel (frame ++ slice.0) r' in
      if not (is_empty slice.0) && ltb max_ready_frame_size (length frame + length slice.0)
      then some (err (sentinel frame_too_large), r')
      else ended slice.1 (frame ++ slice.0) r' next

-- The fields of the frame that `json.Unmarshal` fills.
pub record FrameText : Type 0 where
  pub unmarshal : GoString → Result (GoString × Option ℤ)

abbrev pub protocol_one : Option ℤ → Result Bool
protocol_one none = err (sentinel protocol_unavailable)
protocol_one (some version) = ok (int_eqb version (pos 1))

unfoldable pub ready_frame : FrameText → GoString → Result Bool
ready_frame json bytes = do
  frame ← json.unmarshal bytes
  (if not (frame.0 == codes "ready")
      then err (plain (codes "ready frame was not advertised"))
      else protocol_one frame.1)

-- `errors.Is(err, errProtocolUnavailable)`
unfoldable pub is_protocol_unavailable : GoError → Bool
is_protocol_unavailable (sentinel protocol_unavailable) = true
is_protocol_unavailable (sentinel s) = false
is_protocol_unavailable (plain text) = false
is_protocol_unavailable (typed t reason) = false
is_protocol_unavailable (wrapped t reason cause) = is_protocol_unavailable cause

-- What the operating system answers: the path of the executable, the errors of opening the pipes,
-- starting the process and closing its input, what its output reads as, and the error of `Wait`
-- after its input was closed.
pub record Process (lines : LineReader) : Type 0 where
  pub look_path : Result GoString
  pub pipe : Option GoError
  pub stdin_pipe : Option GoError
  pub start : Option GoError
  pub stdout : lines.Reader
  pub close_stdin : Option GoError
  pub wait : Option GoError

abbrev pub Diagnosis : Type 0
Diagnosis = GoString × Option Failure

abbrev pub failed : GoString → Diagnosis
failed reason = ([], some (record { reason = reason }))

abbrev pub not_ready : GoString
not_ready = codes "OMP RPC did not become ready"

abbrev pub no_protocol : GoString
no_protocol = codes "OMP RPC protocol 1 is unavailable"

abbrev pub unclean : GoString
unclean = codes "OMP RPC did not shut down cleanly"

-- The fuel of the loop: one more than the bytes that a frame may have.
abbrev pub frame_fuel : ℕ
frame_fuel = 1048577

module _ (json : FrameText) (lines : LineReader) (process : Process lines) where
  unfoldable pub waited : Option GoError → Diagnosis
  waited none = (codes "OMP RPC protocol 1", none)
  waited (some e) = failed unclean

  unfoldable pub shut_down : Option GoError → Diagnosis
  shut_down none = waited process.wait
  shut_down (some e) = failed unclean

  unfoldable pub advertised : Result Bool → Diagnosis
  advertised (err e) = if is_protocol_unavailable e then failed no_protocol else failed not_ready
  advertised (ok ready) = if not ready then failed no_protocol else shut_down process.close_stdin

  unfoldable pub framed : Result GoString → Diagnosis
  framed (err e) = failed not_ready
  framed (ok frame) = advertised (ready_frame json frame)

  abbrev pub read : Reading lines → Option Diagnosis
  read none = none
  read (some (result, r)) = some (framed result)

  abbrev pub unless_failed : Option GoError → Option Diagnosis → Option Diagnosis
  unless_failed none next = next
  unless_failed (some e) next = some (failed not_ready)

  abbrev pub found : Result GoString → Option Diagnosis → Option Diagnosis
  found (ok path) next = next
  found (err e) next = some (failed (codes "omp executable was not found"))

  -- `probe`; `none` if the loop used up its fuel.
  unfoldable pub probe : Option Diagnosis
  probe = found process.look_path (
      unless_failed process.pipe (
        unless_failed process.stdin_pipe (
          unless_failed process.start
            (read (read_ready_frame lines frame_fuel [] process.stdout)))))
