-- ===== src/Docker.antt =====
-- internal/workspace/docker/doctor.go: the diagnosis of the Docker daemon. What os/exec and
-- encoding/json answer are arguments.
pub mod Output
pub mod Passes
use delegatd.Prelude.{
  ◌≡◌, refl, ℕ, zero, suc, ◌-◌, Bool, true, false, ◌&&◌, ◌||◌, not, List, [], ◌∷◌, ◌++◌, GoString,
  codes, ◌==◌, Option, none, some, Result, ok, err, GoError, plain, sentinel, output_too_large,
  ◌>>=◌, ◌>>◌, if◌then◌else◌, ltb, leb, eqb, length, take, all, in_range, is_some,
}
use delegatd.Memory.{guard}
use delegatd.Doctor.{Check, Failure}

abbrev pub max_version_output_size : ℕ
max_version_output_size = 65536

abbrev pub is_version_byte : ℕ → Bool
is_version_byte b =
    in_range b'A' b'Z' b
    || in_range b'a' b'z' b
    || in_range b'0' b'9' b
    || eqb b b'.'
    || eqb b b'+'
    || eqb b b'_'
    || eqb b b'-'

-- `dockerVersionPattern`, which is anchored at both ends
abbrev pub is_docker_version : GoString → Bool
is_docker_version v = leb 1 (length v) && leb (length v) 64 && all is_version_byte v

-- `limitedBuffer`; `cancelled` tells whether `onLimit`, which the probe sets, was called.
pub record LimitedBuffer : Type 0 where
  pub bytes : GoString
  pub too_large : Bool
  pub cancelled : Bool

abbrev pub empty_buffer : LimitedBuffer
empty_buffer = record { bytes = []; too_large = false; cancelled = false }

abbrev pub overflowed : GoString → LimitedBuffer
overflowed kept = record { bytes = kept; too_large = true; cancelled = true }

-- `Write`: the count and the error, and the buffer after the call
unfoldable pub write : LimitedBuffer → GoString → (ℕ × Option GoError) × LimitedBuffer
write b p =
    let remaining = max_version_output_size - length b.bytes in
    if leb max_version_output_size (length b.bytes)
    then ((0, some (sentinel output_too_large)), overflowed b.bytes)
    else if ltb remaining (length p)
    then ((remaining, some (sentinel output_too_large)), overflowed (b.bytes ++ take remaining p))
    else ((length p, none), record b { bytes = b.bytes ++ p })

-- What os/exec does with the output of the command: it writes the parts, until a write fails.
unfoldable pub copy_output : List GoString → LimitedBuffer → LimitedBuffer
copy_output [] b = b
copy_output (p ∷ ps) b =
    let (answer, after) = write b p in
    let rest = copy_output ps after in if is_some answer.1 then after else rest

-- What a call of `Decode` into a raw message finds: the bytes of a value, and what is left.
pub data RawRead : Type 0 where
  raw : GoString → GoString → RawRead
  nothing_left : RawRead
  not_json : GoError → RawRead

-- `encoding/json`: `Decode` into a raw message and into `any`, and `Unmarshal` into a string.
pub record JsonText : Type 0 where
  pub decode_raw : GoString → RawRead
  pub decode_any : GoString → RawRead
  pub unmarshal : GoString → Result GoString

abbrev pub raw_value : RawRead → Result (GoString × GoString)
raw_value (raw bytes rest) = ok (bytes, rest)
raw_value nothing_left = err (plain (codes "EOF"))
raw_value (not_json e) = err e

abbrev starts_string : GoString → Bool
starts_string [] = false
starts_string (b ∷ s) = eqb b b'"'

unfoldable pub decode_json_string : JsonText → GoString → Result GoString
decode_json_string json bytes = do
  guard (starts_string bytes) (plain (codes "JSON value is not a string"))
  json.unmarshal bytes

abbrev pub at_eof : RawRead → Result (Unit {0})
at_eof (raw bytes rest) = err (plain (codes "extra JSON value"))
at_eof nothing_left = ok tt
at_eof (not_json e) = err e

unfoldable pub decode_version_output : JsonText → GoString → Result (GoString × GoString)
decode_version_output json bytes = do
  first ← raw_value (json.decode_raw bytes)
  second ← raw_value (json.decode_raw first.1)
  version ← decode_json_string json first.0
  operating_system ← decode_json_string json second.0
  at_eof (json.decode_any second.1)
  ok (version, operating_system)

-- What os/exec answers: the path of the executable, the output of the command in parts, and the
-- error of `Run`.
pub record Command : Type 0 where
  pub look_path : Result GoString
  pub output : List GoString
  pub run : Option GoError

abbrev pub Diagnosis : Type 0
Diagnosis = GoString × Option Failure

abbrev pub failed : GoString → Diagnosis
failed reason = ([], some (record { reason = reason }))

abbrev pub bad_response : Diagnosis
bad_response = failed (codes "Docker version response is invalid")

unfoldable pub described : Result (GoString × GoString) → Diagnosis
described (err e) = bad_response
described (ok (version, operating_system)) =
    if not (operating_system == codes "linux")
    then failed (codes "Docker server OS is not linux")
    else if not (is_docker_version version)
    then bad_response
    else (codes "Docker server " ++ version ++ codes " (linux)", none)

unfoldable pub answered : JsonText → GoString → Option GoError → Diagnosis
answered json bytes (some e) = failed (codes "Docker daemon is unavailable")
answered json bytes none = described (decode_version_output json bytes)

unfoldable pub ran : JsonText → Command → LimitedBuffer → Diagnosis
ran json command b = if b.too_large then bad_response else answered json b.bytes command.run

unfoldable pub started : JsonText → Command → Result GoString → Diagnosis
started json command (err e) = failed (codes "docker executable was not found")
started json command (ok path) = ran json command (copy_output command.output empty_buffer)

unfoldable pub probe : JsonText → Command → Diagnosis
probe json command = started json command command.look_path

-- `NewDoctorCheck`
abbrev pub new_doctor_check : JsonText → Command → GoString → Check
new_doctor_check json command name = record {
  id = codes "workspace_provider." ++ name;
  probe = some (probe json command);
}
