-- ===== src/Domain/Time.antt =====
-- The parts of `time.Time` that the program reads: the instant, and whether the location is UTC.
-- Monotonic clock readings are left out: `UTC` strips them, and no stored time has one.
use delegatd.Prelude.{Bool, true, false, ◌&&◌, ℤ, pos, int_eqb}

pub data Location : Type 0 where
  utc local : Location

-- The instant counts nanoseconds from January 1 of year 1, the zero time.
pub record Time : Type 0 where
  pub instant : ℤ
  pub location : Location

abbrev pub is_utc : Location → Bool
is_utc utc = true
is_utc local = false

abbrev pub same_location : Location → Location → Bool
same_location utc l = is_utc l
same_location local utc = false
same_location local local = true

-- `t.IsZero()`
abbrev pub is_zero : Time → Bool
is_zero t = int_eqb t.instant (pos 0)

-- `t.UTC()`
abbrev pub to_utc : Time → Time
to_utc t = record t { location = utc }

-- `t.Equal(u)`: the same instant
abbrev pub same_instant : Time → Time → Bool
same_instant t u = int_eqb t.instant u.instant

-- `t == u`: the same instant at the same location
abbrev pub same_time : Time → Time → Bool
same_time t u = int_eqb t.instant u.instant && same_location t.location u.location
