-- ===== src/Msg/Netrid/Clock.antt =====
-- What server/src/msg/netrid.rs uses of the time library (`lib_common::time`): its types and
-- operations, and the documented behaviour that the theorems on timestamps rely on.
use svc_telemetry.Base.{ℕ, suc, ◌+◌, ◌-◌, ◌*◌, ◌/◌, ◌%◌, ◌≤◌, ◌<◌, ◌≡◌, Option, some}
use svc_telemetry.Base.Int.{ℤ, pos, negsuc}

pub record Chrono : Type 1 where
  pub DateTime : Type 0
  pub Duration : Type 0
  pub with_minute : DateTime → ℕ → Option DateTime
  pub with_second : DateTime → ℕ → Option DateTime
  pub with_nanosecond : DateTime → ℕ → Option DateTime
  -- `a - b` of two times.
  pub since : DateTime → DateTime → Duration
  pub num_milliseconds : Duration → ℤ
  pub try_milliseconds : ℕ → Option Duration
  pub try_hours : ℕ → Option Duration
  pub plus : DateTime → Duration → DateTime
  pub minus : DateTime → Duration → DateTime

-- `(n / 100) as u16` of an i64: towards zero, then modulo 2^16.
abbrev pub tenths_u16 : ℤ → ℕ
tenths_u16 (pos n) = n / 100 % 65536
tenths_u16 (negsuc n) = (65536 - suc n / 100 % 65536) % 65536

-- Nanoseconds in a tenth of a second, a second, a minute and an hour.
abbrev pub tenth : ℕ
tenth = 100_000_000

abbrev pub second : ℕ
second = 1_000_000_000

abbrev pub minute : ℕ
minute = 60_000_000_000

abbrev pub hour : ℕ
hour = 3_600_000_000_000

-- The documented behaviour, for times from 1970 on: `nanos` counts the nanoseconds since then.
pub record IsClock (c : Chrono) : Type 0 where
  pub nanos : c.DateTime → ℕ
  pub with_minute-zero :
      (t : c.DateTime)
      → (u : c.DateTime) × (c.with_minute t 0 ≡ some u)
        × (nanos u + nanos t / minute % 60 * minute ≡ nanos t)
  pub with_second-zero :
      (t : c.DateTime)
      → (u : c.DateTime) × (c.with_second t 0 ≡ some u)
        × (nanos u + nanos t / second % 60 * second ≡ nanos t)
  pub with_nanosecond-zero :
      (t : c.DateTime)
      → (u : c.DateTime) × (c.with_nanosecond t 0 ≡ some u) × (nanos u + nanos t % second ≡ nanos t)
  pub num_milliseconds-since :
      (a b : c.DateTime)
      → nanos b ≤ nanos a
      → c.num_milliseconds (c.since a b) ≡ pos ((nanos a - nanos b) / 1_000_000)
  pub try_milliseconds_lem :
      (n : ℕ)
      → n < 10_000_000
      → (d : c.Duration) × (c.try_milliseconds n ≡ some d)
        × ((t : c.DateTime) → nanos (c.plus t d) ≡ nanos t + n * 1_000_000)
  pub try_hours-one :
      (d : c.Duration) × (c.try_hours 1 ≡ some d)
      × ((t : c.DateTime) → hour ≤ nanos t → nanos (c.minus t d) + hour ≡ nanos t)
