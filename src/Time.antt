-- ===== src/Time.antt =====
-- src/include/throttr/time.hpp: expiration points and remaining times to live.
-- `std::chrono::system_clock::now()` is an argument, in nanoseconds.
-- The durations of std::chrono are of 64 signed bits, here in two's complement.
pub mod Laws
use throttr.Prelude.{ℕ, ◌+◌, ◌-◌, ◌*◌, ◌/◌, ◌%◌, ◌^◌, List, leb, ltb, if◌then◌else◌, take}
use throttr.Prelude.Bytes.{le_value}
use throttr.Protocol.{
  TtlTypes, nanoseconds, microseconds, milliseconds, seconds, minutes, hours, other, value_mod,
  u64_mod,
}

-- The nanoseconds of one unit, as the `switch`es of time.hpp have them: what names no enumerator
-- falls to `default`, the second.
abbrev pub unit_ns : TtlTypes → ℕ
unit_ns nanoseconds = 1
unit_ns microseconds = 1_000
unit_ns milliseconds = 1_000_000
unit_ns seconds = 1_000_000_000
unit_ns minutes = 60_000_000_000
unit_ns hours = 3_600_000_000_000
unit_ns (other n) = 1_000_000_000

-- get_expiration_point. The product is that of a 64-bit `duration_cast`.
unfoldable pub get_expiration_point : ℕ → ℕ → TtlTypes → List ℕ → ℕ
get_expiration_point w now ttl_type ttl =
    let value = le_value (take w ttl) in
    let offset_ns = value * unit_ns ttl_type % u64_mod in (now + offset_ns) % u64_mod

-- duration_cast from nanoseconds to a unit, which cuts toward 0: a duration from 2^63 on is negative.
unfoldable pub duration_cast : ℕ → ℕ → ℕ
duration_cast unit d =
    if ltb d (2 ^ 63) then d / unit else (u64_mod - (u64_mod - d) / unit) % u64_mod

-- get_ttl. The count is narrowed to `value_type`. A cast to nanoseconds leaves the difference as it
-- is, which the source does not cast.
unfoldable pub get_ttl : ℕ → ℕ → ℕ → TtlTypes → ℕ
get_ttl w now_ns expires_at ttl_type =
    if leb expires_at now_ns
    then 0
    else duration_cast (unit_ns ttl_type) (expires_at - now_ns) % value_mod w
