-- ===== src/Update/Ttl.antt =====
-- apply_ttl_change against get_expiration_point, and its changes against one another.
use throttr.Prelude.{ℕ, ◌+◌, ◌*◌, ◌%◌, ◌<◌, ◌≡◌, refl, List, arith, take}
use throttr.Prelude.Bytes.{le_value}
use throttr.Protocol.{
  TtlTypes, nanoseconds, microseconds, milliseconds, seconds, minutes, hours, patch, increase,
  decrease, u64_mod,
}
use throttr.Time.{unit_ns, get_expiration_point}
use throttr.Entry.{Entry}
use throttr.Update.{duration_ns, changed_point}

-- A byte that names a unit.
abbrev pub IsUnit : TtlTypes → Type 0
IsUnit (TtlTypes.other n) = ⊥
IsUnit _ = Unit

pub duration_ns-unit_ns :
    (t : TtlTypes) (value : ℕ)
    → IsUnit t
    → value < u64_mod
    → duration_ns t value ≡ value * unit_ns t % u64_mod
duration_ns-unit_ns nanoseconds value u h = omega arith
duration_ns-unit_ns microseconds value u h = refl
duration_ns-unit_ns milliseconds value u h = refl
duration_ns-unit_ns seconds value u h = refl
duration_ns-unit_ns minutes value u h = refl
duration_ns-unit_ns hours value u h = refl
duration_ns-unit_ns (TtlTypes.other n) value u h = absurd u

-- A patch of the time to live sets the point that a new entry of this unit would get; for a unit
-- that has a name and a value below 2^64.
pub changed_point-patch :
    (w now : ℕ) (e : Entry) (ttl : List ℕ)
    → IsUnit e.ttl_type
    → le_value (take w ttl) < u64_mod
    → changed_point now e patch (le_value (take w ttl)) ≡ get_expiration_point w now e.ttl_type ttl
unfolding changed_point get_expiration_point
changed_point-patch w now e ttl u h =
    rw (duration_ns-unit_ns e.ttl_type (le_value (take w ttl)) u h)

-- An entry whose unit has no name gets a point in the future when it is made, and the present
-- when it is patched; for a positive value and a point below 2^64.
pub changed_point_other :
    (w now n : ℕ) (e : Entry) (ttl : List ℕ)
    → e.ttl_type ≡ TtlTypes.other n
    → 0 < le_value (take w ttl)
    → now + le_value (take w ttl) * 1_000_000_000 < u64_mod
    → (changed_point now e patch (le_value (take w ttl)) ≡ now)
      × (now < get_expiration_point w now e.ttl_type ttl)
unfolding changed_point get_expiration_point
changed_point_other w now n e ttl h pos fits = (rw h (omega arith), rw h (omega arith))

duration_ns-lt : (t : TtlTypes) (value : ℕ) → value < u64_mod → duration_ns t value < u64_mod
duration_ns-lt nanoseconds value h = h
duration_ns-lt microseconds value h = omega arith
duration_ns-lt milliseconds value h = omega arith
duration_ns-lt seconds value h = omega arith
duration_ns-lt minutes value h = omega arith
duration_ns-lt hours value h = omega arith
duration_ns-lt (TtlTypes.other n) value h = omega arith

-- An increase and a decrease by the same time cancel, also where the sum wraps.
pub changed_point-increase-decrease :
    (now later : ℕ) (e : Entry) (value : ℕ)
    → e.expires_at < u64_mod
    → value < u64_mod
    → changed_point later
        (record e { expires_at = changed_point now e increase value })
        decrease
        value
      ≡ e.expires_at
unfolding changed_point
changed_point-increase-decrease now later e value h fits =
    omega (arith, duration_ns-lt e.ttl_type value fits)
