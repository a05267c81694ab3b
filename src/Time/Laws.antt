-- ===== src/Time/Laws.antt =====
-- What get_expiration_point and get_ttl say of one another.
use native.Mathlib.Nat.{
  mod-eq_of_lt, zero-div, div-le_of_le-mul, mod-le, div-mul-le_self, mul-le-mul_right, le_trans,
  mul_comm,
}
use throttr.Prelude.{
  ℕ, ◌+◌, ◌-◌, ◌*◌, ◌/◌, ◌%◌, ◌≤◌, ◌<◌, ◌≡◌, List, arith, take, ◌∙◌, leb, if◌then◌else◌, ap, leb→le,
  sym, Bool-cases, inl, inr, ◌^◌,
}
use throttr.Prelude.Bytes.{le_value}
use throttr.Protocol.{
  TtlTypes, nanoseconds, microseconds, milliseconds, seconds, minutes, hours, other, value_mod,
  u64_mod,
}
use throttr.Time.{unit_ns, duration_cast, get_expiration_point, get_ttl}

pub unit_ns_pos : (t : TtlTypes) → 0 < unit_ns t
unit_ns_pos nanoseconds = omega arith
unit_ns_pos microseconds = omega arith
unit_ns_pos milliseconds = omega arith
unit_ns_pos seconds = omega arith
unit_ns_pos minutes = omega arith
unit_ns_pos hours = omega arith
unit_ns_pos (other n) = omega arith

short_duration_cast : (u d : ℕ) → d < 2 ^ 63 → duration_cast u d ≡ d / u
unfolding duration_cast
short_duration_cast u d h = ground (arith, h)

left_of :
    (u v e now m : ℕ)
    → 0 < u
    → v < m
    → v * u < 2 ^ 63
    → (if leb (now + v * u) (now + e) then 0 else duration_cast u (now + v * u - (now + e)) % m)
      ≡ (v * u - e) / u
left_of u v e now m pos fits short = elim (Bool-cases (leb (now + v * u) (now + e))) [
  | inl over ↦
      rw over
        (sym (zero-div u) ∙ ap (λ (x : ℕ). x / u) (omega (arith, leb→le (now + v * u) (now + e))))
  | inr more ↦ rw more (
      ap (λ (x : ℕ). x % m) (short_duration_cast u (now + v * u - (now + e)) (omega arith))
      ∙ ap (λ (x : ℕ). x / u % m) (omega arith)
      ∙ mod-eq_of_lt {n = (v * u - e) / u} {m = m} (omega (arith, below)))
]
  where
    below : (v * u - e) / u ≤ v
    below = div-le_of_le-mul u (omega (arith, mul_comm u v))

module _ (w now : ℕ) (t : TtlTypes) (ttl : List ℕ) where
  -- Without an overflow of 64 bits the point is the sum.
  pub get_expiration_point-exact :
      now + le_value (take w ttl) * unit_ns t < u64_mod
      → get_expiration_point w now t ttl ≡ now + le_value (take w ttl) * unit_ns t
  unfolding get_expiration_point
  get_expiration_point-exact h =
      ap (λ (x : ℕ). (now + x) % u64_mod)
        (mod-eq_of_lt {n = le_value (take w ttl) * unit_ns t} {m = u64_mod} (omega arith))
      ∙ mod-eq_of_lt h

  -- A time to live shows, e nanoseconds after it was set, the whole units that are left of it,
  -- and 0 from its end on; where its count fits a value, its point fits 64 bits, and it is below
  -- 2^63 nanoseconds.
  pub get_ttl-get_expiration_point :
      (e : ℕ)
      → now + le_value (take w ttl) * unit_ns t < u64_mod
      → le_value (take w ttl) < value_mod w
      → le_value (take w ttl) * unit_ns t < 2 ^ 63
      → get_ttl w (now + e) (get_expiration_point w now t ttl) t
        ≡ (le_value (take w ttl) * unit_ns t - e) / unit_ns t
  unfolding get_ttl
  get_ttl-get_expiration_point e h fits short =
      rw (get_expiration_point-exact h)
        (left_of (unit_ns t) (le_value (take w ttl)) e now (value_mod w) (unit_ns_pos t) fits short)

-- What is shown never exceeds what is left, whatever the width and the unit; for less than 2^63
-- nanoseconds.
pub get_ttl-le :
    (w now expires_at : ℕ) (t : TtlTypes)
    → expires_at - now < 2 ^ 63
    → get_ttl w now expires_at t * unit_ns t ≤ expires_at - now
unfolding get_ttl
get_ttl-le w now expires_at t short = elim (Bool-cases (leb expires_at now)) [
  | inl over ↦ rw over (omega arith)
  | inr more ↦
      rw (more, short_duration_cast (unit_ns t) (expires_at - now) short)
        (le_trans
          (mul-le-mul_right (unit_ns t) (mod-le ((expires_at - now) / unit_ns t) (value_mod w)))
          (div-mul-le_self (expires_at - now) (unit_ns t)))
]
