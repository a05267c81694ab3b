-- ===== src/Update/Quota.antt =====
-- What apply_quota_change takes and leaves.
use native.Mathlib.Nat.{mod-lt}
use throttr.Prelude.{ℕ, ◌+◌, ◌<◌, ◌≡◌, refl, Bool, true, false, leb, arith}
use throttr.Protocol.{ChangeTypes, patch, increase, decrease, value_mod}
use throttr.Entry.{Entry}
use throttr.Update.{apply_quota_change}

-- What a request took: its value, if it was answered with success.
abbrev pub taken : Bool → ℕ → ℕ
taken true value = value
taken false value = 0

-- A decrease takes its value or nothing, and it fails exactly when it asks for more than is left.
pub decrease_lem :
    (w : ℕ) (e : Entry) (value : ℕ)
    → let r = apply_quota_change w e decrease value in
      (r.0 ≡ leb value e.counter) × (r.1.counter + taken r.0 value ≡ e.counter)
unfolding apply_quota_change
decrease_lem w e value = ground arith

pub type-decrease :
    (w : ℕ) (e : Entry) (value : ℕ) → (apply_quota_change w e decrease value).1.type ≡ e.type
unfolding apply_quota_change
type-decrease w e value = ground arith

-- Every change of a quota keeps the counter within a value_type and leaves the other fields of
-- the entry; for a counter and a value within it.
pub apply_quota_change_bounds :
    (w : ℕ) (e : Entry) (ch : ChangeTypes) (value : ℕ)
    → e.counter < value_mod w
    → value < value_mod w
    → let r = apply_quota_change w e ch value in
      (r.1.counter < value_mod w) × (record r.1 { counter = e.counter } ≡ e)
unfolding apply_quota_change
apply_quota_change_bounds w e patch value h fits = (fits, refl)
apply_quota_change_bounds w e increase value h fits =
    (mod-lt (e.counter + value) {m = value_mod w} (omega arith), refl)
apply_quota_change_bounds w e decrease value h fits = ground arith
apply_quota_change_bounds w e (ChangeTypes.other n) value h fits = (h, refl)
