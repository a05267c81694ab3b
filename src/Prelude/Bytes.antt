-- ===== src/Prelude/Bytes.antt =====
-- Numbers as they lie in a byte buffer: `std::memcpy` with `boost::endian::little_to_native` or
-- `native_to_little`. The lowest byte comes first.
use Prim.Native.Nat.{ℕ, zero, suc, ◌+◌, ◌*◌, ◌/◌, ◌%◌, ◌^◌, ◌<◌}
use mathlib.Core.Path.{◌≡◌, refl, ap}
use mathlib.Core.List.{List, [], ◌∷◌, ◌++◌}
use native.Mathlib.Omega.{arith}
use native.Mathlib.Nat.{pow-suc}
use throttr.Prelude.Lists.{length, take, drop, All}

-- The number that a sequence of bytes stands for.
unfoldable pub le_value : List ℕ → ℕ
le_value [] = 0
le_value (b ∷ bs) = b + 256 * le_value bs

-- The `w` bytes of a number.
unfoldable pub le_bytes : ℕ → ℕ → List ℕ
le_bytes zero v = []
le_bytes (suc w) v = (v % 256) ∷ le_bytes w (v / 256)

pub length-le_bytes : (w v : ℕ) → length (le_bytes w v) ≡ w
unfolding le_bytes
length-le_bytes zero v = refl
length-le_bytes (suc w) v = ap suc (length-le_bytes w (v / 256))

pub le_value-le_bytes : (w v : ℕ) → v < 256 ^ w → le_value (le_bytes w v) ≡ v
unfolding le_value le_bytes
le_value-le_bytes zero v h = omega arith
le_value-le_bytes (suc w) v h =
    omega (arith, le_value-le_bytes w (v / 256) (omega (arith, pow-suc 256 w)))

-- Bytes stand for a number that fits in as many bytes.
pub le_value-lt : (bs : List ℕ) → All (λ b. b < 256) bs → le_value bs < 256 ^ length bs
unfolding le_value
le_value-lt [] h = omega arith
le_value-lt (b ∷ bs) h = omega (arith, le_value-lt bs h.1, pow-suc 256 (length bs))

pub take-le_bytes : (w v : ℕ) (rest : List ℕ) → take w (le_bytes w v ++ rest) ≡ le_bytes w v
unfolding le_bytes
take-le_bytes zero v rest = refl
take-le_bytes (suc w) v rest = ap (◌∷◌ (v % 256)) (take-le_bytes w (v / 256) rest)

pub drop-le_bytes : (w v : ℕ) (rest : List ℕ) → drop w (le_bytes w v ++ rest) ≡ rest
unfolding le_bytes
drop-le_bytes zero v rest = refl
drop-le_bytes (suc w) v rest = drop-le_bytes w (v / 256) rest
