-- ===== src/Logs/Hex.antt =====
-- The log's hexadecimal texts can be read back, and what is copied behind a vector is not in it.
use mathlib.Core.List.{flatten}
use throttr.Prelude.{
  ℕ, ◌+◌, ◌-◌, ◌*◌, ◌/◌, ◌%◌, ◌≤◌, ◌<◌, List, [], ◌∷◌, ◌++◌, ◌≡◌, refl, sym, ◌∙◌, ap, arith, All,
  ltb, if◌then◌else◌, length, take, drop, take-length, length-take,
}
use throttr.Logs.{upper_digit, span_to_hex, buffers_to_hex, Vector, elements, copy_behind}

-- A reader of such texts.
abbrev pub digit_value : ℕ → ℕ
digit_value d = if ltb d 58 then d - 48 else d - 55

unfoldable pub read_hex : List ℕ → List ℕ
read_hex (high ∷ low ∷ space ∷ text) = (16 * digit_value high + digit_value low) ∷ read_hex text
read_hex text = []

span_to_hex-append : (xs ys : List ℕ) → span_to_hex (xs ++ ys) ≡ span_to_hex xs ++ span_to_hex ys
unfolding span_to_hex
span_to_hex-append [] ys = refl
span_to_hex-append (x ∷ xs) ys =
    ap (λ (t : List ℕ). upper_digit (x / 16) ∷ upper_digit (x % 16) ∷ b' ' ∷ t)
      (span_to_hex-append xs ys)

digits :
    (b : ℕ)
    → b < 256
    → 16 * digit_value (upper_digit (b / 16)) + digit_value (upper_digit (b % 16)) ≡ b
digits b h = ground arith

read_hex-span_to_hex : (bs : List ℕ) → All (λ b. b < 256) bs → read_hex (span_to_hex bs) ≡ bs
unfolding read_hex span_to_hex
read_hex-span_to_hex [] h = refl
read_hex-span_to_hex (b ∷ bs) h = cc (digits b h.0, read_hex-span_to_hex bs h.1)

pub buffers_to_hex-flatten :
    (buffers : List (List ℕ)) → buffers_to_hex buffers ≡ span_to_hex (flatten buffers)
unfolding buffers_to_hex flatten span_to_hex
buffers_to_hex-flatten [] = refl
buffers_to_hex-flatten (buf ∷ buffers) =
    ap (◌++◌ (span_to_hex buf)) (buffers_to_hex-flatten buffers)
    ∙ sym (span_to_hex-append buf (flatten buffers))

-- The text of buffers can be read back, as the bytes of all buffers in one row.
pub read_hex-buffers_to_hex :
    (buffers : List (List ℕ))
    → All (λ b. b < 256) (flatten buffers)
    → read_hex (buffers_to_hex buffers) ≡ flatten buffers
read_hex-buffers_to_hex buffers h =
    ap read_hex (buffers_to_hex-flatten buffers) ∙ read_hex-span_to_hex (flatten buffers) h

-- What is copied behind a vector does not become part of it.
pub elements-copy_behind :
    (v : Vector) (bytes : List ℕ)
    → v.size ≤ length v.memory
    → elements (copy_behind v bytes) ≡ elements v
unfolding copy_behind
elements-copy_behind v bytes fits =
    let front : List ℕ = take v.size v.memory in
    let behind : List ℕ = bytes ++ drop (v.size + length bytes) v.memory in
    ap (λ (n : ℕ). take n (front ++ behind)) (omega (arith, length-take v.size v.memory))
    ∙ take-length front behind
