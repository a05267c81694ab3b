-- ===== src/Members/Names.antt =====
-- The channel of a connection: no two ids share one.
use throttr.Prelude.{
  ℕ, ◌/◌, ◌%◌, ◌<◌, List, [], ◌∷◌, ◌≡◌, inl, inr, refl, ap, ◌∙◌, arith, All, get_or, drop, ltb,
  Bool-cases,
}
use throttr.Members.{hex_digit, hex_name}

hex_digit_injective : (a b : ℕ) → hex_digit a ≡ hex_digit b → a < 16 → b < 16 → a ≡ b
unfolding hex_digit
hex_digit_injective a b e ha hb = elim (Bool-cases (ltb a 10)) [
  | inl la ↦ elim (Bool-cases (ltb b 10)) [ inl lb ↦ ground arith | inr lb ↦ ground arith ]
  | inr la ↦ elim (Bool-cases (ltb b 10)) [ inl lb ↦ ground arith | inr lb ↦ ground arith ]
]

-- Two sequences of bytes that are written with the same digits are the same.
pub hex_name_injective :
    (xs ys : List ℕ)
    → All (λ b. b < 256) xs
    → All (λ b. b < 256) ys
    → hex_name xs ≡ hex_name ys
    → xs ≡ ys
unfolding hex_name
hex_name_injective [] [] ha hb e = refl
hex_name_injective [] (b ∷ ys) ha hb e = absurd (cc)
hex_name_injective (a ∷ xs) [] ha hb e = absurd (cc)
hex_name_injective (a ∷ xs) (b ∷ ys) ha hb e =
    let high : a / 16 ≡ b / 16 =
      hex_digit_injective (a / 16) (b / 16) (ap (λ (l : List ℕ). get_or l 0 0) e)
        (omega (arith, ha.0)) (omega (arith, hb.0)) in
    let low : a % 16 ≡ b % 16 =
      hex_digit_injective (a % 16) (b % 16) (ap (λ (l : List ℕ). get_or l 1 0) e) (omega arith)
        (omega arith) in
    let same : a ≡ b = omega (arith, high, low) in
    let rest = hex_name_injective xs ys ha.1 hb.1 (ap (λ (l : List ℕ). drop 2 l) e) in
    ap (λ x. x ∷ xs) same ∙ ap (◌∷◌ b) rest
