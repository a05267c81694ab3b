-- ===== src/Commands/Agreement.antt =====
-- The table of sizes beside the table of commands.
use throttr.Prelude.{
  ℕ, ◌≤◌, List, ◌∷◌, Option, none, some, false, ◌≡◌, ap, arith, length, replicate, Bool-cases, inl,
  inr, ltb, ltb→lt, if◌then◌else◌,
}
use throttr.Protocol.{RequestTypes}
use throttr.Messages.{
  Headers, message_size, message_types, get_message_size, apply_to, slot, invalid_size,
  request_types,
}
use throttr.Messages.Table.{IsCoding, is_code, slot-install, slot_past, length-install}

le_of_not_ltb : (a b : ℕ) → ltb a b ≡ false → b ≤ a
le_of_not_ltb a b h = ground arith

module _ (w : ℕ) (h : Headers) (code : RequestTypes → ℕ) (coding : IsCoding code) where
  sized :
      (b : ℕ) (bs : List ℕ) (f : Option (List ℕ → ℕ))
      → slot (message_types w h code) b ≡ f
      → get_message_size (message_types w h code) (b ∷ bs) ≡ apply_to (b ∷ bs) f
  unfolding get_message_size
  sized b bs f e = ap (apply_to (b ∷ bs)) e

  length-table : length (message_types w h code) ≡ 32
  unfolding message_types
  length-table = length-install code (message_size w h) request_types (replicate 32 invalid_size)

  -- A first byte that is the code of no request type gives size 0 below 32, and is no index of
  -- the table from 32 on; for codes that are different and below 32.
  pub get_message_size_unknown :
      (b : ℕ) (bs : List ℕ)
      → is_code code b ≡ false
      → get_message_size (message_types w h code) (b ∷ bs) ≡ (if ltb b 32 then some 0 else none)
  unfolding message_types apply_to
  get_message_size_unknown b bs other = elim (Bool-cases (ltb b 32)) [
    | inl small ↦ rw small (
        sized b bs (some invalid_size) (
          (slot-install code (message_size w h) invalid_size 32 (omega arith) coding).1 b
            (ltb→lt b 32 small) other))
    | inr big ↦ rw big (
        sized b bs none (
          slot_past (message_types w h code) b
            (omega (arith, length-table, le_of_not_ltb b 32 big))))
  ]
