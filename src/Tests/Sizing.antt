-- ===== src/Tests/Sizing.antt =====
-- The sizes of messages and the tables, with concrete headers and codes.
use throttr.Prelude.{ℕ, List, [], ◌∷◌, arith}
use throttr.Protocol.{set}
use throttr.Messages.{message_size}
use throttr.Messages.Sizes.{Within, message_size_bounds}
use throttr.Tests.Data.{headers, headers-IsLayout}

-- A `set` of a key of one byte and a value of two.
abbrev set_bytes : List ℕ
set_bytes = 4 ∷ 10 ∷ 0 ∷ 4 ∷ 1 ∷ 2 ∷ 0 ∷ 97 ∷ 8 ∷ 9 ∷ []

message_size_bounds_example : Within 2 7 set_bytes (message_size 2 headers set set_bytes)
message_size_bounds_example =
    message_size_bounds 2 headers headers-IsLayout (omega arith, omega arith, omega arith) set
      set_bytes
      (
        omega arith,
        (
          omega arith,
          (
            omega arith,
            (
              omega arith,
              (
                omega arith,
                (omega arith, (omega arith, (omega arith, (omega arith, (omega arith, tt))))),
              ),
            ),
          ),
        ),
      )
