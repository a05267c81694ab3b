-- ===== src/Logs.antt =====
-- src/include/throttr/utils.hpp and src/include/throttr/version.hpp: the texts of the log, and three
-- functions that copy bytes behind the end of a vector. A text is the list of its characters.
pub mod Hex
use text.Mathlib.Text.{◌==◌}
use Prim.Native.String.{String}
use throttr.Prelude.{
  ℕ, ◌+◌, ◌/◌, ◌%◌, ◌^◌, List, [], ◌∷◌, ◌++◌, Bool, true, false, ltb, if◌then◌else◌, length, take,
  drop,
}
use throttr.Prelude.Bytes.{le_bytes}
use throttr.Protocol.{
  TtlTypes, nanoseconds, microseconds, milliseconds, seconds, minutes, hours, AttributeTypes, quota,
  ttl, EntryTypes, raw, counter, ChangeTypes, patch, increase, decrease,
}

-- A digit of fmt's `X`.
abbrev pub upper_digit : ℕ → ℕ
upper_digit d = if ltb d 10 then 48 + d else 55 + d

-- span_to_hex: `{:02X} ` of each byte.
unfoldable pub span_to_hex : List ℕ → List ℕ
span_to_hex [] = []
span_to_hex (b ∷ bs) = upper_digit (b / 16) ∷ upper_digit (b % 16) ∷ b' ' ∷ span_to_hex bs

-- buffers_to_hex: the same of each buffer in turn.
unfoldable pub buffers_to_hex : List (List ℕ) → List ℕ
buffers_to_hex [] = []
buffers_to_hex (buf ∷ buffers) = span_to_hex buf ++ buffers_to_hex buffers

-- to_string of each enumeration; what is not named falls to the last text.
unfoldable pub name_of_ttl : TtlTypes → String
name_of_ttl nanoseconds = "nanoseconds"
name_of_ttl microseconds = "microseconds"
name_of_ttl milliseconds = "milliseconds"
name_of_ttl seconds = "seconds"
name_of_ttl minutes = "minutes"
name_of_ttl hours = "hours"
name_of_ttl (TtlTypes.other n) = "hours"

unfoldable pub name_of_attribute : AttributeTypes → String
name_of_attribute quota = "quota"
name_of_attribute ttl = "ttl"
name_of_attribute (AttributeTypes.other n) = "ttl"

unfoldable pub name_of_entry : EntryTypes → String
name_of_entry raw = "raw"
name_of_entry counter = "counter"
name_of_entry (EntryTypes.other n) = "counter"

unfoldable pub name_of_change : ChangeTypes → String
name_of_change increase = "increase"
name_of_change decrease = "decrease"
name_of_change patch = "patch"
name_of_change (ChangeTypes.other n) = "patch"

-- get_version
abbrev pub get_version : String
get_version = "5.0.11"

-- A std::vector of bytes: its size, and the memory from its `data()` on, which reaches behind it.
pub record Vector : Type 0 where
  pub size : ℕ
  pub memory : List ℕ

abbrev pub elements : Vector → List ℕ
elements v = take v.size v.memory

-- `memcpy(data() + size(), …)`, which leaves the size as it is.
unfoldable pub copy_behind : Vector → List ℕ → Vector
copy_behind v bytes = record v {
  memory = take v.size v.memory ++ (bytes ++ drop (v.size + length bytes) v.memory);
}

unfoldable pub append_uint64_t : Vector → ℕ → Vector
append_uint64_t v value = copy_behind v (le_bytes 8 value)

unfoldable pub append_value_type : ℕ → Vector → ℕ → Vector
append_value_type w v value = copy_behind v (le_bytes w value)

-- append_uuid, with the buffer of 16 bytes that it adds to the batch, by its offset.
unfoldable pub append_uuid : Vector → List (ℕ × ℕ) → List ℕ → Vector × List (ℕ × ℕ)
append_uuid v batch uuid = (copy_behind v (take 16 uuid), batch ++ (v.size, 16) ∷ [])
