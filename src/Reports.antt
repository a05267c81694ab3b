-- ===== src/Reports.antt =====
-- src/sources/services/response_builder_service.cpp and .hpp, and the commands that answer with it:
-- list and stats. A segment of the batch stands for the bytes that it shows: those that the code
-- copies into write_buffer just before, or those of a field. The offset never goes back, so no later
-- copy changes a segment.
pub mod Fragments
pub mod Adds
pub mod Room
pub mod Decoding
pub mod Responses
pub mod Listing
use throttr.Prelude.{
  ℕ, zero, suc, ◌+◌, ◌*◌, ◌%◌, List, [], ◌∷◌, ◌++◌, Bool, true, false, length, ltb, if◌then◌else◌,
}
use throttr.Prelude.Bytes.{le_bytes}
use throttr.Protocol.{TtlTypes, EntryTypes, value_mod}
use throttr.Entry.{EntryWrapper, is_counter, add_read}
use throttr.Storage.{HashedUnique}
use throttr.State.{success_response}

pub record Output : Type 0 where
  pub batch : List (List ℕ)
  -- the size that the last `batch.reserve` asked for
  pub reserved : ℕ
  -- `write_buffer.size()`
  pub size : ℕ
  pub offset : ℕ

-- `batch.reserve` and `write_buffer.resize` with so many more, the offset at the old end.
unfoldable pub grow : ℕ → ℕ → Output → Output
grow segments bytes o = record o {
  reserved = length o.batch + segments;
  size = o.size + bytes;
  offset = o.size;
}

-- `batch.emplace_back` of a field.
unfoldable pub point : List ℕ → Output → Output
point bytes o = record o { batch = o.batch ++ bytes ∷ [] }

-- `std::memcpy` to the offset, `batch.emplace_back`, and the offset behind the copy.
unfoldable pub put : List ℕ → Output → Output
put bytes o = record o { batch = o.batch ++ bytes ∷ []; offset = o.offset + length bytes }

-- Words of 64 bits, one behind the other.
abbrev pub word_bytes : List ℕ → List ℕ
word_bytes [] = []
word_bytes (v ∷ vs) = le_bytes 8 v ++ word_bytes vs

abbrev pub max_fragment_size : ℕ
max_fragment_size = 2048

abbrev pub has_items : {A : Type 0} → List A → Bool
has_items [] = false
has_items (x ∷ xs) = true

-- The loop that cuts items into fragments, with the current fragment and its size.
module _ {A : Type 0} (limit : ℕ) (cost : A → ℕ) where
  unfoldable pub fragments_from : List A → ℕ → List A → List (List A)
  fragments_from current size [] = if has_items current then current ∷ [] else []
  fragments_from current size (x ∷ xs) =
      let full = ltb limit (size + cost x) in
      let rest =
        fragments_from (if full then x ∷ [] else current ++ x ∷ [])
          (if full then cost x else size + cost x) xs in
      if full then current ∷ rest else rest

-- write_list_entry_to_buffer with `measure`: bytes and segments.
abbrev pub list_measure : ℕ → ℕ × ℕ
list_measure w = (1 + 8 + w, 5)

-- write_stats_entry_to_buffer with `measure`.
abbrev pub stats_measure : ℕ × ℕ
stats_measure = (33, 5)

-- What an entry uses, by its type.
abbrev pub bytes_used : ℕ → EntryWrapper → ℕ
bytes_used w e = if is_counter e.entry.type then w else length e.entry.buffer

-- write_list_entry_to_buffer. The codes of the two enumerations are parameters.
unfoldable pub write_list_entry_to_buffer :
    ℕ → (EntryTypes → ℕ) → (TtlTypes → ℕ) → EntryWrapper → Output → Output
write_list_entry_to_buffer w type_code unit_code e o =
    put (le_bytes w (bytes_used w e % value_mod w)) (
      put (le_bytes 8 e.entry.expires_at) (
        point (unit_code e.entry.ttl_type ∷ [])
          (point (type_code e.entry.type ∷ []) (put ((length e.key % 256) ∷ []) o))))

-- write_stats_entry_to_buffer
unfoldable pub write_stats_entry_to_buffer : EntryWrapper → Output → Output
write_stats_entry_to_buffer e o = put (le_bytes 8 e.metrics.writes_accumulator) (
    put (le_bytes 8 e.metrics.reads_accumulator) (
      put (le_bytes 8 e.metrics.writes_per_minute)
        (put (le_bytes 8 e.metrics.reads_per_minute) (put ((length e.key % 256) ∷ []) o))))

-- The elements that are not marked as expired.
unfoldable pub live : List EntryWrapper → List EntryWrapper
live [] = []
live (e ∷ es) = let rest = live es in if e.expired then rest else e ∷ rest

abbrev pub count_read : EntryWrapper → EntryWrapper
count_read e = if e.expired then e else add_read e

-- The two loops over a fragment: its entries, and then its keys.
unfoldable pub write_entries :
    (EntryWrapper → Output → Output) → List EntryWrapper → Output → Output
write_entries write [] o = o
write_entries write (e ∷ es) o = write_entries write es (write e o)

unfoldable pub write_keys : List EntryWrapper → Output → Output
write_keys [] o = o
write_keys (e ∷ es) o = write_keys es (point e.key o)

-- The loop over the fragments.
unfoldable pub write_fragments :
    (EntryWrapper → Output → Output) → ℕ → List (List EntryWrapper) → Output → Output
write_fragments write i [] o = o
write_fragments write i (f ∷ fs) o = write_fragments write (i + 1) fs (
    write_keys f (write_entries write f (put (le_bytes 8 (length f)) (put (le_bytes 8 (i + 1)) o))))

abbrev pub entry_cost : ℕ × ℕ → EntryWrapper → ℕ
entry_cost measure e = measure.0 + length e.key

module _ {S : Type 0} (c : HashedUnique S) where
  -- handle_fragmented_entries_response: the storage with its counters, and the response. Both ways
  -- to measure an entry give the same for every entry.
  unfoldable pub handle_fragmented_entries_response :
      ℕ → ℕ × ℕ → (EntryWrapper → Output → Output) → S → Output → S × Output
  handle_fragmented_entries_response limit measure write s o =
      let s' = c.for_each s count_read in
      let items = live (c.items s') in
      let fragments = fragments_from limit (entry_cost measure) [] 0 items in
      let segments = 2 + (length items * (measure.1 + 1) + length fragments * 2) in
      let bytes = 8 + (length items * measure.0 + length fragments * 16) in
      (
        s',
        write_fragments write 0 fragments (
            put (le_bytes 8 (length fragments))
              (point (success_response ∷ []) (grow segments bytes o))),
      )

  -- list_command::call
  unfoldable pub list_command : ℕ → (EntryTypes → ℕ) → (TtlTypes → ℕ) → S → Output → S × Output
  list_command w type_code unit_code =
      handle_fragmented_entries_response max_fragment_size (list_measure w)
        (write_list_entry_to_buffer w type_code unit_code)

  -- stats_command::call
  unfoldable pub stats_command : S → Output → S × Output
  stats_command =
      handle_fragmented_entries_response max_fragment_size stats_measure write_stats_entry_to_buffer
