-- ===== src/Query.antt =====
-- src/sources/commands/query_command.cpp: QUERY and GET. The host is little-endian, as `memcpy` of a
-- counter takes it.
pub mod Laws
use throttr.Prelude.{ℕ, List, [], ◌∷◌, ◌++◌, Bool, true, false, Option, none, some, length, map}
use throttr.Prelude.Bytes.{le_bytes}
use throttr.Time.{get_ttl}
use throttr.Entry.{Key, Entry, EntryWrapper}
use throttr.Storage.{HashedUnique}
use throttr.State.{State, success_response, failed_response}
use throttr.Finder.{find_or_fail}

-- A byte of a batch: one that stays as it is, in write_buffer_ or a constant, or the byte `ttl_type_` of
-- the live entry of a key, to which the batch points. The socket reads it when it writes the batch.
pub data Byte : Type 0 where
  fixed : ℕ → Byte
  unit_of : Key → Byte

abbrev pub fixed_bytes : List ℕ → List Byte
fixed_bytes bs = map fixed bs

-- The batch for the live entry of a key: of `query` if the flag is set, of `get` otherwise.
unfoldable pub query_response : ℕ → ℕ → Bool → Key → Entry → List Byte
query_response w now true k e =
    fixed success_response
    ∷ (fixed_bytes (le_bytes w e.counter)
        ++ (unit_of k ∷ fixed_bytes (le_bytes w (get_ttl w now e.expires_at e.ttl_type))))
query_response w now false k e =
    fixed success_response
    ∷ unit_of k
    ∷ (fixed_bytes (le_bytes w (get_ttl w now e.expires_at e.ttl_type))
        ++ (fixed_bytes (le_bytes w (length e.buffer)) ++ fixed_bytes e.buffer))

unfoldable pub query_found : ℕ → ℕ → Bool → Key → Option EntryWrapper → List Byte
query_found w now as_query k none = fixed failed_response ∷ []
query_found w now as_query k (some e) = query_response w now as_query k e.entry

module _ {S : Type 0} (c : HashedUnique S) where
  -- query_command::call
  unfoldable pub query_command : ℕ → ℕ → Bool → State S → Key → List Byte × State S
  query_command w now as_query st k =
      let (found, st') = find_or_fail c st k in (query_found w now as_query k found, st')
