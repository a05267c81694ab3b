-- ===== src/Entry.antt =====
-- src/include/throttr/entry.hpp, src/sources/entry.cpp, src/include/throttr/entry_wrapper.hpp and
-- src/include/throttr/entry_metrics.hpp: what the storage holds under a key.
-- An entry owns its buffer: `entry` takes a fresh one of the pool, and the pool gets it back only
-- when `in_use_` falls, which no code does. So a buffer is the bytes in it.
pub mod Copies
use throttr.Prelude.{ℕ, ◌+◌, ◌%◌, List, [], Bool, true, false, take}
use throttr.Prelude.Bytes.{le_value}
use throttr.Protocol.{TtlTypes, EntryTypes, counter, raw, u64_mod}

-- A key is a sequence of bytes.
abbrev pub Key : Type 0
Key = List ℕ

pub record Entry : Type 0 where
  pub type : EntryTypes
  pub counter : ℕ
  pub buffer : List ℕ
  pub ttl_type : TtlTypes
  pub expires_at : ℕ

pub record EntryMetrics : Type 0 where
  pub reads : ℕ
  pub writes : ℕ
  pub reads_accumulator : ℕ
  pub writes_accumulator : ℕ
  pub reads_per_minute : ℕ
  pub writes_per_minute : ℕ

pub record EntryWrapper : Type 0 where
  pub key : Key
  pub entry : Entry
  pub expired : Bool
  pub metrics : EntryMetrics

abbrev pub is_raw : EntryTypes → Bool
is_raw raw = true
is_raw counter = false
is_raw (EntryTypes.other n) = false

abbrev pub is_counter : EntryTypes → Bool
is_counter counter = true
is_counter raw = false
is_counter (EntryTypes.other n) = false

-- The constructor: a raw entry copies the value, any other parses a `value_type`.
unfoldable pub make_entry : ℕ → EntryTypes → List ℕ → TtlTypes → ℕ → Entry
make_entry w raw value ttl_type expires_at = record {
  type = raw;
  counter = 0;
  buffer = value;
  ttl_type = ttl_type;
  expires_at = expires_at;
}
make_entry w type value ttl_type expires_at = record {
  type = type;
  counter = le_value (take w value);
  buffer = [];
  ttl_type = ttl_type;
  expires_at = expires_at;
}

-- entry::update_buffer
abbrev pub update_buffer : Entry → List ℕ → Entry
update_buffer e value = record e { buffer = value }

-- `reads_.fetch_add(1)` and `writes_.fetch_add(1)`
abbrev pub add_read : EntryWrapper → EntryWrapper
add_read e = record e { metrics = record e.metrics { reads = (e.metrics.reads + 1) % u64_mod } }

abbrev pub add_write : EntryWrapper → EntryWrapper
add_write e = record e { metrics = record e.metrics { writes = (e.metrics.writes + 1) % u64_mod } }

abbrev pub no_metrics : EntryMetrics
no_metrics = record {
  reads = 0;
  writes = 0;
  reads_accumulator = 0;
  writes_accumulator = 0;
  reads_per_minute = 0;
  writes_per_minute = 0;
}

-- The constructor of the wrapper counts one write.
unfoldable pub make_wrapper : ℕ → Key → EntryTypes → List ℕ → TtlTypes → ℕ → EntryWrapper
make_wrapper w k type value ttl_type expires_at = add_write (record {
  key = k;
  entry = make_entry w type value ttl_type expires_at;
  expired = false;
  metrics = no_metrics;
})
