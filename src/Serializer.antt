-- ===== src/Serializer.antt =====
-- src/sources/storage_serializer.cpp: the dump file, as a list of bytes. A writer takes the bytes
-- that are written after it. A reader returns what it read and the bytes that are left. The codes of
-- the enumerations belong to the protocol library. The host is little-endian, as `bit_cast` takes it.
pub mod Parsing
pub mod Restoring
use throttr.Prelude.{
  ℕ, zero, suc, ◌+◌, ◌%◌, ◌^◌, List, [], ◌∷◌, ◌++◌, Option, none, some, Bool, true, false, not,
  ◌==◌, ◌⊎◌, inl, inr, length, replicate, bytes_eq, if◌then◌else◌,
}
use throttr.Prelude.Bytes.{le_value, le_bytes}
use throttr.Protocol.{TtlTypes, EntryTypes, counter, raw, value_mod}
use throttr.Entry.{Key, Entry, EntryMetrics, EntryWrapper, make_entry, make_wrapper}
use throttr.Storage.{HashedUnique}

-- The underlying values of entry_types and ttl_types, and the casts back.
pub record Codes : Type 0 where
  pub entry_code : EntryTypes → ℕ
  pub entry_type : ℕ → EntryTypes
  pub ttl_code : TtlTypes → ℕ
  pub ttl_type : ℕ → TtlTypes

-- What restore_from_file throws.
pub data SerializeException : Type 0 where
  unable_to_open invalid_format unsupported_version mismatched_value_size : SerializeException

-- "THRT"
abbrev pub magic : List ℕ
magic = 84 ∷ 72 ∷ 82 ∷ 84 ∷ []

abbrev pub version : ℕ
version = 1

-- write_raw of a value of n bytes.
abbrev pub write_raw : ℕ → ℕ → List ℕ → List ℕ
write_raw n value after = le_bytes n value ++ after

-- `in.get(c)`, which leaves c as it is at the end of the file.
unfoldable pub get_char : ℕ → List ℕ → ℕ × List ℕ
get_char c [] = (c, [])
get_char c (b ∷ bs) = (b, bs)

-- The bytes that read_raw collects: one `c` for all of them.
unfoldable pub get_chars : ℕ → ℕ → List ℕ → List ℕ × List ℕ
get_chars zero c bs = ([], bs)
get_chars (suc n) c bs =
    let (b, rest) = get_char c bs in let (later, left) = get_chars n b rest in (b ∷ later, left)

unfoldable pub read_raw : ℕ → List ℕ → ℕ × List ℕ
read_raw n bs = let (read, rest) = get_chars n 0 bs in (le_value read, rest)

-- read_bytes: a fresh `c` for each byte.
unfoldable pub read_bytes : ℕ → List ℕ → List ℕ × List ℕ
read_bytes zero bs = ([], bs)
read_bytes (suc n) bs =
    let (b, rest) = get_char 0 bs in let (later, left) = read_bytes n rest in (b ∷ later, left)

unfoldable pub write_metrics : EntryMetrics → List ℕ → List ℕ
write_metrics m after = write_raw 8 m.reads (
    write_raw 8 m.writes (
      write_raw 8 m.reads_accumulator (
        write_raw 8 m.writes_accumulator
          (write_raw 8 m.reads_per_minute (write_raw 8 m.writes_per_minute after)))))

unfoldable pub read_metrics : List ℕ → EntryMetrics × List ℕ
read_metrics bs =
    let (a, i1) = read_raw 8 bs in
    let (b, i2) = read_raw 8 i1 in
    let (c, i3) = read_raw 8 i2 in
    let (d, i4) = read_raw 8 i3 in
    let (e, i5) = read_raw 8 i4 in
    let (f, i6) = read_raw 8 i5 in
    (
      record {
        reads = a;
        writes = b;
        reads_accumulator = c;
        writes_accumulator = d;
        reads_per_minute = e;
        writes_per_minute = f;
      },
      i6,
    )

-- What follows the metrics: a counter, a size and a buffer, or nothing.
unfoldable pub write_value : ℕ → Entry → EntryTypes → List ℕ → List ℕ
write_value w e counter after = write_raw w e.counter after
write_value w e raw after = write_raw w (length e.buffer % value_mod w) (e.buffer ++ after)
write_value w e (EntryTypes.other n) after = after

unfoldable pub read_value : ℕ → Entry → EntryTypes → List ℕ → Entry × List ℕ
read_value w e counter bs = let (v, rest) = read_raw w bs in (record e { counter = v }, rest)
read_value w e raw bs =
    let (size, i1) = read_raw w bs in
    let (buffer, i2) = read_bytes size i1 in (record e { buffer = buffer }, i2)
read_value w e (EntryTypes.other n) bs = (e, bs)

-- One entry that the loop of restore_from_file has read: what it emplaces, and `_new_entry` and
-- `_metrics`, which it has filled.
pub record Restored : Type 0 where
  pub key : Key
  pub type : EntryTypes
  pub ttl_type : TtlTypes
  pub expires_at : ℕ
  pub new_entry : Entry
  pub metrics : EntryMetrics

-- `_value`: as many zeros as a value_type has bytes.
abbrev pub zeros : ℕ → List ℕ
zeros w = replicate w 0

module _ (w : ℕ) (codes : Codes) where
  -- The body of the second loop of dump_to_file, for an entry that has not expired.
  unfoldable pub dump_entry : EntryWrapper → List ℕ → List ℕ
  dump_entry e after = write_raw 2 (length e.key % 2 ^ 16) (
      e.key
      ++ write_raw 8 e.entry.expires_at (
          write_raw 1 (codes.entry_code e.entry.type) (
            write_raw 1 (codes.ttl_code e.entry.ttl_type)
              (write_metrics e.metrics (write_value w e.entry e.entry.type after)))))

  unfoldable pub dump_entries : List EntryWrapper → List ℕ
  dump_entries [] = []
  dump_entries (e ∷ es) =
      let rest = dump_entries es in if e.expired then rest else dump_entry e rest

  -- `_count`, a uint32_t.
  unfoldable pub count : List EntryWrapper → ℕ
  count [] = 0
  count (e ∷ es) = let rest = count es in if e.expired then rest else (rest + 1) % 2 ^ 32

  -- dump_to_file, of the elements in the order of iteration: the file that it writes.
  unfoldable pub dump_to_file : List EntryWrapper → List ℕ
  dump_to_file items =
      magic ++ write_raw 1 version (write_raw 1 w (write_raw 4 (count items) (dump_entries items)))

  -- The reads of one round of restore_from_file.
  unfoldable pub read_entry : List ℕ → Restored × List ℕ
  read_entry bs =
      let (key_size, i1) = read_raw 2 bs in
      let (key, i2) = read_bytes key_size i1 in
      let (expires_at, i3) = read_raw 8 i2 in
      let (type_raw, i4) = read_raw 1 i3 in
      let (ttl_raw, i5) = read_raw 1 i4 in
      let (metrics, i6) = read_metrics i5 in
      let type = codes.entry_type type_raw in
      let ttl_type = codes.ttl_type ttl_raw in
      let (new_entry, i7) =
        read_value w (make_entry w type (zeros w) ttl_type expires_at) type i6 in
      (
        record {
          key = key;
          type = type;
          ttl_type = ttl_type;
          expires_at = expires_at;
          new_entry = new_entry;
          metrics = metrics;
        },
        i7,
      )

  -- What a round emplaces: the key, the type, `_value`, the unit and the expiration point.
  unfoldable pub emplaced : Restored → EntryWrapper
  emplaced r = make_wrapper w r.key r.type (zeros w) r.ttl_type r.expires_at

  module _ {S : Type 0} (c : HashedUnique S) where
    unfoldable pub restore_entries : ℕ → S → List ℕ → S
    restore_entries zero s bs = s
    restore_entries (suc n) s bs =
        let (r, rest) = read_entry bs in restore_entries n (c.emplace s (emplaced r)).0 rest

    -- restore_from_file; `none` is a file that cannot be opened.
    unfoldable pub restore_from_file : S → Option (List ℕ) → SerializeException ⊎ S
    restore_from_file s none = inl unable_to_open
    restore_from_file s (some file) =
        let (magic_read, i1) = read_bytes 4 file in
        let (version_read, i2) = read_raw 1 i1 in
        let (value_size, i3) = read_raw 1 i2 in
        let (n, i4) = read_raw 4 i3 in
        if not (bytes_eq magic_read magic)
        then inl invalid_format
        else if not (version_read == version)
        then inl unsupported_version
        else if not (value_size == w)
        then inl mismatched_value_size
        else inr (restore_entries n s i4)
