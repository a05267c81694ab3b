-- ===== src/Serializer/Parsing.antt =====
-- What a reader gets of what a writer wrote.
use native.Mathlib.Nat.{mod-eq_of_lt}
use throttr.Prelude.{
  ℕ, zero, suc, ◌^◌, ◌<◌, List, [], ◌∷◌, ◌++◌, ◌≡◌, refl, sym, ◌∙◌, ap, arith, length, take,
}
use throttr.Prelude.Bytes.{le_value, le_bytes, length-le_bytes, le_value-le_bytes}
use throttr.Protocol.{EntryTypes, counter, raw, value_mod, u64_mod}
use throttr.Entry.{Entry, EntryMetrics, EntryWrapper, make_entry}
use throttr.Serializer.{
  Codes, write_raw, get_char, get_chars, read_raw, read_bytes, write_metrics, read_metrics,
  write_value, read_value, Restored, zeros, dump_entry, read_entry,
}

get_chars-append :
    (bs : List ℕ) (c : ℕ) (rest : List ℕ) → get_chars (length bs) c (bs ++ rest) ≡ (bs, rest)
unfolding get_chars get_char
get_chars-append [] c rest = refl
get_chars-append (b ∷ bs) c rest = rw (get_chars-append bs b rest)

pub read_bytes-append : (bs rest : List ℕ) → read_bytes (length bs) (bs ++ rest) ≡ (bs, rest)
unfolding read_bytes get_char
read_bytes-append [] rest = refl
read_bytes-append (b ∷ bs) rest = rw (read_bytes-append bs rest)

get_chars-le_bytes :
    (n v c : ℕ) (rest : List ℕ) → get_chars n c (le_bytes n v ++ rest) ≡ (le_bytes n v, rest)
get_chars-le_bytes n v c rest =
    ap (λ (k : ℕ). get_chars k c (le_bytes n v ++ rest)) (sym (length-le_bytes n v))
    ∙ get_chars-append (le_bytes n v) c rest

pub read_raw-write_raw :
    (n v : ℕ) (rest : List ℕ) → v < 256 ^ n → read_raw n (write_raw n v rest) ≡ (v, rest)
unfolding read_raw
read_raw-write_raw n v rest h =
    rw (get_chars-le_bytes n v 0 rest) (rw (le_value-le_bytes n v h) refl)

-- Counters of 64 bits.
pub record IsMetrics (m : EntryMetrics) : Type 0 where
  pub reads_fit : m.reads < u64_mod
  pub writes_fit : m.writes < u64_mod
  pub reads_accumulator_fit : m.reads_accumulator < u64_mod
  pub writes_accumulator_fit : m.writes_accumulator < u64_mod
  pub reads_per_minute_fit : m.reads_per_minute < u64_mod
  pub writes_per_minute_fit : m.writes_per_minute < u64_mod

read_metrics-write_metrics :
    (m : EntryMetrics) (rest : List ℕ)
    → IsMetrics m
    → read_metrics (write_metrics m rest) ≡ (m, rest)
unfolding read_metrics write_metrics
read_metrics-write_metrics m rest h =
    let i6 : List ℕ = write_raw 8 m.writes_per_minute rest in
    let i5 : List ℕ = write_raw 8 m.reads_per_minute i6 in
    let i4 : List ℕ = write_raw 8 m.writes_accumulator i5 in
    let i3 : List ℕ = write_raw 8 m.reads_accumulator i4 in
    let i2 : List ℕ = write_raw 8 m.writes i3 in
    rw (
      read_raw-write_raw 8 m.reads i2 (omega (arith, h.reads_fit)),
      read_raw-write_raw 8 m.writes i3 (omega (arith, h.writes_fit)),
      read_raw-write_raw 8 m.reads_accumulator i4 (omega (arith, h.reads_accumulator_fit)),
      read_raw-write_raw 8 m.writes_accumulator i5 (omega (arith, h.writes_accumulator_fit)),
      read_raw-write_raw 8 m.reads_per_minute i6 (omega (arith, h.reads_per_minute_fit)),
      read_raw-write_raw 8 m.writes_per_minute rest (omega (arith, h.writes_per_minute_fit)),
    )

-- A value that its type has room for, with nothing in the fields of the other types.
abbrev pub IsValue : ℕ → Entry → EntryTypes → Type 0
IsValue w e counter = (e.counter < value_mod w) × (e.buffer ≡ [])
IsValue w e raw = (length e.buffer < value_mod w) × (e.counter ≡ 0)
IsValue w e (EntryTypes.other n) = (e.counter ≡ 0) × (e.buffer ≡ [])

zero_value : (w : ℕ) → le_value (take w (zeros w)) ≡ 0
unfolding le_value
zero_value zero = refl
zero_value (suc w) = omega (arith, zero_value w)

read_value-write_value :
    (w : ℕ) (e : Entry) (t : EntryTypes) (rest : List ℕ)
    → e.type ≡ t
    → IsValue w e t
    → read_value w (make_entry w t (zeros w) e.ttl_type e.expires_at) t (write_value w e t rest)
      ≡ (e, rest)
unfolding read_value write_value make_entry
read_value-write_value w e counter rest same h =
    rw (read_raw-write_raw w e.counter rest h.0) (rw (sym same, sym h.1) refl)
read_value-write_value w e raw rest same h =
    rw
      (
        mod-eq_of_lt {n = length e.buffer} {m = value_mod w} h.0,
        read_raw-write_raw w (length e.buffer) (e.buffer ++ rest) h.0,
        read_bytes-append e.buffer rest,
      )
      (rw (sym same, sym h.1) refl)
read_value-write_value w e (EntryTypes.other n) rest same h =
    rw (zero_value w) (rw (sym same, sym h.0, sym h.1) refl)

-- What a dump can hold: sizes and numbers that fit their fields, and codes that are read back.
pub record IsDumpable (w : ℕ) (codes : Codes) (e : EntryWrapper) : Type 0 where
  pub key_fits : length e.key < 2 ^ 16
  pub point_fits : e.entry.expires_at < u64_mod
  pub type_coded : codes.entry_type (codes.entry_code e.entry.type) ≡ e.entry.type
  pub type_byte : codes.entry_code e.entry.type < 256
  pub unit_coded : codes.ttl_type (codes.ttl_code e.entry.ttl_type) ≡ e.entry.ttl_type
  pub unit_byte : codes.ttl_code e.entry.ttl_type < 256
  pub metrics_fit : IsMetrics e.metrics
  pub value_fits : IsValue w e.entry e.entry.type

-- The fields of an entry, as a round of restore_from_file reads them.
abbrev pub fields_of : EntryWrapper → Restored
fields_of e = record {
  key = e.key;
  type = e.entry.type;
  ttl_type = e.entry.ttl_type;
  expires_at = e.entry.expires_at;
  new_entry = e.entry;
  metrics = e.metrics;
}

-- A round of restore_from_file reads of what a round of dump_to_file wrote the whole entry, its
-- counter or buffer and its metrics included, and the rest of the file; where the dump can hold
-- the entry.
pub read_entry-dump_entry :
    (w : ℕ) (codes : Codes) (e : EntryWrapper) (rest : List ℕ)
    → IsDumpable w codes e
    → read_entry w codes (dump_entry w codes e rest) ≡ (fields_of e, rest)
unfolding read_entry dump_entry
read_entry-dump_entry w codes e rest h =
    let i7 : List ℕ = write_value w e.entry e.entry.type rest in
    let i6 : List ℕ = write_metrics e.metrics i7 in
    let i5 : List ℕ = write_raw 1 (codes.ttl_code e.entry.ttl_type) i6 in
    let i4 : List ℕ = write_raw 1 (codes.entry_code e.entry.type) i5 in
    let i3 : List ℕ = write_raw 8 e.entry.expires_at i4 in
    rw (
      mod-eq_of_lt {n = length e.key} {m = 2 ^ 16} h.key_fits,
      read_raw-write_raw 2 (length e.key) (e.key ++ i3) (omega (arith, h.key_fits)),
      read_bytes-append e.key i3,
      read_raw-write_raw 8 e.entry.expires_at i4 (omega (arith, h.point_fits)),
      read_raw-write_raw 1 (codes.entry_code e.entry.type) i5 (omega (arith, h.type_byte)),
      read_raw-write_raw 1 (codes.ttl_code e.entry.ttl_type) i6 (omega (arith, h.unit_byte)),
      read_metrics-write_metrics e.metrics i7 h.metrics_fit,
      h.type_coded,
      h.unit_coded,
      read_value-write_value w e.entry e.entry.type rest refl h.value_fits,
    )
