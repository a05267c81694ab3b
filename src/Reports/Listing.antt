-- ===== src/Reports/Listing.antt =====
-- What clients get of list and of stats.
use throttr.Prelude.{ℕ, ◌^◌, ◌<◌, List, length, take, drop, get_or}
use throttr.Prelude.Bytes.{le_value}
use throttr.Protocol.{TtlTypes, EntryTypes, value_mod}
use throttr.Entry.{Key, EntryWrapper}
use throttr.Reports.{bytes_used}

-- The type, the unit, the expiration point and the bytes that are used.
abbrev pub ListData : Type 0
ListData = ℕ × ℕ × ℕ × ℕ

abbrev pub read_list : ℕ → List ℕ → (ℕ × ListData) × List ℕ
read_list w bs =
    let behind = drop 3 bs in
    (
      (
        get_or bs 0 0,
        (get_or bs 1 0, get_or bs 2 0, le_value (take 8 behind), le_value (take w (drop 8 behind))),
      ),
      drop w (drop 8 behind),
    )

abbrev pub list_data : ℕ → (EntryTypes → ℕ) → (TtlTypes → ℕ) → EntryWrapper → ListData
list_data w type_code unit_code e =
    (type_code e.entry.type, unit_code e.entry.ttl_type, e.entry.expires_at, bytes_used w e)

abbrev pub list_row : ℕ → (EntryTypes → ℕ) → (TtlTypes → ℕ) → EntryWrapper → Key × ListData
list_row w type_code unit_code e = (e.key, list_data w type_code unit_code e)

-- The numbers of an entry fit into their fields.
abbrev pub FitsList : ℕ → EntryWrapper → Type 0
FitsList w e =
    (length e.key < 256) × (e.entry.expires_at < 256 ^ 8) × (bytes_used w e < value_mod w)

-- The reads and writes of the last minute, and of all time.
abbrev pub StatsData : Type 0
StatsData = ℕ × ℕ × ℕ × ℕ

abbrev pub read_stats : List ℕ → (ℕ × StatsData) × List ℕ
read_stats bs =
    let b1 = drop 1 bs in
    let b2 = drop 8 b1 in
    let b3 = drop 8 b2 in
    let b4 = drop 8 b3 in
    (
      (
        get_or bs 0 0,
        (le_value (take 8 b1), le_value (take 8 b2), le_value (take 8 b3), le_value (take 8 b4)),
      ),
      drop 8 b4,
    )

abbrev pub stats_data : EntryWrapper → StatsData
stats_data e = (
  e.metrics.reads_per_minute, e.metrics.writes_per_minute, e.metrics.reads_accumulator,
  e.metrics.writes_accumulator,
)

abbrev pub FitsStats : EntryWrapper → Type 0
FitsStats e =
    (length e.key < 256)
    × (e.metrics.reads_per_minute < 256 ^ 8)
    × (e.metrics.writes_per_minute < 256 ^ 8)
    × (e.metrics.reads_accumulator < 256 ^ 8)
    × (e.metrics.writes_accumulator < 256 ^ 8)

abbrev pub stats_row : EntryWrapper → Key × StatsData
stats_row e = (e.key, stats_data e)
