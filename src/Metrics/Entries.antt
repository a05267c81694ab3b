-- ===== src/Metrics/Entries.antt =====
-- What the run of the metrics collector does to the entries.
use mathlib.Core.Option
use throttr.Prelude.{◌+◌, ◌%◌, ◌^◌, false, Option, none, some, ◌≡◌, refl, sym, ◌∙◌, ap, arith}
use throttr.Protocol.{u64_mod}
use throttr.Entry.{Key, EntryWrapper, EntryMetrics}
use throttr.Storage.{HashedUnique, find_key}
use throttr.Storage.Find.{find_key-map}
use throttr.Storage.Views.{view, contents}
use throttr.Metrics.{MetricsState, snapshot_metrics, snapshot_entry, run}

-- What a snapshot leaves of the counters of an entry: nothing is lost, and nothing counts twice.
abbrev pub Conserved : EntryMetrics → EntryMetrics → Type 0
Conserved m m' =
    ((m'.reads_accumulator + m'.reads) % u64_mod ≡ (m.reads_accumulator + m.reads) % u64_mod)
    × ((m'.writes_accumulator + m'.writes) % u64_mod ≡ (m.writes_accumulator + m.writes) % u64_mod)

-- The counts start again from 0, and have become the rates and been added to the accumulators.
pub record Moved (m m' : EntryMetrics) : Type 0 where
  pub reads_eq : m'.reads ≡ 0
  pub writes_eq : m'.writes ≡ 0
  pub reads_accumulator_eq : m'.reads_accumulator ≡ (m.reads_accumulator + m.reads) % 2 ^ 64
  pub writes_accumulator_eq : m'.writes_accumulator ≡ (m.writes_accumulator + m.writes) % 2 ^ 64
  pub reads_per_minute_eq : m'.reads_per_minute ≡ m.reads
  pub writes_per_minute_eq : m'.writes_per_minute ≡ m.writes

snapshot_entry-key : (e : EntryWrapper) → (snapshot_entry e).key ≡ e.key
unfolding snapshot_entry
snapshot_entry-key e = refl

snapshot_metrics_lem :
    (m : EntryMetrics) → Conserved m (snapshot_metrics m) × Moved m (snapshot_metrics m)
unfolding snapshot_metrics
snapshot_metrics_lem m = (
  (omega arith, omega arith),
  record {
    reads_eq = refl;
    writes_eq = refl;
    reads_accumulator_eq = refl;
    writes_accumulator_eq = refl;
    reads_per_minute_eq = refl;
    writes_per_minute_eq = refl;
  },
)

module _ {S : Type 0} (c : HashedUnique S) where
  find-run :
      (st : MetricsState S) (k : Key)
      → c.find (run c st).storage k ≡ Option.map snapshot_entry (c.find st.storage k)
  unfolding run
  find-run st k =
      c.find-items _ k
      ∙ ap (find_key k) (c.items-for_each st.storage snapshot_entry snapshot_entry-key)
      ∙ find_key-map snapshot_entry snapshot_entry-key k (c.items st.storage)
      ∙ ap (Option.map snapshot_entry) (sym (c.find-items st.storage k))

  contents-snapshot :
      (o : Option EntryWrapper) → contents (Option.map snapshot_entry o) ≡ contents o
  unfolding snapshot_entry
  contents-snapshot none = refl
  contents-snapshot (some e) = refl

  -- A snapshot takes the reads and writes of a live entry over as its rates per minute, adds them
  -- to its accumulators, on 64 bits, and sets them to 0, so that the sums of count and
  -- accumulator stay as they were on 64 bits; it changes no contents of any key.
  pub run_lem :
      (st : MetricsState S) (k : Key) (e : EntryWrapper)
      → c.find st.storage k ≡ some e
      → e.expired ≡ false
      → ((e' : EntryWrapper) × (c.find (run c st).storage k ≡ some e')
          × Conserved e.metrics e'.metrics
          × Moved e.metrics e'.metrics)
        × ((j : Key) → view c (run c st).storage j ≡ view c st.storage j)
  unfolding snapshot_entry view
  run_lem st k e found live =
      let (conserved, moved) = snapshot_metrics_lem e.metrics in
      (
        (
          record e { metrics = snapshot_metrics e.metrics },
          find-run st k ∙ rw (found, live) refl,
          conserved,
          moved,
        ),
        λ j. ap contents (find-run st j) ∙ contents-snapshot (c.find st.storage j),
      )
