-- ===== src/Metrics.antt =====
-- src/include/throttr/metric.hpp, connection_metrics.hpp and
-- src/sources/services/metrics_collector_service.cpp: counters of events, and the snapshot of them
-- that a timer takes once a minute.
pub mod Snapshots
pub mod Entries
use throttr.Prelude.{
  ℕ, ◌+◌, ◌%◌, List, [], ◌∷◌, ◌++◌, Bool, true, false, map, replicate, if◌then◌else◌,
}
use throttr.Protocol.{u64_mod}
use throttr.Entry.{EntryWrapper, EntryMetrics}
use throttr.Storage.{HashedUnique}
use throttr.Subscriptions.{ConnectionMap}

pub record Metric : Type 0 where
  pub count : ℕ
  pub accumulator : ℕ
  pub per_minute : ℕ

-- metric::mark
unfoldable pub mark : ℕ → Metric → Metric
mark step m = record m {
  count = (m.count + step) % u64_mod;
  accumulator = (m.accumulator + step) % u64_mod;
}

-- metric::compute
unfoldable pub compute : Metric → Metric
compute m = record m { count = 0; per_minute = m.count }

-- The move constructor, which leaves the other as it is.
unfoldable pub move_metric : Metric → Metric
move_metric other = record {
  count = other.count;
  accumulator = other.accumulator;
  per_minute = other.per_minute;
}

-- The move assignment; the flag is `this == &other`.
unfoldable pub move_assign_metric : Bool → Metric → Metric → Metric
move_assign_metric same m other = if same then m else record {
  count = other.count;
  accumulator = other.accumulator;
  per_minute = other.per_minute;
}

-- The copy constructor.
unfoldable pub copy_metric : Metric → Metric
copy_metric other = record {
  count = other.count;
  accumulator = other.accumulator;
  per_minute = other.per_minute;
}

-- The copy assignment.
unfoldable pub assign_metric : Bool → Metric → Metric → Metric
assign_metric same m other = if same then m else record {
  count = other.count;
  accumulator = other.accumulator;
  per_minute = other.per_minute;
}

pub record ConnectionNetworkMetrics : Type 0 where
  pub read_bytes : Metric
  pub write_bytes : Metric
  pub published_bytes : Metric
  pub received_bytes : Metric

pub record ConnectionMemoryMetrics : Type 0 where
  pub allocated_bytes : Metric
  pub consumed_bytes : Metric

pub record ConnectionMetrics : Type 0 where
  pub network : ConnectionNetworkMetrics
  pub memory : ConnectionMemoryMetrics
  -- 32 of them
  pub commands : List Metric

-- The metrics of the connections in the four maps of the state, and the collector's commands_.
pub record MetricsState (S : Type 0) : Type 0 where
  pub storage : S
  pub connections : ConnectionMap → List ConnectionMetrics
  pub commands : List Metric

abbrev pub no_metric : Metric
no_metric = record { count = 0; accumulator = 0; per_minute = 0 }

-- The metrics of a new connection.
abbrev pub new_connection_metrics : ConnectionMetrics
new_connection_metrics = record {
  network = record {
    read_bytes = no_metric;
    write_bytes = no_metric;
    published_bytes = no_metric;
    received_bytes = no_metric;
  };
  memory = record { allocated_bytes = no_metric; consumed_bytes = no_metric };
  commands = replicate 32 no_metric;
}

-- What the loop of `run` does to an entry.
unfoldable pub snapshot_metrics : EntryMetrics → EntryMetrics
snapshot_metrics m = record {
  reads = 0;
  writes = 0;
  reads_accumulator = (m.reads_accumulator + m.reads) % u64_mod;
  writes_accumulator = (m.writes_accumulator + m.writes) % u64_mod;
  reads_per_minute = m.reads;
  writes_per_minute = m.writes;
}

unfoldable pub snapshot_entry : EntryWrapper → EntryWrapper
snapshot_entry e = record e {
  metrics = if e.expired then e.metrics else snapshot_metrics e.metrics;
}

-- metrics_collector_service::compute_all
unfoldable pub compute_all : List Metric → List Metric
compute_all ms = map compute ms

abbrev pub compute_commands : ConnectionMetrics → ConnectionMetrics
compute_commands m = record m { commands = compute_all m.commands }

-- The lambda `_compute_metrics`.
unfoldable pub compute_metrics : List ConnectionMetrics → List ConnectionMetrics
compute_metrics cs = map compute_commands cs

-- metrics_collector_service::run
unfoldable pub run : {S : Type 0} → HashedUnique S → MetricsState S → MetricsState S
run c st = record {
  storage = c.for_each st.storage snapshot_entry;
  connections = λ m. compute_metrics (st.connections m);
  commands = compute_all st.commands;
}

-- What schedule_timer lets the timer do a minute later: the state, and whether it is armed again.
unfoldable pub on_timer :
    {S : Type 0} → HashedUnique S → Bool → MetricsState S → MetricsState S × Bool
on_timer c failed st = if failed then (st, false) else (run c st, true)
