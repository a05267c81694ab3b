-- ===== src/Info.antt =====
-- src/sources/commands/info_command.cpp: the totals of the server.
pub mod Totals
pub mod Rates
pub mod Sums
pub mod Report
use throttr.Prelude.{
  ℕ, ◌+◌, ◌*◌, ◌%◌, List, [], ◌∷◌, ◌++◌, Bool, true, false, length, take, get_or, replicate, ◌-◌,
  if◌then◌else◌,
}
use throttr.Prelude.Bytes.{le_bytes}
use throttr.Protocol.{u64_mod, RequestTypes}
use throttr.Protocol.{
  insert, query, update, set, get, purge, stat, list, stats, connections, connection, whoami,
  subscribe, unsubscribe, publish, channels, channel, info,
}
use throttr.Entry.{EntryWrapper, is_counter}
use throttr.Storage.{HashedUnique}
use throttr.State.{success_response}
use throttr.Subscriptions.{Subscription, tcp, unix, agent_tcp, agent_unix}
use throttr.Metrics.{Metric, no_metric, ConnectionMetrics, MetricsState}
use throttr.Reports.{Output, grow, point, put}

-- uint64_t additions.
abbrev pub plus : ℕ → ℕ → ℕ
plus a b = (a + b) % u64_mod

-- `_total_requests` and `_total_requests_per_minute`.
unfoldable pub total_requests : List Metric → ℕ → ℕ
total_requests [] sum = sum
total_requests (m ∷ ms) sum = total_requests ms (plus sum m.accumulator)

unfoldable pub total_requests_per_minute : List Metric → ℕ → ℕ
total_requests_per_minute [] sum = sum
total_requests_per_minute (m ∷ ms) sum = total_requests_per_minute ms (plus sum m.per_minute)

-- The types in the order in which they are reported.
abbrev pub reported_types : List RequestTypes
reported_types =
    insert ∷ query ∷ update ∷ purge ∷ get ∷ set ∷ list ∷ info ∷ stats ∷ stat ∷ subscribe
    ∷ unsubscribe ∷ publish ∷ channel ∷ channels ∷ whoami ∷ connection ∷ connections ∷ []

unfoldable pub per_type : (RequestTypes → ℕ) → List Metric → List RequestTypes → List ℕ
per_type code metrics [] = []
per_type code metrics (t ∷ ts) =
    let m = get_or metrics (code t) no_metric in
    m.accumulator ∷ m.per_minute ∷ per_type code metrics ts

-- What `_accumulate_metrics` adds up.
pub record Traffic : Type 0 where
  pub read : ℕ
  pub write : ℕ
  pub read_per_minute : ℕ
  pub write_per_minute : ℕ

unfoldable pub accumulate_metrics : List ConnectionMetrics → Traffic → Traffic
accumulate_metrics [] t = t
accumulate_metrics (x ∷ xs) t = accumulate_metrics xs (record {
  read = plus t.read x.network.read_bytes.accumulator;
  write = plus t.write x.network.write_bytes.accumulator;
  read_per_minute = plus t.read_per_minute x.network.read_bytes.per_minute;
  write_per_minute = plus t.write_per_minute x.network.write_bytes.per_minute;
})

abbrev pub no_traffic : Traffic
no_traffic = record { read = 0; write = 0; read_per_minute = 0; write_per_minute = 0 }

unfoldable pub total_traffic : {S : Type 0} → MetricsState S → Traffic
total_traffic st = accumulate_metrics (st.connections agent_unix) (
    accumulate_metrics (st.connections unix) (
      accumulate_metrics (st.connections agent_tcp)
        (accumulate_metrics (st.connections tcp) no_traffic)))

-- What the loop over the storage counts.
pub record Stored : Type 0 where
  pub keys : ℕ
  pub counters : ℕ
  pub buffers : ℕ
  pub allocated_on_counters : ℕ
  pub allocated_on_buffers : ℕ

abbrev pub nothing_stored : Stored
nothing_stored = record {
  keys = 0;
  counters = 0;
  buffers = 0;
  allocated_on_counters = 0;
  allocated_on_buffers = 0;
}

unfoldable pub count_one : ℕ → EntryWrapper → Stored → Stored
count_one w e t =
    let is_a_counter = is_counter e.entry.type in
    record {
      keys = plus t.keys 1;
      counters = if is_a_counter then plus t.counters 1 else t.counters;
      buffers = if is_a_counter then t.buffers else plus t.buffers 1;
      allocated_on_counters =
          if is_a_counter then plus t.allocated_on_counters w else t.allocated_on_counters;
      allocated_on_buffers =
          if is_a_counter
          then t.allocated_on_buffers
          else plus t.allocated_on_buffers (length e.entry.buffer);
    }

unfoldable pub count_stored : ℕ → List EntryWrapper → Stored → Stored
count_stored w [] t = t
count_stored w (e ∷ es) t = count_stored w es (count_one w e t)

-- The copies of 8 bytes, one after the other.
unfoldable pub put_words : List ℕ → Output → Output
put_words [] o = o
put_words (v ∷ vs) o = put_words vs (put (le_bytes 8 v) o)

-- The version, cut or filled up with zeros to 16 bytes.
unfoldable pub version_bytes : List ℕ → List ℕ
version_bytes version = take 16 version ++ replicate (16 - length version) 0

module _ {S : Type 0} (c : HashedUnique S) where
  -- The words of the response, in their order. `existing_keys` is the size of the std::set of
  -- channel names, which is compared by std::equal_to: the library promises nothing for it.
  unfoldable pub info_words :
      ℕ
      → (RequestTypes → ℕ)
      → (List Subscription → ℕ)
      → ℕ
      → ℕ
      → MetricsState S
      → List Subscription
      → List ℕ
  info_words w code existing_keys now started_at st subscriptions =
      let traffic = total_traffic st in
      let stored = count_stored w (c.items st.storage) nothing_stored in
      now
      ∷ total_requests st.commands 0
      ∷ total_requests_per_minute st.commands 0
      ∷ (per_type code st.commands reported_types
          ++ (traffic.read
              ∷ traffic.read_per_minute
              ∷ traffic.write
              ∷ traffic.write_per_minute
              ∷ stored.keys
              ∷ stored.counters
              ∷ stored.buffers
              ∷ stored.allocated_on_counters
              ∷ stored.allocated_on_buffers
              ∷ length subscriptions
              ∷ existing_keys subscriptions
              ∷ started_at
              ∷ (length (st.connections tcp)
                  + length (st.connections unix)
                  + length (st.connections agent_tcp)
                  + length (st.connections agent_unix))
              ∷ []))

  -- info_command::call
  unfoldable pub info_command :
      ℕ
      → (RequestTypes → ℕ)
      → (List Subscription → ℕ)
      → ℕ
      → ℕ
      → List ℕ
      → MetricsState S
      → List Subscription
      → Output
      → Output
  info_command w code existing_keys now started_at version st subscriptions o =
      put (version_bytes version) (
        put_words (info_words w code existing_keys now started_at st subscriptions)
          (point (success_response ∷ []) (grow 54 432 o)))
