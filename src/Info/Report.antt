-- ===== src/Info/Report.antt =====
-- The response of info against sums over the connections, the entries and the metrics.
use throttr.Prelude.{ℕ, ◌%◌, ◌^◌, List, [], ◌∷◌, ◌++◌, length, get_or, if◌then◌else◌}
use throttr.Protocol.{
  RequestTypes, insert, query, update, set, get, purge, stat, list, stats, connections, connection,
  whoami, subscribe, unsubscribe, publish, channels, channel, info,
}
use throttr.Entry.{EntryWrapper, is_counter}
use throttr.Storage.{HashedUnique}
use throttr.Subscriptions.{Subscription, tcp, unix, agent_tcp, agent_unix}
use throttr.Metrics.{Metric, no_metric, ConnectionMetrics, MetricsState}
use throttr.Info.Sums.{total}

module _ {S : Type 0} (c : HashedUnique S) where
  -- The connections of the four maps.
  abbrev pub connected : MetricsState S → List ConnectionMetrics
  connected st =
      st.connections tcp
      ++ (st.connections agent_tcp ++ (st.connections unix ++ st.connections agent_unix))

  -- The words that a client is to read.
  unfoldable pub report :
      ℕ → (RequestTypes → ℕ) → ℕ → ℕ → ℕ → MetricsState S → List Subscription → List ℕ
  report w code names now started_at st subscriptions =
      let m : RequestTypes → Metric = λ t. get_or st.commands (code t) no_metric in
      let items : List EntryWrapper = c.items st.storage in
      now
      ∷ total (λ m. m.accumulator) st.commands % 2 ^ 64
      ∷ total (λ m. m.per_minute) st.commands % 2 ^ 64
      ∷ (m insert).accumulator
      ∷ (m insert).per_minute
      ∷ (m query).accumulator
      ∷ (m query).per_minute
      ∷ (m update).accumulator
      ∷ (m update).per_minute
      ∷ (m purge).accumulator
      ∷ (m purge).per_minute
      ∷ (m get).accumulator
      ∷ (m get).per_minute
      ∷ (m set).accumulator
      ∷ (m set).per_minute
      ∷ (m list).accumulator
      ∷ (m list).per_minute
      ∷ (m info).accumulator
      ∷ (m info).per_minute
      ∷ (m stats).accumulator
      ∷ (m stats).per_minute
      ∷ (m stat).accumulator
      ∷ (m stat).per_minute
      ∷ (m subscribe).accumulator
      ∷ (m subscribe).per_minute
      ∷ (m unsubscribe).accumulator
      ∷ (m unsubscribe).per_minute
      ∷ (m publish).accumulator
      ∷ (m publish).per_minute
      ∷ (m channel).accumulator
      ∷ (m channel).per_minute
      ∷ (m channels).accumulator
      ∷ (m channels).per_minute
      ∷ (m whoami).accumulator
      ∷ (m whoami).per_minute
      ∷ (m connection).accumulator
      ∷ (m connection).per_minute
      ∷ (m connections).accumulator
      ∷ (m connections).per_minute
      ∷ total (λ x. x.network.read_bytes.accumulator) (connected st) % 2 ^ 64
      ∷ total (λ x. x.network.read_bytes.per_minute) (connected st) % 2 ^ 64
      ∷ total (λ x. x.network.write_bytes.accumulator) (connected st) % 2 ^ 64
      ∷ total (λ x. x.network.write_bytes.per_minute) (connected st) % 2 ^ 64
      ∷ total (λ e. 1) items % 2 ^ 64
      ∷ total (λ e. if is_counter e.entry.type then 1 else 0) items % 2 ^ 64
      ∷ total (λ e. if is_counter e.entry.type then 0 else 1) items % 2 ^ 64
      ∷ total (λ e. if is_counter e.entry.type then w else 0) items % 2 ^ 64
      ∷ total (λ e. if is_counter e.entry.type then 0 else length e.entry.buffer) items % 2 ^ 64
      ∷ length subscriptions
      ∷ names
      ∷ started_at
      ∷ length (connected st)
      ∷ []
