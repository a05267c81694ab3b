-- ===== src/Info/Rates.antt =====
-- The traffic per minute that info reports: no code computes the rates of the network metrics.
use throttr.Prelude.{
  ℕ, List, [], ◌∷◌, ◌++◌, Bool, true, false, ◌≡◌, refl, arith, if◌then◌else◌, All,
}
use throttr.Storage.{HashedUnique}
use throttr.Subscriptions.{same_map, ConnectionMap, tcp, unix, agent_tcp, agent_unix}
use throttr.Metrics.{
  mark, ConnectionMetrics, MetricsState, compute_metrics, run, new_connection_metrics,
}
use throttr.Info.{Traffic, no_traffic, accumulate_metrics, total_traffic}

-- on_read and on_write count the bytes of a connection.
unfoldable pub mark_read : ℕ → ConnectionMetrics → ConnectionMetrics
mark_read n x = record x { network = record x.network { read_bytes = mark n x.network.read_bytes } }

unfoldable pub mark_write : ℕ → ConnectionMetrics → ConnectionMetrics
mark_write n x = record x {
  network = record x.network { write_bytes = mark n x.network.write_bytes };
}

unfoldable pub with_connections :
    {S : Type 0} → ConnectionMap → List ConnectionMetrics → MetricsState S → MetricsState S
with_connections m xs st = record st {
  connections = λ k. if same_map m k then xs else st.connections k;
}

-- What happens to the connections and their metrics: the collector runs, and connections come, go,
-- read and write.
pub data Step {S : Type 0} (c : HashedUnique S) : MetricsState S → MetricsState S → Type 0 where
  collects : (st : MetricsState S) → Step c st (run c st)
  joins :
      (st : MetricsState S) (m : ConnectionMap)
      → Step c st (with_connections m (new_connection_metrics ∷ st.connections m) st)
  leaves :
      (st : MetricsState S) (m : ConnectionMap) (before : List ConnectionMetrics)
      (x : ConnectionMetrics) (after : List ConnectionMetrics)
      → st.connections m ≡ before ++ x ∷ after
      → Step c st (with_connections m (before ++ after) st)
  reads :
      (st : MetricsState S) (m : ConnectionMap) (before : List ConnectionMetrics)
      (x : ConnectionMetrics) (after : List ConnectionMetrics) (n : ℕ)
      → st.connections m ≡ before ++ x ∷ after
      → Step c st (with_connections m (before ++ mark_read n x ∷ after) st)
  writes :
      (st : MetricsState S) (m : ConnectionMap) (before : List ConnectionMetrics)
      (x : ConnectionMetrics) (after : List ConnectionMetrics) (n : ℕ)
      → st.connections m ≡ before ++ x ∷ after
      → Step c st (with_connections m (before ++ mark_write n x ∷ after) st)

-- The states of a server that started without connections.
pub data Reachable {S : Type 0} (c : HashedUnique S) : MetricsState S → Type 0 where
  starts : (st : MetricsState S) → ((m : ConnectionMap) → st.connections m ≡ []) → Reachable c st
  goes_on : (st st' : MetricsState S) → Reachable c st → Step c st st' → Reachable c st'

abbrev HasNoRates : ConnectionMetrics → Type 0
HasNoRates x = (x.network.read_bytes.per_minute ≡ 0) × (x.network.write_bytes.per_minute ≡ 0)

abbrev NoRates : {S : Type 0} → MetricsState S → Type 0
NoRates st = (m : ConnectionMap) → All HasNoRates (st.connections m)

All-parts :
    (before after : List ConnectionMetrics) (x : ConnectionMetrics)
    → All HasNoRates (before ++ x ∷ after)
    → All HasNoRates (before ++ after) × HasNoRates x
All-parts [] after x all = (all.1, all.0)
All-parts (y ∷ before) after x all =
    let (rest, here) = All-parts before after x all.1 in ((all.0, rest), here)

All-put :
    (before after : List ConnectionMetrics) (x : ConnectionMetrics)
    → All HasNoRates (before ++ after)
    → HasNoRates x
    → All HasNoRates (before ++ x ∷ after)
All-put [] after x all here = (here, all)
All-put (y ∷ before) after x all here = (all.0, All-put before after x all.1 here)

compute_metrics-HasNoRates :
    (xs : List ConnectionMetrics) → All HasNoRates xs → All HasNoRates (compute_metrics xs)
unfolding compute_metrics
compute_metrics-HasNoRates [] all = tt
compute_metrics-HasNoRates (x ∷ xs) all = (all.0, compute_metrics-HasNoRates xs all.1)

with_connections-NoRates :
    {S : Type 0} (m : ConnectionMap) (xs : List ConnectionMetrics) (st : MetricsState S)
    → All HasNoRates xs
    → NoRates st
    → NoRates (with_connections m xs st)
unfolding with_connections
with_connections-NoRates m xs st all none_there k = choose (same_map m k)
  where
    choose : (b : Bool) → All HasNoRates (if b then xs else st.connections k)
    choose true = all
    choose false = none_there k

module _ {S : Type 0} (c : HashedUnique S) where
  Step-NoRates : (st st' : MetricsState S) → Step c st st' → NoRates st → NoRates st'
  unfolding run mark mark_read mark_write
  Step-NoRates _ _ (collects st) h = λ m. compute_metrics-HasNoRates (st.connections m) (h m)
  Step-NoRates _ _ (joins st m) h =
      with_connections-NoRates m (new_connection_metrics ∷ st.connections m) st ((refl, refl), h m)
        h
  Step-NoRates _ _ (leaves st m before x after e) h =
      with_connections-NoRates m (before ++ after) st (All-parts before after x (rw e at (h m))).0 h
  Step-NoRates _ _ (reads st m before x after n e) h =
      let (rest, here) = All-parts before after x (rw e at (h m)) in
      with_connections-NoRates m (before ++ mark_read n x ∷ after) st
        (All-put before after (mark_read n x) rest here) h
  Step-NoRates _ _ (writes st m before x after n e) h =
      let (rest, here) = All-parts before after x (rw e at (h m)) in
      with_connections-NoRates m (before ++ mark_write n x ∷ after) st
        (All-put before after (mark_write n x) rest here) h

  Reachable-NoRates : (st : MetricsState S) → Reachable c st → NoRates st
  Reachable-NoRates _ (starts st none_there) = λ m. rw (none_there m) tt
  Reachable-NoRates _ (goes_on st st' before step) =
      Step-NoRates st st' step (Reachable-NoRates st before)

abbrev HasNone : Traffic → Type 0
HasNone t = (t.read_per_minute ≡ 0) × (t.write_per_minute ≡ 0)

accumulate_metrics-HasNone :
    (xs : List ConnectionMetrics) (t : Traffic)
    → All HasNoRates xs
    → HasNone t
    → HasNone (accumulate_metrics xs t)
unfolding accumulate_metrics
accumulate_metrics-HasNone [] t all h = h
accumulate_metrics-HasNone (x ∷ xs) t all h =
    accumulate_metrics-HasNone xs _ all.1 (omega (arith, h.0, all.0.0), omega (arith, h.1, all.0.1))

-- Whatever connections come, go, read and write, and however often the metrics are collected,
-- info reports 0 bytes read and 0 bytes written per minute; for a server that started without
-- connections.
pub total_traffic_no_rates :
    {S : Type 0} (c : HashedUnique S) (st : MetricsState S)
    → Reachable c st
    → ((total_traffic st).read_per_minute ≡ 0) × ((total_traffic st).write_per_minute ≡ 0)
unfolding total_traffic
total_traffic_no_rates c st reached =
    let none_there = Reachable-NoRates c st reached in
    accumulate_metrics-HasNone (st.connections agent_unix) _ (none_there agent_unix) (
      accumulate_metrics-HasNone (st.connections unix) _ (none_there unix) (
        accumulate_metrics-HasNone (st.connections agent_tcp) _ (none_there agent_tcp) (
          accumulate_metrics-HasNone (st.connections tcp) no_traffic (none_there tcp)
            (refl, refl))))
