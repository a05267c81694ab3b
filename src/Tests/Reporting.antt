-- ===== src/Tests/Reporting.antt =====
-- The responses for small servers.
use mathlib.Core.List.{flatten}
use throttr.Prelude.{
  ℕ, ◌≤◌, ◌<◌, ◌^◌, List, [], ◌∷◌, ◌++◌, Bool, true, false, ◌≡◌, refl, length, map, All, replicate,
  ltb, if◌then◌else◌,
}
use throttr.Prelude.Bytes.{le_bytes}
use throttr.Protocol.{EntryTypes}
use throttr.State.{success_response}
use throttr.Subscriptions.{ConnectionMap, tcp, unix, agent_tcp, agent_unix, Subscription}
use throttr.Metrics.{MetricsState, no_metric, new_connection_metrics, ConnectionMetrics}
use throttr.Reports.{Output}
use throttr.Connections.{ConnectionData, all_connections, handle_fragmented_connections_response}
use throttr.Connections.Fragmented.{fragments_bytes, all_sent, count, connections_response_lem}
use throttr.Channels.{Channel, handle_fragmented_channels_response}
use throttr.Channels.Groups.{members, HasOwn, IsApart}
use throttr.Channels.Room.{channels_response_lem}
use throttr.Tests.Data.{one_item, codes}

abbrev empty_output : Output
empty_output = record { batch = []; reserved = 0; size = 0; offset = 0 }

abbrev type_code : EntryTypes → ℕ
type_code t = 0

-- One client of TCP, with 16 zeros for its id.
abbrev client : ConnectionData
client = record {
  id = replicate 16 0;
  type = 0;
  kind = 0;
  ip = 49 ∷ [];
  port = 9000;
  connected_at = 5;
  metrics = new_connection_metrics;
}

abbrev one_client : ConnectionMap → List ConnectionData
one_client tcp = client ∷ []
one_client unix = []
one_client agent_tcp = []
one_client agent_unix = []

connections_response_lem_example :
    (fs : List (List (Bool × ConnectionData))) × (let o' =
        handle_fragmented_connections_response codes one_client empty_output in
      (flatten o'.batch
        ≡ flatten empty_output.batch
          ++ success_response ∷ (le_bytes 8 (length fs) ++ fragments_bytes codes 1 fs))
      × (o'.offset ≡ o'.size)
      × (length o'.batch ≡ o'.reserved)
      × All (λ f. (0 < length f) × (length f ≤ 8)) fs
      × ((p : ConnectionData → Bool)
          → count p (all_sent fs)
            ≡ count p (map (λ (x : Bool × ConnectionData). x.1) (all_connections one_client))))
connections_response_lem_example = connections_response_lem codes one_client empty_output (refl, tt)

abbrev two_subscriptions : List Subscription
two_subscriptions =
    record { connection_id = 1; channel = 97 ∷ []; subscribed_at = 5 }
    ∷ record { connection_id = 2; channel = 97 ∷ []; subscribed_at = 6 }
    ∷ []

channels_response_lem_example :
    (fs : List (List Channel)) × (let o' =
        handle_fragmented_channels_response (λ x. 3) (λ x. 4) two_subscriptions empty_output in
      (flatten o'.batch
        ≡ flatten empty_output.batch
          ++ success_response
            ∷ (le_bytes 8 (length fs)
                ++ throttr.Channels.Room.fragments_bytes (λ x. 3) (λ x. 4) 1 fs))
      × (o'.offset ≡ o'.size)
      × (length o'.batch ≤ o'.reserved)
      × (members (flatten fs) ≡ two_subscriptions)
      × All HasOwn (flatten fs)
      × IsApart (flatten fs))
channels_response_lem_example =
    channels_response_lem (λ x. 3) (λ x. 4) two_subscriptions empty_output

-- A server of one entry, and of one connection in each map, that was sent 70 bytes and sent 90.
abbrev traffic : ConnectionMetrics
traffic = record new_connection_metrics {
  network = record new_connection_metrics.network {
    read_bytes = record { count = 0; accumulator = 70; per_minute = 7 };
    write_bytes = record { count = 0; accumulator = 90; per_minute = 9 };
  };
}

abbrev quiet : MetricsState (List (throttr.Entry.EntryWrapper))
quiet = record {
  storage = one_item;
  connections = λ m. traffic ∷ [];
  commands = replicate 32 no_metric;
}

unfoldable fits : List ℕ → Bool
fits [] = true
fits (v ∷ vs) = let rest = fits vs in if ltb v (256 ^ 8) then rest else false
