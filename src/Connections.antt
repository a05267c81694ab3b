-- ===== src/Connections.antt =====
-- The commands connections, connection and whoami: src/sources/commands/connections_command.cpp,
-- connection_command.cpp and whoami_command.cpp, and what they use of
-- src/sources/services/response_builder_service.cpp and .hpp. A map of connections is the list of
-- what it holds; an id is the 16 bytes of a UUID.
pub mod Entries
pub mod Fragmented
pub mod Lookup
use throttr.Prelude.{
  ℕ, zero, suc, ◌+◌, ◌-◌, ◌*◌, List, [], ◌∷◌, ◌++◌, Bool, true, false, not, ◌&&◌, ◌||◌, ◌==◌,
  Option, none, some, bytes_eq, length, take, get_or, replicate, if◌then◌else◌, map,
}
use throttr.Prelude.Bytes.{le_bytes}
use throttr.Protocol.{RequestTypes}
use throttr.Protocol.{
  insert, query, update, set, get, purge, stat, list, stats, connections, connection, whoami,
  subscribe, unsubscribe, publish, channels, channel, info,
}
use throttr.State.{success_response, failed_response}
use throttr.Subscriptions.{ConnectionMap, tcp, unix, agent_tcp, agent_unix}
use throttr.Metrics.{ConnectionMetrics, Metric, no_metric}
use throttr.Reports.{word_bytes, Output, grow, point, put, fragments_from, max_fragment_size}

-- What the two kinds of connection have in common. `kind` is the byte of connection_kind.
pub record ConnectionData : Type 0 where
  pub id : List ℕ
  pub type : ℕ
  pub kind : ℕ
  -- the text of the address
  pub ip : List ℕ
  pub port : ℕ
  pub connected_at : ℕ
  pub metrics : ConnectionMetrics

abbrev pub contains : ℕ → List ℕ → Bool
contains b [] = false
contains b (x ∷ xs) = x == b || contains b xs

-- The version of the address, by a ':' in its text.
unfoldable pub ip_version : List ℕ → ℕ
ip_version ip = if contains 58 ip then 0x06 else 0x04

-- The first 16 characters, filled up with zeros.
unfoldable pub ip_bytes : List ℕ → List ℕ
ip_bytes ip = take 16 ip ++ replicate (16 - length ip) 0

abbrev pub monitored_request_types : List RequestTypes
monitored_request_types =
    insert ∷ set ∷ query ∷ get ∷ update ∷ purge ∷ list ∷ info ∷ stat ∷ stats ∷ publish ∷ subscribe
    ∷ unsubscribe ∷ connections ∷ connection ∷ channels ∷ channel ∷ whoami ∷ []

-- The seven words of input and output.
abbrev pub io_metrics : ConnectionData → List ℕ
io_metrics x =
    x.connected_at ∷ x.metrics.network.read_bytes.accumulator
    ∷ x.metrics.network.write_bytes.accumulator ∷ x.metrics.network.published_bytes.accumulator
    ∷ x.metrics.network.received_bytes.accumulator ∷ x.metrics.memory.allocated_bytes.accumulator
    ∷ x.metrics.memory.consumed_bytes.accumulator ∷ []

abbrev pub service_metrics : (RequestTypes → ℕ) → List Metric → List RequestTypes → List ℕ
service_metrics code commands [] = []
service_metrics code commands (t ∷ ts) =
    (get_or commands (code t) no_metric).accumulator ∷ service_metrics code commands ts

-- The bytes that write_connections_entry_to_buffer copies.
unfoldable pub connection_bytes : (RequestTypes → ℕ) → ConnectionData → List ℕ
connection_bytes code x =
    x.id
    ++ (x.type
        ∷ x.kind
        ∷ ip_version x.ip
        ∷ (ip_bytes x.ip
            ++ (le_bytes 2 x.port
                ++ (word_bytes (io_metrics x)
                    ++ word_bytes
                        (service_metrics code x.metrics.commands monitored_request_types)))))

-- write_connections_entry_to_buffer with `measure`, and the copies, which are one segment.
abbrev pub connection_measure : ℕ × ℕ
connection_measure = (237, 1)

unfoldable pub write_connections_entry_to_buffer :
    (RequestTypes → ℕ) → ConnectionData → Output → Output
write_connections_entry_to_buffer code x o = put (connection_bytes code x) o

-- Whether a map holds connections of TCP.
abbrev pub is_tcp : ConnectionMap → Bool
is_tcp tcp = true
is_tcp unix = false
is_tcp agent_tcp = true
is_tcp agent_unix = false

-- A connection with its transport, as the fragmenter sees it.
abbrev pub tagged : Bool → List ConnectionData → List (Bool × ConnectionData)
tagged b xs = map (λ x. (b, x)) xs

-- The connections in the order of the four calls of `_fragmenter`.
abbrev pub all_connections : (ConnectionMap → List ConnectionData) → List (Bool × ConnectionData)
all_connections maps =
    tagged (is_tcp tcp) (maps tcp)
    ++ (tagged (is_tcp unix) (maps unix)
        ++ (tagged (is_tcp agent_tcp) (maps agent_tcp)
            ++ tagged (is_tcp agent_unix) (maps agent_unix)))

-- One half of a fragment.
unfoldable pub half : Bool → List (Bool × ConnectionData) → List ConnectionData
half b [] = []
half b (x ∷ xs) = let rest = half b xs in if (if b then x.0 else not x.0) then x.1 ∷ rest else rest

unfoldable pub write_connections : (RequestTypes → ℕ) → List ConnectionData → Output → Output
write_connections code [] o = o
write_connections code (x ∷ xs) o =
    write_connections code xs (write_connections_entry_to_buffer code x o)

-- The loop over the fragments: those of TCP, and then the others.
unfoldable pub write_connection_fragments :
    (RequestTypes → ℕ) → ℕ → List (List (Bool × ConnectionData)) → Output → Output
write_connection_fragments code i [] o = o
write_connection_fragments code i (f ∷ fs) o =
    let count = length (half true f) + length (half false f) in
    write_connection_fragments code (i + 1) fs (
      write_connections code (half false f)
        (write_connections code (half true f) (put (le_bytes 8 count) (put (le_bytes 8 i) o))))

abbrev pub connection_cost : Bool × ConnectionData → ℕ
connection_cost x = connection_measure.0

-- handle_fragmented_connections_response
unfoldable pub handle_fragmented_connections_response :
    (RequestTypes → ℕ) → (ConnectionMap → List ConnectionData) → Output → Output
handle_fragmented_connections_response code maps o =
    let items = all_connections maps in
    let fragments = fragments_from max_fragment_size connection_cost [] 0 items in
    let segments = 2 + (length items * connection_measure.1 + length fragments * 2) in
    let bytes = 8 + (length items * connection_measure.0 + length fragments * 16) in
    write_connection_fragments code 1 fragments
      (put (le_bytes 8 (length fragments)) (point (success_response ∷ []) (grow segments bytes o)))

-- connections_command::call, which hands the state, the batch and the buffer on.
abbrev pub connections_command :
    (RequestTypes → ℕ) → (ConnectionMap → List ConnectionData) → Output → Output
connections_command = handle_fragmented_connections_response

-- `find` in a map.
unfoldable pub find_connection : List ℕ → List ConnectionData → Option ConnectionData
find_connection id [] = none
find_connection id (x ∷ xs) = if bytes_eq x.id id then some x else find_connection id xs

abbrev pub is_found : Option ConnectionData → Bool
is_found none = false
is_found (some x) = true

-- The response with a connection. The failed one grows nothing.
unfoldable pub write_found : (RequestTypes → ℕ) → Option ConnectionData → Output → Output
write_found code none o = o
write_found code (some x) o =
    write_connections_entry_to_buffer code x (point (success_response ∷ []) (grow 32 237 o))

-- connection_command::call. A map of agents is searched also when an earlier one has the id.
unfoldable pub connection_command :
    (RequestTypes → ℕ) → (ConnectionMap → List ConnectionData) → List ℕ → Output → Output
connection_command code maps id o =
    let found_in_tcp = is_found (find_connection id (maps tcp)) in
    let found_in_unix = not found_in_tcp && is_found (find_connection id (maps unix)) in
    let found_in_agent_unix =
      not found_in_unix && is_found (find_connection id (maps agent_unix)) in
    let found_in_agent_tcp =
      not found_in_agent_unix && is_found (find_connection id (maps agent_tcp)) in
    if not found_in_tcp && not found_in_unix && not found_in_agent_unix && not found_in_agent_tcp
    then point (failed_response ∷ []) (record o { reserved = length o.batch + 1 })
    else if found_in_tcp
    then write_found code (find_connection id (maps tcp)) o
    else if found_in_unix
    then write_found code (find_connection id (maps unix)) o
    else if found_in_agent_unix
    then write_found code (find_connection id (maps agent_unix)) o
    else write_found code (find_connection id (maps agent_tcp)) o

-- whoami_command::call
unfoldable pub whoami_command : List ℕ → Output → Output
whoami_command id o = put id (point (success_response ∷ []) (grow 2 16 o))
