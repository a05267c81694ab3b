-- ===== src/Connections/Entries.antt =====
-- The size of a connection in a response.
use throttr.Prelude.{
  ℕ, ◌-◌, ◌*◌, List, [], ◌∷◌, ◌≡◌, arith, length, length-append, length-take, length-replicate,
  take, replicate,
}
use throttr.Prelude.Bytes.{le_bytes, length-le_bytes}
use throttr.Protocol.{RequestTypes}
use throttr.Metrics.{Metric}
use throttr.Reports.{word_bytes}
use throttr.Connections.{
  ConnectionData, ip_bytes, monitored_request_types, io_metrics, service_metrics, connection_bytes,
}

length-word_bytes : (vs : List ℕ) → length (word_bytes vs) ≡ length vs * 8
length-word_bytes [] = omega arith
length-word_bytes (v ∷ vs) =
    omega (
      arith,
      length-append (le_bytes 8 v) (word_bytes vs),
      length-le_bytes 8 v,
      length-word_bytes vs,
    )

length-service_metrics :
    (code : RequestTypes → ℕ) (ms : List Metric) (ts : List RequestTypes)
    → length (service_metrics code ms ts) ≡ length ts
length-service_metrics code ms [] = omega arith
length-service_metrics code ms (t ∷ ts) = omega (arith, length-service_metrics code ms ts)

length-ip_bytes : (ip : List ℕ) → length (ip_bytes ip) ≡ 16
unfolding ip_bytes
length-ip_bytes ip = omega (
  arith,
  length-append (take 16 ip) (replicate (16 - length ip) 0),
  length-take 16 ip,
  length-replicate {A = ℕ} (16 - length ip) 0,
)

-- A connection whose id is a UUID takes the 237 bytes that its measure says.
pub length-connection_bytes :
    (code : RequestTypes → ℕ) (x : ConnectionData)
    → length x.id ≡ 16
    → length (connection_bytes code x) ≡ 237
unfolding connection_bytes
length-connection_bytes code x uuid =
    let services = service_metrics code x.metrics.commands monitored_request_types in
    omega (
      arith,
      uuid,
      length-append x.id _,
      length-append (ip_bytes x.ip) _,
      length-append (le_bytes 2 x.port) _,
      length-append (word_bytes (io_metrics x)) (word_bytes services),
      length-ip_bytes x.ip,
      length-le_bytes 2 x.port,
      length-word_bytes (io_metrics x),
      length-word_bytes services,
      length-service_metrics code x.metrics.commands monitored_request_types,
    )
