-- ===== src/Tests/Pooling.antt =====
-- Pools, the start of a server, and metrics, on small inputs.
use throttr.Prelude.{
  ℕ, ◌+◌, ◌%◌, ◌≤◌, ◌<◌, List, [], ◌∷◌, ◌++◌, Bool, true, false, none, some, ◌≡◌, ◌⊎◌, refl, arith,
  replicate, take,
}
use throttr.Protocol.{value_mod, seconds}
use throttr.Prelude.Bytes.{le_value}
use throttr.Circular.ListBuffer.{list_buffer}
use throttr.Pools.{Heap}
use throttr.Startup.{serve, looping}
use throttr.Startup.Order.{unprepared, serve_persistent-looping}
use throttr.Entry.{Key, EntryWrapper}
use throttr.Storage.{find_key}
use throttr.Storage.ListStorage.{list_storage}
use throttr.Storage.Views.{view}
use throttr.Metrics.{no_metric, MetricsState, run}
use throttr.Metrics.Entries.{Conserved, Moved, run_lem}
use throttr.Server.{starts, goes_on, inserts}
use throttr.Server.Typing.{HoldsTyped, Reachable-HoldsTyped}
use throttr.Create.{insert_command}
use throttr.Tests.Data.{ip, quota_entry, item, holding}

abbrev empty_heap : Heap
empty_heap = record {
  recyclable = λ i. false;
  in_use = λ i. false;
  write_buffer = λ i. [];
  next = 0;
}

serve_persistent-looping_example : serve list_buffer 3 true 1 (unprepared empty_heap) ≡ looping
serve_persistent-looping_example = serve_persistent-looping list_buffer 3 1 empty_heap (omega arith)

-- A quota that was read 3 times and written 2 times since the last snapshot.
abbrev counted : EntryWrapper
counted = record (item ip quota_entry false) {
  metrics = record {
    reads = 3;
    writes = 2;
    reads_accumulator = 5;
    writes_accumulator = 4;
    reads_per_minute = 1;
    writes_per_minute = 1;
  };
}

abbrev snapshot_state : MetricsState (List EntryWrapper)
snapshot_state = record {
  storage = counted ∷ [];
  connections = λ m. [];
  commands = replicate 32 no_metric;
}

find_one : list_storage.find (counted ∷ []) ip ≡ some counted
unfolding list_storage find_key throttr.Prelude.bytes_eq
find_one = refl

run_lem_example :
    ((e' : EntryWrapper) × (list_storage.find (run list_storage snapshot_state).storage ip
        ≡ some e')
      × Conserved counted.metrics e'.metrics
      × Moved counted.metrics e'.metrics)
    × ((j : Key)
        → view list_storage (run list_storage snapshot_state).storage j
          ≡ view list_storage (counted ∷ []) j)
run_lem_example = run_lem list_storage snapshot_state ip counted find_one refl

no_view : (k : Key) → view list_storage [] k ≡ none
unfolding view list_storage find_key
no_view k = refl

small : le_value (take 2 (10 ∷ 0 ∷ [])) < value_mod 2
unfolding le_value
small = omega arith

-- An insert of a quota of 10.
Reachable-HoldsTyped_example : HoldsTyped 2 (
    view list_storage
      (insert_command list_storage 2 1_000
        (holding [])
        ip
        (10 ∷ 0 ∷ [])
        seconds
        (4 ∷ 0 ∷ [])).1.storage
      ip)
Reachable-HoldsTyped_example =
    Reachable-HoldsTyped list_storage 2
      (insert_command list_storage 2 1_000 (holding []) ip (10 ∷ 0 ∷ []) seconds (4 ∷ 0 ∷ [])).1
      (goes_on (holding [])
        (insert_command list_storage 2 1_000 (holding []) ip (10 ∷ 0 ∷ []) seconds (4 ∷ 0 ∷ [])).1
        (starts (holding []) no_view)
        (inserts (holding []) 1_000 ip (10 ∷ 0 ∷ []) seconds (4 ∷ 0 ∷ []) small))
      ip
