-- ===== src/Server.antt =====
-- The commands on the storage and the garbage collector together: src/include/throttr/state.hpp
-- holds one storage, and connections of every thread run their commands on it. A run of the server
-- is a sequence of whole commands and passes of the collector, in any order.
pub mod Typing
pub mod Restart
pub mod Requests
pub mod Refinement
pub mod Independence
use throttr.Prelude.{ℕ, ◌<◌, List, [], Bool, Option, none, some, ◌≡◌, length, take}
use throttr.Prelude.Bytes.{le_value}
use throttr.Protocol.{TtlTypes, value_mod}
use throttr.Entry.{Key}
use throttr.Storage.{HashedUnique}
use throttr.Storage.Views.{view}
use throttr.State.{State}
use throttr.Create.{insert_command, set_command}
use throttr.Update.{RequestUpdate, update_command}
use throttr.Purge.{purge_command}
use throttr.Query.{query_command}
use throttr.Reports.{Output}
use throttr.Statistics.{stat_command}
use throttr.Collector.{collect}

module _ {S : Type 0} (c : HashedUnique S) (w : ℕ) where
  -- One command, with the numbers that the parser can give it, or one pass of the collector.
  pub data Step : State S → State S → Type 0 where
    inserts :
        (st : State S) (now : ℕ) (k : Key) (quota : List ℕ) (t : TtlTypes) (ttl : List ℕ)
        → le_value (take w quota) < value_mod w
        → Step st (insert_command c w now st k quota t ttl).1
    sets :
        (st : State S) (now : ℕ) (k : Key) (value : List ℕ) (t : TtlTypes) (ttl : List ℕ)
        → length value < value_mod w
        → Step st (set_command c w now st k value t ttl).1
    updates :
        (st : State S) (now : ℕ) (r : RequestUpdate)
        → r.value < value_mod w
        → Step st (update_command c w now st r).1
    purges : (st : State S) (k : Key) → Step st (purge_command c st k).1
    queries :
        (st : State S) (now : ℕ) (as_query : Bool) (k : Key)
        → Step st (query_command c w now as_query st k).1
    stats : (st : State S) (k : Key) (o : Output) → Step st (stat_command c st k o).1
    collects : (st : State S) (now : ℕ) → Step st (record st { storage = collect c now st.storage })

  -- The states of a server that started with an empty storage.
  pub data Reachable : State S → Type 0 where
    starts : (st : State S) → ((k : Key) → view c st.storage k ≡ none) → Reachable st
    goes_on : (st st' : State S) → Reachable st → Step st st' → Reachable st'
