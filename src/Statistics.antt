-- ===== src/Statistics.antt =====
-- src/sources/commands/stat_command.cpp and event_command.cpp.
pub mod Answers
use throttr.Prelude.{ℕ, zero, suc, ◌+◌, List, [], ◌∷◌, ◌++◌, Option, none, some, length, set}
use throttr.Prelude.Bytes.{le_bytes}
use throttr.Entry.{Key, EntryWrapper}
use throttr.Storage.{HashedUnique}
use throttr.State.{State, success_response, failed_response}
use throttr.Finder.{find_or_fail}
use throttr.Metrics.{Metric, mark}
use throttr.Reports.{Output, grow, point, put}

-- The response of stat, by what the search found.
unfoldable pub write_stat : Option EntryWrapper → Output → Output
write_stat none o = point (failed_response ∷ []) (record o { reserved = length o.batch + 1 })
write_stat (some e) o = put (le_bytes 8 e.metrics.writes_accumulator) (
    put (le_bytes 8 e.metrics.reads_accumulator) (
      put (le_bytes 8 e.metrics.writes_per_minute) (
        put (le_bytes 8 e.metrics.reads_per_minute) (point (success_response ∷ []) (grow 5 32 o)))))

-- stat_command::call
unfoldable pub stat_command :
    {S : Type 0} → HashedUnique S → State S → Key → Output → Output × State S
stat_command c st k o = let (found, st') = find_or_fail c st k in (write_stat found o, st')

-- An element of an array; `none` is a read past its end.
unfoldable pub at : {A : Type 0} → List A → ℕ → Option A
at [] i = none
at (x ∷ xs) zero = some x
at (x ∷ xs) (suc i) = at xs i

-- The call of a command of the table, after the event was counted.
unfoldable pub call_event :
    Option (List ℕ → Output → Output)
    → Option Metric
    → ℕ
    → List Metric
    → List ℕ
    → Output
    → Option (List Metric × Output)
call_event (some command) (some m) type metrics buffer o = some (
  set metrics type (mark 1 m),
  command buffer (point (success_response ∷ []) (record o { reserved = length o.batch + 1 })),
)
call_event command m type metrics buffer o = none

-- event_command::call: the collector's metrics and the response, from the buffer of the event.
-- `none` is a read past the buffer or past one of the two tables, which are not checked. The table of
-- commands has a slot for every byte, that of the metrics only 32.
unfoldable pub event_command :
    List (List ℕ → Output → Output) → List Metric → List ℕ → Output → Option (List Metric × Output)
event_command commands metrics [] o = none
event_command commands metrics (type ∷ bytes) o =
    call_event (at commands type) (at metrics type) type metrics (type ∷ bytes) o
