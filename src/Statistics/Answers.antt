-- ===== src/Statistics/Answers.antt =====
-- What stat and event answer.
use mathlib.Core.Option
use mathlib.Core.List.{flatten}
use throttr.Prelude.{
  ℕ, List, [], ◌∷◌, ◌++◌, Option, none, some, ◌≡◌, refl, ◌∙◌, ap, arith, length, bytes_eq_refl,
}
use throttr.Prelude.Bytes.{le_bytes}
use throttr.Entry.{Key, EntryWrapper, add_read}
use throttr.Storage.{HashedUnique}
use throttr.Storage.Views.{view}
use throttr.State.{State, success_response, failed_response}
use throttr.Finder.{live, find_live, count_found, find_or_fail}
use throttr.Finder.Laws.{view-find_or_fail}
use throttr.Reports.{Output, grow, point}
use throttr.Reports.Adds.{put_bytes-Adds, point-Adds, then_Adds}
use throttr.Statistics.{write_stat, stat_command}

live-map_read :
    (o : Option EntryWrapper) → live (Option.map add_read o) ≡ Option.map add_read (live o)
unfolding live
live-map_read none = refl
live-map_read (some e) = ground arith

-- What a client is shown for an entry.
abbrev pub shown : Option EntryWrapper → List ℕ
shown none = failed_response ∷ []
shown (some e) =
    success_response
    ∷ (((le_bytes 8 e.metrics.reads_per_minute ++ le_bytes 8 e.metrics.writes_per_minute)
          ++ le_bytes 8 e.metrics.reads_accumulator)
        ++ le_bytes 8 e.metrics.writes_accumulator)

shown-map_read : (o : Option EntryWrapper) → shown (Option.map add_read o) ≡ shown o
shown-map_read none = refl
shown-map_read (some e) = refl

write_stat_lem :
    (found : Option EntryWrapper) (o : Output)
    → o.batch ≡ []
    → o.offset ≡ o.size
    → (flatten (write_stat found o).batch ≡ shown found)
      × ((write_stat found o).offset ≡ (write_stat found o).size)
      × (length (write_stat found o).batch ≡ (write_stat found o).reserved)
unfolding write_stat grow point flatten
write_stat_lem none o fresh behind = (rw fresh refl, behind, rw fresh refl)
write_stat_lem (some e) o fresh behind =
    let start = grow 5 32 o in
    let all =
      then_Adds {s'' = 5} {a'' = 32} (point-Adds (success_response ∷ []) start)
        (then_Adds {s'' = 4} {a'' = 32}
          (then_Adds {s'' = 3} {a'' = 24}
            (then_Adds {s'' = 2} {a'' = 16} (put_bytes-Adds 8 e.metrics.reads_per_minute _)
              (put_bytes-Adds 8 e.metrics.writes_per_minute _) refl refl)
            (put_bytes-Adds 8 e.metrics.reads_accumulator _) refl refl)
          (put_bytes-Adds 8 e.metrics.writes_accumulator _) refl refl)
        refl refl in
    (
      all.shows ∙ ap (λ (b : List (List ℕ)). flatten b ++ shown (some e)) fresh,
      omega (arith, all.offset_eq, all.size_eq),
      omega (arith, all.segments_eq, all.reserved_eq),
    )

module _ {S : Type 0} (c : HashedUnique S) where
  find_or_fail-find_live :
      (st : State S) (k : Key) → (find_or_fail c st k).0 ≡ Option.map add_read (find_live c st k)
  unfolding find_or_fail count_found find_live
  find_or_fail-find_live st k = counted (live (c.find st.storage k)) refl
    where
      counted :
          (o : Option EntryWrapper)
          → live (c.find st.storage k) ≡ o
          → live (c.find (count_found c st k o).storage k) ≡ Option.map add_read o
      counted none e = e
      counted (some x) e =
          ap live (c.find-modify st.storage k add_read (λ y. refl) k ∙ rw (bytes_eq_refl k) refl)
          ∙ live-map_read (c.find st.storage k)
          ∙ ap (Option.map add_read) e

  -- stat answers failure when the key holds no live entry, and otherwise the status, the rates per
  -- minute and the accumulators of the entry; write_buffer is filled to its end, the batch to what was
  -- reserved, and no contents change; for a batch and an offset as a new message has them.
  pub stat_command_lem :
      (st : State S) (k : Key) (o : Output)
      → o.batch ≡ []
      → o.offset ≡ o.size
      → let (o', st') = stat_command c st k o in
        (flatten o'.batch ≡ shown (find_live c st k))
        × (o'.offset ≡ o'.size)
        × (length o'.batch ≡ o'.reserved)
        × ((j : Key) → view c st'.storage j ≡ view c st.storage j)
  unfolding stat_command
  stat_command_lem st k o fresh behind =
      let (bytes, room, segments) = write_stat_lem (find_or_fail c st k).0 o fresh behind in
      (
        bytes ∙ ap shown (find_or_fail-find_live st k) ∙ shown-map_read (find_live c st k),
        room,
        segments,
        λ j. view-find_or_fail c st k j,
      )
