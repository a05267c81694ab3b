-- ===== src/Tests/Reading.antt =====
-- Reads of a connection, with the sizes that the server uses.
use mathlib.Core.List.{flatten}
use throttr.Prelude.{
  ℕ, ◌<◌, ◌≤◌, List, [], ◌∷◌, ◌++◌, Option, some, ◌≡◌, ◌≢◌, inr, refl, arith, length, replicate,
  length-replicate,
}
use throttr.Messages.{
  get_message_size, message_types, message_size, keyed_size, valued_size, install, apply_to,
}
use throttr.Prelude.Bytes.{le_value}
use throttr.Messages.Stable.{message_types-IsStable}
use throttr.Connection.{
  Connection, waits, no_fuel, max_length, span, room, on_read, received, process, try_process_next,
  compact_buffer, compact_buffer_if_needed, do_read,
}
use throttr.Connection.Split.{split, split_all, IsQuiet}
use throttr.Connection.Buffer.{IsWindow}
use throttr.Connection.Reads.{on_read_ends, reads, reads-split}
use throttr.Connection.Stall.{on_read-stall}
use throttr.Tests.Data.{codes, headers, headers-IsLayout}

abbrev pub size : List ℕ → Option ℕ
size = get_message_size (message_types 2 headers codes)

-- A connection that has read nothing.
abbrev unread : Connection
unread = record { buffer = replicate 8096 0; buffer_start = 0; buffer_end = 0 }

unread-IsWindow : IsWindow unread
unfolding max_length
unread-IsWindow = record {
  whole = length-replicate {A = ℕ} 8096 0;
  ordered = omega arith;
  within = omega arith;
}

-- A `query`, and the first bytes of another.
abbrev pub chunk : List ℕ
chunk = 2 ∷ 1 ∷ 97 ∷ 2 ∷ 3 ∷ 98 ∷ []

fits : length chunk ≤ room unread
unfolding max_length
fits = omega arith

on_read_ends_example : (on_read size unread chunk).stop ≢ no_fuel
on_read_ends_example = on_read_ends size unread chunk unread-IsWindow fits

calm : (reads size unread (chunk ∷ (99 ∷ 100 ∷ []) ∷ [])).stop ≡ waits
unfolding reads on_read try_process_next process received span compact_buffer
    compact_buffer_if_needed do_read max_length get_message_size message_types message_size
    keyed_size install apply_to
calm = refl

quiet : IsQuiet size (span unread)
unfolding split span get_message_size
quiet = refl

second_fits : 2 ≤ room (on_read size unread chunk).connection
unfolding reads on_read try_process_next process received span compact_buffer
    compact_buffer_if_needed do_read max_length get_message_size message_types message_size
    keyed_size install apply_to
second_fits = omega arith

-- The second message comes in two chunks.
reads-split_example :
    let r = reads size unread (chunk ∷ (99 ∷ 100 ∷ []) ∷ []) in
    let s = split_all size (span unread ++ flatten (chunk ∷ (99 ∷ 100 ∷ []) ∷ [])) in
    (r.messages ≡ s.messages) × (span r.connection ≡ s.rest)
reads-split_example =
    reads-split size (message_types-IsStable 2 headers codes headers-IsLayout) unread
      (chunk ∷ (99 ∷ 100 ∷ []) ∷ []) unread-IsWindow quiet (fits, (second_fits, tt)) calm

-- A `set` of a value of 9000 bytes, longer than the buffer that it fills.
abbrev stuck : Connection
stuck = record {
  buffer = 4 ∷ 1 ∷ 0 ∷ 4 ∷ 1 ∷ 40 ∷ 35 ∷ replicate 8089 0;
  buffer_start = 0;
  buffer_end = 8096;
}

stuck-IsWindow : IsWindow stuck
unfolding max_length
stuck-IsWindow = record { whole = refl; ordered = omega arith; within = omega arith }

length-span-stuck : length (span stuck) ≡ max_length
unfolding max_length span
length-span-stuck = refl

size-stuck : size (span stuck) ≡ some 9_008
unfolding span get_message_size message_types message_size valued_size install apply_to le_value
size-stuck = refl

stuck_big : max_length < 9_008
unfolding max_length
stuck_big = omega arith

on_read-stall_example :
    let r = on_read size stuck [] in
    (room stuck ≡ 0)
    × (r.messages ≡ [])
    × (span r.connection ≡ span stuck)
    × (room r.connection ≡ 0)
on_read-stall_example =
    on_read-stall size stuck 9_008 stuck-IsWindow length-span-stuck size-stuck (inr stuck_big)
