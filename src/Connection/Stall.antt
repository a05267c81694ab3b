-- ===== src/Connection/Stall.antt =====
-- The room that a read is given, and connections that are given none.
use mathlib.Core.List.{append-nil}
use throttr.Prelude.{
  ℕ, suc, ◌+◌, ◌-◌, ◌≤◌, ◌<◌, List, [], ◌++◌, true, Option, some, ◌≡◌, ◌∙◌, ap, arith, ◌⊎◌, inl,
  inr, length, ◌==◌, ◌||◌, ltb,
}
use throttr.Connection.{
  Connection, waits, max_length, span, room, try_process_next, on_read, compact_buffer,
  compact_buffer_if_needed, do_read, received,
}
use throttr.Connection.Split.{Split, split_all, at_pause}
use throttr.Connection.Buffer.{IsWindow, length-span, received-IsWindow}
use throttr.Connection.Reads.{on_read-Meets, process-Meets}

-- Fields of the connection that the next read starts from.
room_or_full :
    (c : Connection)
    → IsWindow c
    → let d = do_read (compact_buffer_if_needed c) in
      (0 < room d) ⊎ (d.buffer_end - d.buffer_start ≡ max_length)
unfolding do_read compact_buffer_if_needed compact_buffer max_length
room_or_full c w = ground (arith, w.ordered, w.within)

pauses_at : (l n : ℕ) → l ≡ max_length → (n ≡ 0) ⊎ (max_length < n) → (n == 0 || ltb l n) ≡ true
pauses_at l n e (inl z) = ground arith
pauses_at l n e (inr b) = ground arith

no_room : (c : Connection) → IsWindow c → length (span c) ≡ max_length → room c ≡ 0
no_room c w full = omega (arith, length-span c w, w.ordered, w.within)

module _ (size : List ℕ → Option ℕ) where
  -- After a read there is room for the next one, unless every byte of the buffer is unread; for a
  -- well-formed buffer and a chunk that fits the room.
  pub on_read-room :
      (c : Connection) (chunk : List ℕ)
      → IsWindow c
      → length chunk ≤ room c
      → let d = (on_read size c chunk).connection in (0 < room d) ⊎ (length (span d) ≡ max_length)
  unfolding on_read try_process_next
  on_read-room c chunk w fits =
      let c' : Connection = received c chunk in
      let ready : Connection = record c' { buffer_end = c'.buffer_end + length chunk } in
      let law =
        process-Meets size (suc (length (span ready))) ready (received-IsWindow c chunk w fits) in
      elim (room_or_full _ law.window) [
        | inl free ↦ inl free
        | inr full ↦ inr (length-span _ (on_read-Meets size c chunk w fits).window ∙ full)
      ]

  -- A full and well-formed buffer whose first message has no known size, or one above the buffer,
  -- stays as it is: a read is given no room, hands on no message and leaves the same bytes.
  pub on_read-stall :
      (c : Connection) (n : ℕ)
      → IsWindow c
      → length (span c) ≡ max_length
      → size (span c) ≡ some n
      → (n ≡ 0) ⊎ (max_length < n)
      → let r = on_read size c [] in
        (room c ≡ 0) × (r.messages ≡ []) × (span r.connection ≡ span c) × (room r.connection ≡ 0)
  on_read-stall c n w full known big =
      let law = on_read-Meets size c [] w (omega arith) in
      let same : split_all size (span c ++ [])
          ≡ record { messages = []; rest = span c; stop = waits } =
        ap (λ (bs : List ℕ). split_all size bs) (append-nil (span c))
        ∙ at_pause size (length (span c)) (span c) n known
            (pauses_at (length (span c)) n full big) in
      let kept : span (on_read size c []).connection ≡ span c =
        law.rest ∙ ap (λ (s : Split). s.rest) same in
      (
        no_room c w full,
        law.messages ∙ ap (λ (s : Split). s.messages) same,
        kept,
        no_room (on_read size c []).connection law.window (ap length kept ∙ full),
      )
