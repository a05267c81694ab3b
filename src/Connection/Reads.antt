-- ===== src/Connection/Reads.antt =====
-- The reads of a connection against the stream that they are chunks of.
use mathlib.Core.List.{append_assoc, append-nil, flatten}
use mathlib.Core.Path.{ap₂}
use throttr.Prelude.{
  ℕ, zero, suc, ◌+◌, ◌≤◌, List, [], ◌∷◌, ◌++◌, Option, ◌≡◌, ◌≢◌, refl, sym, ◌∙◌, ap, arith, length,
  length-append, take, drop,
}
use throttr.Connection.{
  Connection, Round, waits, fault, no_fuel, span, room, process, try_process_next, on_read,
  compact_buffer_if_needed, with_message,
}
use throttr.Connection.Split.{
  Split, split, split_all, before, cases, faults, pauses, cuts, IsStable, split-append, split_ends,
  flatten-split, IsQuiet, rest-IsQuiet,
}
use throttr.Connection.Buffer.{
  IsWindow, span-advance, length-span, span-received, received-IsWindow,
  span-compact_buffer_if_needed, compact_buffer_if_needed-IsWindow, span-do_read, do_read-IsWindow,
}

-- A round of the loop over the buffer does what the specification does to the bytes in it.
pub record Meets (r : Round) (s : Split) : Type 0 where
  pub messages : r.messages ≡ s.messages
  pub rest : span r.connection ≡ s.rest
  pub stop : r.stop ≡ s.stop
  pub window : IsWindow r.connection

with_message-Meets :
    (m : List ℕ) (r : Round) (s : Split) → Meets r s → Meets (with_message m r) (before (m ∷ []) s)
with_message-Meets m r s h = record {
  messages = ap (◌∷◌ m) h.messages;
  rest = h.rest;
  stop = h.stop;
  window = h.window;
}

abbrev advanced : Connection → ℕ → Connection
advanced c n = record c { buffer_start = c.buffer_start + n }

advanced-IsWindow :
    (c : Connection) (n : ℕ) → IsWindow c → n ≤ length (span c) → IsWindow (advanced c n)
advanced-IsWindow c n w fits = record {
  whole = w.whole;
  ordered = omega (arith, length-span c w, w.ordered);
  within = w.within;
}

module _ (size : List ℕ → Option ℕ) where
  pub process-Meets :
      (f : ℕ) (c : Connection) → IsWindow c → Meets (process size f c) (split size f (span c))
  unfolding process split
  process-Meets zero c w = record { messages = refl; rest = refl; stop = refl; window = w }
  process-Meets (suc f) c w = elim (cases size (span c)) [
    | faults e ↦
        rw (e, process, split) (record { messages = refl; rest = refl; stop = refl; window = w })
    | pauses n e h ↦
        rw (e, process, split)
          (rw h (record { messages = refl; rest = refl; stop = refl; window = w }))
    | cuts n e h pos fits ↦
        rw (e, process, split)
          (rw h (
            with_message-Meets (take n (span c)) (process size f (advanced c n))
              (split size f (drop n (span c)))
              (rw (span-advance c n) at
                (process-Meets f (advanced c n) (advanced-IsWindow c n w fits)))))
  ]

  try_process_next-Meets :
      (c : Connection) → IsWindow c → Meets (try_process_next size c) (split_all size (span c))
  unfolding try_process_next
  try_process_next-Meets c w =
      let r : Round = process size (suc (length (span c))) c in
      let law = process-Meets (suc (length (span c))) c w in
      let compact : Connection = compact_buffer_if_needed r.connection in
      let tidy = compact_buffer_if_needed-IsWindow r.connection law.window in
      record {
        messages = law.messages;
        rest =
            span-do_read compact tidy
            ∙ span-compact_buffer_if_needed r.connection law.window
            ∙ law.rest;
        stop = law.stop;
        window = do_read-IsWindow compact tidy;
      }

  -- One read hands on the messages that the bytes of the buffer and the chunk begin with, stops
  -- as the specification does, leaves the bytes behind them in the buffer, and keeps the buffer
  -- well formed; for a well-formed buffer and a chunk that fits the room.
  pub on_read-Meets :
      (c : Connection) (chunk : List ℕ)
      → IsWindow c
      → length chunk ≤ room c
      → Meets (on_read size c chunk) (split_all size (span c ++ chunk))
  unfolding on_read
  on_read-Meets c chunk w fits =
      rw (span-received c chunk w) at (try_process_next-Meets _ (received-IsWindow c chunk w fits))

  -- The messages that a read hands on and the bytes that stay in the buffer make up the bytes
  -- that were in the buffer and the chunk; for a well-formed buffer and a chunk that fits the
  -- room.
  pub flatten-on_read :
      (c : Connection) (chunk : List ℕ)
      → IsWindow c
      → length chunk ≤ room c
      → let r = on_read size c chunk in flatten r.messages ++ span r.connection ≡ span c ++ chunk
  flatten-on_read c chunk w fits =
      let law = on_read-Meets c chunk w fits in
      ap₂ (λ (ms : List (List ℕ)) (rest : List ℕ). flatten ms ++ rest) law.messages law.rest
      ∙ flatten-split size (suc (length (span c ++ chunk))) (span c ++ chunk)

  -- The reads of a connection, one for each chunk, up to a fault.
  unfoldable pub reads : Connection → List (List ℕ) → Round
  reads c [] = record { messages = []; connection = c; stop = waits }
  reads c (chunk ∷ chunks) =
      let r = on_read size c chunk in
      let later = reads r.connection chunks in
      elim r.stop [
        | waits ↦ record later { messages = r.messages ++ later.messages }
        | fault ↦ r
        | no_fuel ↦ r
      ]

  -- The socket never writes more than the room that it was given.
  abbrev pub Fits : Connection → List (List ℕ) → Type 0
  Fits c [] = Unit
  Fits c (chunk ∷ chunks) = (length chunk ≤ room c) × Fits (on_read size c chunk).connection chunks

  -- The loop of try_process_next ends by its own tests, never by the fuel of the model; for a
  -- well-formed buffer and a chunk that fits the room.
  pub on_read_ends :
      (c : Connection) (chunk : List ℕ)
      → IsWindow c
      → length chunk ≤ room c
      → (on_read size c chunk).stop ≢ no_fuel
  on_read_ends c chunk w fits =
      rw ((on_read-Meets c chunk w fits).stop)
        (split_ends size (suc (length (span c ++ chunk))) (span c ++ chunk) (omega arith))

  pub reads_calm :
      (c : Connection) (chunk : List ℕ) (chunks : List (List ℕ))
      → (on_read size c chunk).stop ≡ waits
      → let later = reads (on_read size c chunk).connection chunks in
        reads c (chunk ∷ chunks)
        ≡ record later { messages = (on_read size c chunk).messages ++ later.messages }
  unfolding reads
  reads_calm c chunk chunks e = rw (e, reads)

  pub calm_head :
      (c : Connection) (chunk : List ℕ) (chunks : List (List ℕ))
      → (reads c (chunk ∷ chunks)).stop ≡ waits
      → (on_read size c chunk).stop ≡ waits
  unfolding reads
  calm_head c chunk chunks h = ground arith

  on_read-IsQuiet :
      (c : Connection) (chunk : List ℕ)
      → IsWindow c
      → length chunk ≤ room c
      → (on_read size c chunk).stop ≡ waits
      → IsQuiet size (span (on_read size c chunk).connection)
  on_read-IsQuiet c chunk w fits head =
      let one = on_read-Meets c chunk w fits in
      rw (one.rest) (
        rest-IsQuiet size (suc (length (span c ++ chunk))) (span c ++ chunk) (omega arith)
          (sym one.stop ∙ head))

  split_after :
      IsStable size
      → (c : Connection) (chunk later : List ℕ) → IsWindow c
      → length chunk ≤ room c
      → (on_read size c chunk).stop ≡ waits
      → split_all size (span c ++ (chunk ++ later))
        ≡ before
            (split_all size (span c ++ chunk)).messages
            (split_all size (span (on_read size c chunk).connection ++ later))
  split_after stable c chunk later w fits head =
      let one = on_read-Meets c chunk w fits in
      let bs : List ℕ = span c ++ chunk in
      ap (λ (xs : List ℕ). split_all size xs) (sym (append_assoc (span c) chunk later))
      ∙ split-append size stable (suc (length bs)) (suc (length (bs ++ later))) bs later
          (omega arith) (omega (arith, length-append bs later)) (sym one.stop ∙ head)
      ∙ ap (λ (xs : List ℕ). before (split_all size bs).messages (split_all size (xs ++ later)))
          (sym one.rest)

  -- The messages that a connection hands on are those of the stream of its bytes, in order,
  -- however the socket cuts the stream into reads, and the bytes behind the last whole message
  -- are in its buffer; for sizes that are stable, a well-formed buffer whose bytes hold no whole
  -- message, chunks that fit the room they were given, and reads that end without a fault.
  pub reads-split :
      IsStable size
      → (c : Connection) (chunks : List (List ℕ)) → IsWindow c
      → IsQuiet size (span c)
      → Fits c chunks
      → (reads c chunks).stop ≡ waits
      → ((reads c chunks).messages ≡ (split_all size (span c ++ flatten chunks)).messages)
        × (span (reads c chunks).connection ≡ (split_all size (span c ++ flatten chunks)).rest)
  unfolding reads flatten
  reads-split stable c [] w quiet fits calm = rw (append-nil (span c), quiet) (refl, refl)
  reads-split stable c (chunk ∷ chunks) w quiet fits calm =
      let r : Round = on_read size c chunk in
      let one : Meets r (split_all size (span c ++ chunk)) = on_read-Meets c chunk w fits.0 in
      let head : r.stop ≡ waits = calm_head c chunk chunks calm in
      let step = reads_calm c chunk chunks head in
      let still = on_read-IsQuiet c chunk w fits.0 head in
      let ih =
        reads-split stable r.connection chunks one.window still fits.1
          (sym (ap (λ (x : Round). x.stop) step) ∙ calm) in
      let whole = split_after stable c chunk (flatten chunks) w fits.0 head in
      (
        ap (λ (x : Round). x.messages) step
            ∙ ap₂ ◌++◌ one.messages ih.0
            ∙ sym (ap (λ (x : Split). x.messages) whole),
        ap (λ (x : Round). span x.connection) step ∙ ih.1 ∙ sym (ap (λ (x : Split). x.rest) whole),
      )
