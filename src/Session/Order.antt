-- ===== src/Session/Order.antt =====
-- The responses of a connection against the messages that were handed to send.
use mathlib.Core.List.{append_assoc, append-nil}
use throttr.Prelude.{
  ℕ, ◌<◌, List, [], ◌∷◌, ◌++◌, true, Option, none, some, ◌≡◌, refl, sym, ◌∙◌, ap, length,
}
use throttr.Circular.{CircularBuffer}
use throttr.Connection.{on_read}
use throttr.Writes.{capacity, sends, writes, step}
use throttr.Writes.Order.{IsWriter, accounted, step_lem}
use throttr.Session.{
  Session, Event, arrives, breaks, runs, written, fails, delivers, elsewhere, pick, send, call_all,
  on_read_error, on_arrival, run_handler, occur, occur_all, handed, AllInOrder,
}

module _ {St M : Type 0} where
  -- Everything that was handed to send: what the socket was given, what waits behind the front of
  -- the queue, and what is posted.
  abbrev pub sent_or_waiting : Session St M → List M
  sent_or_waiting s = accounted s.writer ++ s.posted

  -- A handler that runs changes neither the shared state nor the buffer nor the read.
  pub run_handler_same :
      (q : CircularBuffer M) (s : Session St M) (o : Option (M × List M))
      → let s' = run_handler q s o in
        (s'.state ≡ s.state) × (s'.connection ≡ s.connection) × (s'.reading ≡ s.reading)
  unfolding run_handler
  run_handler_same q s none = (refl, refl, refl)
  run_handler_same q s (some (m, ms)) = (refl, refl, refl)

  module _ (size : List ℕ → Option ℕ) (call : St → List ℕ → List M × St)
      (q : CircularBuffer M) where
    written_lem :
        (s : Session St M)
        → IsWriter s.writer
        → s.writer.writing ≡ true
        → let s' = occur size call q s written in
          IsWriter s'.writer × (sent_or_waiting s' ≡ sent_or_waiting s)
    unfolding occur step
    written_lem s ok can =
        let law = step_lem q s.writer writes ok can in
        (law.0, ap (λ (xs : List M). xs ++ s.posted) (law.1 ∙ append-nil (accounted s.writer)))

    handler_lem :
        (s : Session St M) (posted : List M)
        → s.posted ≡ posted
        → IsWriter s.writer
        → length s.writer.pending < capacity
        → let s' = run_handler q s (pick 0 posted) in
          IsWriter s'.writer × (sent_or_waiting s' ≡ sent_or_waiting s)
    unfolding run_handler pick step
    handler_lem s [] e ok free = (ok, refl)
    handler_lem s (m ∷ ms) e ok free =
        let law = step_lem q s.writer (sends m) ok free in
        (
          law.0,
          ap (λ (xs : List M). xs ++ ms) law.1
              ∙ append_assoc (accounted s.writer) (m ∷ []) ms
              ∙ ap (◌++◌ (accounted s.writer)) (sym e),
        )

    -- What comes before a step and what the step hands on, with the rest of the run behind them.
    joined :
        (s' : Session St M) (xs ms later : List M)
        → sent_or_waiting s' ≡ xs ++ ms
        → sent_or_waiting s' ++ later ≡ xs ++ (ms ++ later)
    joined s' xs ms later e = ap (λ (ys : List M). ys ++ later) e ∙ append_assoc xs ms later

    -- While the handlers run in the order of their posts, the queue has room and no write fails,
    -- what the socket was given, what waits behind the front of the queue and what is posted are
    -- what was so before and then what the reads of the connection and the publications of others
    -- handed to send, in order, each once; and a write is in progress exactly when a message is
    -- pending, if it is so at first.
    pub occur_all-handed :
        (s : Session St M) (es : List (Event St M))
        → IsWriter s.writer
        → AllInOrder size call q s es
        → let s' = occur_all size call q s es in
          IsWriter s'.writer × (sent_or_waiting s' ≡ sent_or_waiting s ++ handed size call q s es)
    unfolding occur_all handed occur on_arrival on_read_error send
    occur_all-handed s [] ok can = (ok, sym (append-nil (sent_or_waiting s)))
    occur_all-handed s (arrives chunk ∷ es) ok can =
        let responses = (call_all call s.state (on_read size s.connection chunk).messages).0 in
        let s' = occur size call q s (arrives chunk) in
        let all = occur_all-handed s' es ok can.1 in
        (
          all.0,
          all.1
              ∙ joined s' (sent_or_waiting s) responses (handed size call q s' es)
                  (sym (append_assoc (accounted s.writer) s.posted responses)),
        )
    occur_all-handed s (breaks ∷ es) ok can =
        occur_all-handed (on_read_error s) es (record { busy = ok.busy }) can.1
    occur_all-handed s (runs i ∷ es) ok can =
        let one = handler_lem s s.posted refl ok can.0.1 in
        let same : occur size call q s (runs i) ≡ occur size call q s (runs 0) =
          ap (λ (n : ℕ). occur size call q s (runs n)) can.0.0 in
        let all = occur_all-handed (occur size call q s (runs i)) es (rw same (one.0)) can.1 in
        (
          all.0,
          all.1
              ∙ ap (λ (xs : List M). xs ++ handed size call q (occur size call q s (runs i)) es)
                  (ap sent_or_waiting same ∙ one.1),
        )
    occur_all-handed s (written ∷ es) ok can =
        let one = written_lem s ok can.0 in
        let all = occur_all-handed (occur size call q s written) es one.0 can.1 in
        (
          all.0,
          all.1
              ∙ ap (λ (xs : List M). xs ++ handed size call q (occur size call q s written) es)
                  one.1,
        )
    occur_all-handed s (fails ∷ es) ok can = absurd can.0
    occur_all-handed s (delivers m ∷ es) ok can =
        let s' = send s m in
        let all = occur_all-handed s' es ok can.1 in
        (
          all.0,
          all.1
              ∙ joined s' (sent_or_waiting s) (m ∷ []) (handed size call q s' es)
                  (sym (append_assoc (accounted s.writer) s.posted (m ∷ []))),
        )
    occur_all-handed s (elsewhere f ∷ es) ok can =
        occur_all-handed (occur size call q s (elsewhere f)) es ok can.1
