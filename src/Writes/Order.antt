-- ===== src/Writes/Order.antt =====
-- The messages of a connection and the order in which the socket is given them.
use throttr.Prelude.{
  ◌<◌, List, [], ◌∷◌, ◌++◌, Bool, true, false, ◌≡◌, refl, sym, ◌∙◌, ap, arith, length,
  length-append, drop, ltb,
}
use mathlib.Core.List.{append_assoc, append-nil}
use throttr.Circular.{CircularBuffer}
use throttr.Writes.{
  capacity, Writer, Event, sends, writes, fails, write_next, on_write, on_send, step, steps,
}

module _ {M : Type 0} where
  abbrev pub is_some_message : List M → Bool
  is_some_message [] = false
  is_some_message (m ∷ ms) = true

  -- Everything that was sent: what was started, and what waits behind the front of the queue.
  abbrev pub accounted : Writer M → List M
  accounted w = w.started ++ drop 1 w.pending

  abbrev pub sent : List (Event M) → List M
  sent [] = []
  sent (sends m ∷ es) = m ∷ sent es
  sent (writes ∷ es) = sent es
  sent (fails ∷ es) = sent es

  -- A write is in progress exactly when a message is pending.
  pub record IsWriter (w : Writer M) : Type 0 where
    pub busy : w.writing ≡ is_some_message w.pending

  -- Events that can come: a message while the queue has room, and the end of a write in progress.
  abbrev pub CanCome : Writer M → Event M → Type 0
  CanCome w (sends m) = length w.pending < capacity
  CanCome w writes = w.writing ≡ true
  CanCome w fails = ⊥

  pub on_write-IsWriter : (w : Writer M) (ms : List M) → w.pending ≡ ms → IsWriter (on_write w ms)
  unfolding on_write write_next
  on_write-IsWriter w [] e = record { busy = ap is_some_message (sym e) }
  on_write-IsWriter w (m ∷ []) e = record { busy = refl }
  on_write-IsWriter w (m ∷ n ∷ ms) e = record { busy = refl }

  accounted-on_write :
      (w : Writer M) (ms : List M) → w.pending ≡ ms → accounted (on_write w ms) ≡ accounted w
  unfolding on_write write_next
  accounted-on_write w [] e = refl
  accounted-on_write w (m ∷ []) e = ap (λ (ms : List M). w.started ++ drop 1 ms) (sym e)
  accounted-on_write w (m ∷ n ∷ ms) e =
      append_assoc w.started (n ∷ []) ms ∙ ap (λ (ms : List M). w.started ++ drop 1 ms) (sym e)

  module _ (q : CircularBuffer M) where
    pub on_send-empty :
        (w : Writer M) (m : M)
        → w.pending ≡ []
        → on_send q w m
          ≡ record w { pending = m ∷ []; started = w.started ++ m ∷ []; writing = true }
    unfolding on_send write_next
    on_send-empty w m e =
        let p : q.push_back capacity w.pending m ≡ m ∷ [] =
          q.push_back_free capacity w.pending m (ground arith)
          ∙ ap (λ (xs : List M). xs ++ m ∷ []) e in
        rw p refl

    pub on_send-busy :
        (w : Writer M) (m x : M) (ms : List M)
        → w.pending ≡ x ∷ ms
        → length w.pending < capacity
        → on_send q w m ≡ record w { pending = x ∷ (ms ++ m ∷ []) }
    unfolding on_send write_next
    on_send-busy w m x ms e free =
        let p : q.push_back capacity w.pending m ≡ x ∷ (ms ++ m ∷ []) =
          q.push_back_free capacity w.pending m free ∙ ap (λ (xs : List M). xs ++ m ∷ []) e in
        let more : ltb 1 (length (x ∷ (ms ++ m ∷ []))) ≡ true =
          ground (arith, length-append ms (m ∷ [])) in
        rw p (rw more refl)

    on_send_cases :
        (w : Writer M) (m : M) (ms : List M)
        → w.pending ≡ ms
        → length w.pending < capacity
        → IsWriter w
        → IsWriter (on_send q w m) × (accounted (on_send q w m) ≡ accounted w ++ m ∷ [])
    on_send_cases w m [] e free ok = (
      rw (on_send-empty w m e) (record { busy = refl }),
      ap accounted (on_send-empty w m e)
          ∙ append-nil (w.started ++ m ∷ [])
          ∙ ap (λ (xs : List M). xs ++ m ∷ []) (sym (append-nil w.started))
          ∙ ap (λ (ms : List M). (w.started ++ drop 1 ms) ++ m ∷ []) (sym e),
    )
    on_send_cases w m (x ∷ ms) e free ok = (
      rw (on_send-busy w m x ms e free) (record { busy = ok.busy ∙ ap is_some_message e }),
      ap accounted (on_send-busy w m x ms e free)
          ∙ sym (append_assoc w.started ms (m ∷ []))
          ∙ ap (λ (ms : List M). (w.started ++ drop 1 ms) ++ m ∷ []) (sym e),
    )

    pub step_lem :
        (w : Writer M) (e : Event M)
        → IsWriter w
        → CanCome w e
        → IsWriter (step q w e) × (accounted (step q w e) ≡ accounted w ++ sent (e ∷ []))
    unfolding step
    step_lem w (sends m) ok can = on_send_cases w m w.pending refl can ok
    step_lem w writes ok can = (
      on_write-IsWriter w w.pending refl,
      accounted-on_write w w.pending refl ∙ sym (append-nil (accounted w)),
    )
    step_lem w fails ok can = absurd can

    -- Each event of a run can come when it comes.
    abbrev pub AllCanCome : Writer M → List (Event M) → Type 0
    AllCanCome w [] = Unit
    AllCanCome w (e ∷ es) = CanCome w e × AllCanCome (step q w e) es

    sent-cons : (e : Event M) (es : List (Event M)) → sent (e ∷ es) ≡ sent (e ∷ []) ++ sent es
    sent-cons (sends m) es = refl
    sent-cons writes es = refl
    sent-cons fails es = refl

    -- While the queue has room, no write fails, and a write ends only when one is in progress,
    -- the messages that the socket was given and those that wait behind the front of the queue
    -- are those before the run and the ones sent in it, in order, each once, and a write is in
    -- progress exactly when a message is pending; for a writer of which the latter holds at
    -- first.
    pub steps-sent :
        (w : Writer M) (es : List (Event M))
        → IsWriter w
        → AllCanCome w es
        → IsWriter (steps q w es) × (accounted (steps q w es) ≡ accounted w ++ sent es)
    unfolding steps
    steps-sent w [] ok can = (ok, sym (append-nil (accounted w)))
    steps-sent w (e ∷ es) ok can =
        let one = step_lem w e ok can.0 in
        let all = steps-sent (step q w e) es one.0 can.1 in
        (
          all.0,
          all.1
              ∙ ap (λ (xs : List M). xs ++ sent es) one.1
              ∙ append_assoc (accounted w) (sent (e ∷ [])) (sent es)
              ∙ ap (◌++◌ (accounted w)) (sym (sent-cons e es)),
        )

    -- A message sent while the queue is full drops the front, which is being written; at the end
    -- of that write the second is taken off, which the socket was never given, and the third is
    -- written next.
    pub on_write-full :
        (w : Writer M) (m x y z : M) (ms : List M)
        → w.pending ≡ x ∷ y ∷ z ∷ ms
        → length w.pending ≡ capacity
        → let after = step q (step q w (sends m)) writes in
          (after.pending ≡ z ∷ (ms ++ m ∷ [])) × (after.started ≡ w.started ++ z ∷ [])
    unfolding step on_send on_write write_next
    on_write-full w m x y z ms e full =
        let p : q.push_back capacity w.pending m ≡ y ∷ z ∷ (ms ++ m ∷ []) =
          q.push_back_full capacity w.pending m full (omega arith)
          ∙ ap (λ (xs : List M). drop 1 xs ++ m ∷ []) e in
        let more : ltb 1 (length (y ∷ z ∷ (ms ++ m ∷ []))) ≡ true = ground arith in
        rw p (rw more (refl, refl))
