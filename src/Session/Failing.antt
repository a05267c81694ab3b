-- ===== src/Session/Failing.antt =====
-- A connection after an error of its socket.
use throttr.Prelude.{
  ℕ, ◌≤◌, ◌<◌, List, [], ◌∷◌, true, false, Option, none, some, ◌≡◌, inl, inr, refl, ◌∙◌, ap, arith,
  length, length-append, length-drop, drop, ltb, Bool-cases,
}
use throttr.Circular.{CircularBuffer}
use throttr.Connection.{room}
use throttr.Writes.{Writer, capacity, on_send, on_write_error}
use throttr.Session.{
  Session, Event, arrives, breaks, runs, written, fails, delivers, elsewhere, pick, send,
  on_read_error, on_arrival, run_handler, occur, occur_all, handed,
}
use throttr.Session.Order.{run_handler_same}

-- A queue with messages of which none is being written.
pub record IsStuck {M : Type 0} (w : Writer M) : Type 0 where
  pub idle : w.writing ≡ false
  pub some_pending : 0 < length w.pending
  pub fits : length w.pending ≤ capacity

module _ {M : Type 0} (q : CircularBuffer M) where
  -- What push_back leaves of a queue with messages: some, and no more than the capacity.
  length-push_back :
      (w : Writer M) (m : M)
      → IsStuck w
      → let ms = q.push_back capacity w.pending m in (1 < length ms) × (length ms ≤ capacity)
  length-push_back w m stuck = elim (Bool-cases (ltb (length w.pending) capacity)) [
    | inl free ↦
        let pushed =
          ap (λ (ms : List M). length ms) (q.push_back_free capacity w.pending m (ground arith)) in
        let n = pushed ∙ length-append w.pending (m ∷ []) in
        (omega (arith, stuck.some_pending), ground arith)
    | inr busy ↦
        let full : length w.pending ≡ capacity = ground (arith, stuck.fits) in
        let pushed =
          ap (λ (ms : List M). length ms)
            (q.push_back_full capacity w.pending m full (omega arith)) in
        let n = pushed ∙ length-append (drop 1 w.pending) (m ∷ []) in
        (omega (arith, length-drop 1 w.pending), omega (arith, length-drop 1 w.pending))
  ]

  -- on_send on such a queue only adds to it.
  on_send-IsStuck :
      (w : Writer M) (m : M)
      → IsStuck w
      → IsStuck (on_send q w m) × ((on_send q w m).started ≡ w.started)
  unfolding on_send
  on_send-IsStuck w m stuck =
      let (more, few) = length-push_back w m stuck in
      let long : ltb 1 (length (q.push_back capacity w.pending m)) ≡ true = ground arith in
      rw long (record { idle = stuck.idle; some_pending = omega arith; fits = few }, refl)

module _ {St M : Type 0} where
  -- Events that can come on any number of threads: bytes or an error of a read in progress, the end
  -- of a write in progress, and anything else at any time.
  abbrev pub CanOccur : Session St M → Event St M → Type 0
  CanOccur s (arrives chunk) = (s.reading ≡ true) × (length chunk ≤ room s.connection)
  CanOccur s breaks = s.reading ≡ true
  CanOccur s (runs i) = Unit
  CanOccur s written = s.writer.writing ≡ true
  CanOccur s fails = s.writer.writing ≡ true
  CanOccur s (delivers m) = Unit
  CanOccur s (elsewhere f) = Unit

  -- The messages that other connections send in a run.
  abbrev pub deliveries : List (Event St M) → List M
  deliveries [] = []
  deliveries (arrives chunk ∷ es) = deliveries es
  deliveries (breaks ∷ es) = deliveries es
  deliveries (runs i ∷ es) = deliveries es
  deliveries (written ∷ es) = deliveries es
  deliveries (fails ∷ es) = deliveries es
  deliveries (delivers m ∷ es) = m ∷ deliveries es
  deliveries (elsewhere f ∷ es) = deliveries es

  -- What the other connections do to the shared state in a run.
  abbrev pub elsewhere_all : List (Event St M) → St → St
  elsewhere_all [] st = st
  elsewhere_all (arrives chunk ∷ es) st = elsewhere_all es st
  elsewhere_all (breaks ∷ es) st = elsewhere_all es st
  elsewhere_all (runs i ∷ es) st = elsewhere_all es st
  elsewhere_all (written ∷ es) st = elsewhere_all es st
  elsewhere_all (fails ∷ es) st = elsewhere_all es st
  elsewhere_all (delivers m ∷ es) st = elsewhere_all es st
  elsewhere_all (elsewhere f ∷ es) st = elsewhere_all es (f st)

  module _ (size : List ℕ → Option ℕ) (call : St → List ℕ → List M × St)
      (q : CircularBuffer M) where
    abbrev pub AllCanOccur : Session St M → List (Event St M) → Type 0
    AllCanOccur s [] = Unit
    AllCanOccur s (e ∷ es) = CanOccur s e × AllCanOccur (occur size call q s e) es

    run_handler-IsStuck :
        (s : Session St M) (o : Option (M × List M))
        → IsStuck s.writer
        → let s' = run_handler q s o in IsStuck s'.writer × (s'.writer.started ≡ s.writer.started)
    unfolding run_handler
    run_handler-IsStuck s none stuck = (stuck, refl)
    run_handler-IsStuck s (some (m, ms)) stuck = on_send-IsStuck q s.writer m stuck

    occur-IsStuck :
        (s : Session St M) (e : Event St M)
        → IsStuck s.writer
        → CanOccur s e
        → let s' = occur size call q s e in
          IsStuck s'.writer × (s'.writer.started ≡ s.writer.started)
    unfolding occur on_arrival on_read_error send
    occur-IsStuck s (arrives chunk) stuck can = (stuck, refl)
    occur-IsStuck s breaks stuck can =
        (record { idle = stuck.idle; some_pending = stuck.some_pending; fits = stuck.fits }, refl)
    occur-IsStuck s (runs i) stuck can = run_handler-IsStuck s (pick i s.posted) stuck
    occur-IsStuck s written stuck can = absurd (cc (can, stuck.idle))
    occur-IsStuck s fails stuck can = absurd (cc (can, stuck.idle))
    occur-IsStuck s (delivers m) stuck can = (stuck, refl)
    occur-IsStuck s (elsewhere f) stuck can = (stuck, refl)

    stuck_run :
        (s : Session St M) (es : List (Event St M))
        → IsStuck s.writer
        → AllCanOccur s es
        → (occur_all size call q s es).writer.started ≡ s.writer.started
    unfolding occur_all
    stuck_run s [] stuck can = refl
    stuck_run s (e ∷ es) stuck can =
        let (still, same) = occur-IsStuck s e stuck can.0 in
        stuck_run (occur size call q s e) es still can.1 ∙ same

    -- After a write that failed the socket is given no message any more, whatever arrives, is
    -- sent and runs later, in any order; if a message was pending and the queue held no more than
    -- its capacity.
    pub fails_silent :
        (s : Session St M) (es : List (Event St M))
        → 0 < length s.writer.pending
        → length s.writer.pending ≤ capacity
        → AllCanOccur s (fails ∷ es)
        → let s' = occur_all size call q s (fails ∷ es) in s'.writer.started ≡ s.writer.started
    unfolding occur_all occur on_write_error
    fails_silent s es pending fits can =
        stuck_run (occur size call q s fails) es
          (record { idle = refl; some_pending = pending; fits = fits }) can.1

    -- What a connection without a read does to the shared state: nothing.
    off_lem :
        (s : Session St M) (es : List (Event St M))
        → s.reading ≡ false
        → AllCanOccur s es
        → (handed size call q s es ≡ deliveries es)
          × ((occur_all size call q s es).state ≡ elsewhere_all es s.state)
    unfolding handed occur_all occur send on_read_error
    off_lem s [] off can = (refl, refl)
    off_lem s (arrives chunk ∷ es) off can = absurd (cc (can.0.0, off))
    off_lem s (breaks ∷ es) off can = absurd (cc (can.0, off))
    off_lem s (runs i ∷ es) off can =
        let (same_state, same_connection, same_reading) = run_handler_same q s (pick i s.posted) in
        let (nothing, state) =
          off_lem (occur size call q s (runs i)) es (same_reading ∙ off) can.1 in
        (nothing, state ∙ ap (elsewhere_all es) same_state)
    off_lem s (written ∷ es) off can = off_lem (occur size call q s written) es off can.1
    off_lem s (fails ∷ es) off can = off_lem (occur size call q s fails) es off can.1
    off_lem s (delivers m ∷ es) off can =
        let (nothing, state) = off_lem (send s m) es off can.1 in (ap (◌∷◌ m) nothing, state)
    off_lem s (elsewhere f ∷ es) off can = off_lem (occur size call q s (elsewhere f)) es off can.1

    -- A read that failed closes the socket, and from then on, whatever runs in any order, all
    -- that is handed to send is what others deliver, and the shared state changes by other
    -- connections alone.
    pub breaks_silent :
        (s : Session St M) (es : List (Event St M))
        → AllCanOccur s (breaks ∷ es)
        → (handed size call q s (breaks ∷ es) ≡ deliveries es)
          × ((occur_all size call q s (breaks ∷ es)).state ≡ elsewhere_all es s.state)
          × ((occur_all size call q s (breaks ∷ [])).writer.closed ≡ true)
    unfolding handed occur_all occur on_read_error
    breaks_silent s es can =
        let (nothing, state) = off_lem (on_read_error s) es refl can.1 in (nothing, state, refl)
