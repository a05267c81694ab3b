-- ===== src/Session/Stream.antt =====
-- The responses of a connection against the stream of its bytes.
use mathlib.Core.List.{append_assoc, flatten}
use mathlib.Core.Path.{ap₂, subst}
use throttr.Prelude.{ℕ, List, [], ◌∷◌, ◌++◌, Option, some, ◌≡◌, refl, sym, ◌∙◌, ap, arith, length}
use throttr.Circular.{CircularBuffer}
use throttr.Connection.{Connection, Round, waits, span, max_length, on_read, do_read}
use throttr.Connection.Split.{split_all, IsStable, IsQuiet, at_pause}
use throttr.Connection.Buffer.{IsWindow}
use throttr.Connection.Reads.{reads, Fits, reads_calm, calm_head, reads-split}
use throttr.Session.{
  Session, Event, arrives, breaks, runs, written, fails, delivers, elsewhere, pick, send, call_all,
  on_read_error, on_arrival, occur, occur_all, handed, AllInOrder, opened, start,
}
use throttr.Session.Order.{sent_or_waiting, occur_all-handed, run_handler_same}

module _ {St M : Type 0} where
  -- The chunks that arrive in a run.
  abbrev pub chunks : List (Event St M) → List (List ℕ)
  chunks [] = []
  chunks (arrives chunk ∷ es) = chunk ∷ chunks es
  chunks (breaks ∷ es) = chunks es
  chunks (runs i ∷ es) = chunks es
  chunks (written ∷ es) = chunks es
  chunks (fails ∷ es) = chunks es
  chunks (delivers m ∷ es) = chunks es
  chunks (elsewhere f ∷ es) = chunks es

  -- A run in which no other connection does anything to this one.
  abbrev pub Alone : List (Event St M) → Type 0
  Alone [] = Unit
  Alone (arrives chunk ∷ es) = Alone es
  Alone (breaks ∷ es) = Alone es
  Alone (runs i ∷ es) = Alone es
  Alone (written ∷ es) = Alone es
  Alone (fails ∷ es) = Alone es
  Alone (delivers m ∷ es) = ⊥
  Alone (elsewhere f ∷ es) = ⊥

  module _ (size : List ℕ → Option ℕ) (call : St → List ℕ → List M × St)
      (q : CircularBuffer M) where
    call_all-append :
        (st : St) (xs ys : List (List ℕ))
        → let a = call_all call st xs in
          let b = call_all call a.1 ys in call_all call st (xs ++ ys) ≡ (a.0 ++ b.0, b.1)
    unfolding call_all
    call_all-append st [] ys = refl
    call_all-append st (x ∷ xs) ys =
        let (ms, st') = call st x in
        let a = call_all call st' xs in
        ap (λ (p : List M × St). (ms ++ p.0, p.1)) (call_all-append st' xs ys)
        ∙ ap (λ (ks : List M). (ks, (call_all call a.1 ys).1))
            (sym (append_assoc ms a.0 ((call_all call a.1 ys).0)))

    -- What the commands make of the messages of some reads.
    abbrev served : St → Connection → List (List ℕ) → List M × St
    served st c cs = call_all call st (reads size c cs).messages

    abbrev Agrees : Session St M → List (Event St M) → Type 0
    Agrees s es =
        let r = served s.state s.connection (chunks es) in
        (handed size call q s es ≡ r.0) × ((occur_all size call q s es).state ≡ r.1)

    pub AllInOrder-Fits :
        (s : Session St M) (es : List (Event St M))
        → AllInOrder size call q s es
        → Fits size s.connection (chunks es)
    unfolding occur on_arrival on_read_error send
    AllInOrder-Fits s [] can = tt
    AllInOrder-Fits s (arrives chunk ∷ es) can =
        (can.0.1, AllInOrder-Fits (on_arrival size call q s chunk) es can.1)
    AllInOrder-Fits s (breaks ∷ es) can = AllInOrder-Fits (on_read_error s) es can.1
    AllInOrder-Fits s (runs i ∷ es) can =
        let same = (run_handler_same q s (pick i s.posted)).1 in
        subst (λ (c : Connection). Fits size c (chunks es)) same
          (AllInOrder-Fits (occur size call q s (runs i)) es can.1)
    AllInOrder-Fits s (written ∷ es) can = AllInOrder-Fits (occur size call q s written) es can.1
    AllInOrder-Fits s (fails ∷ es) can = absurd can.0
    AllInOrder-Fits s (delivers m ∷ es) can = AllInOrder-Fits (send s m) es can.1
    AllInOrder-Fits s (elsewhere f ∷ es) can =
        AllInOrder-Fits (occur size call q s (elsewhere f)) es can.1

    arrives-Agrees :
        (s : Session St M) (chunk : List ℕ) (es : List (Event St M))
        → (reads size s.connection (chunk ∷ chunks es)).stop ≡ waits
        → Agrees (on_arrival size call q s chunk) es
        → Agrees s (arrives chunk ∷ es)
    unfolding handed occur_all occur on_arrival
    arrives-Agrees s chunk es calm ih =
        let r : Round = on_read size s.connection chunk in
        let head = calm_head size s.connection chunk (chunks es) calm in
        let later = reads size r.connection (chunks es) in
        let split =
          ap (λ (x : Round). call_all call s.state x.messages)
            (reads_calm size s.connection chunk (chunks es) head)
          ∙ call_all-append s.state r.messages later.messages in
        (
          ap (◌++◌ ((call_all call s.state r.messages).0)) ih.0
              ∙ sym (ap (λ (p : List M × St). p.0) split),
          ih.1 ∙ sym (ap (λ (p : List M × St). p.1) split),
        )

    Alone-Agrees :
        (s : Session St M) (es : List (Event St M))
        → Alone es
        → (reads size s.connection (chunks es)).stop ≡ waits
        → Agrees s es
    unfolding handed occur_all occur on_arrival on_read_error reads call_all
    Alone-Agrees s [] alone calm = (refl, refl)
    Alone-Agrees s (arrives chunk ∷ es) alone calm =
        let r : Round = on_read size s.connection chunk in
        let head = calm_head size s.connection chunk (chunks es) calm in
        let rest =
          sym (ap (λ (x : Round). x.stop) (reads_calm size s.connection chunk (chunks es) head))
          ∙ calm in
        arrives-Agrees s chunk es calm (Alone-Agrees (on_arrival size call q s chunk) es alone rest)
    Alone-Agrees s (breaks ∷ es) alone calm = Alone-Agrees (on_read_error s) es alone calm
    Alone-Agrees s (runs i ∷ es) alone calm =
        let s' : Session St M = occur size call q s (runs i) in
        let same = run_handler_same q s (pick i s.posted) in
        let still = ap (λ (c : Connection). (reads size c (chunks es)).stop) same.1 in
        let ih = Alone-Agrees s' es alone (still ∙ calm) in
        let both = ap₂ (λ (st : St) (c : Connection). served st c (chunks es)) same.0 same.1 in
        (ih.0 ∙ ap (λ (p : List M × St). p.0) both, ih.1 ∙ ap (λ (p : List M × St). p.1) both)
    Alone-Agrees s (written ∷ es) alone calm =
        Alone-Agrees (occur size call q s written) es alone calm
    Alone-Agrees s (fails ∷ es) alone calm = Alone-Agrees (occur size call q s fails) es alone calm
    Alone-Agrees s (delivers m ∷ es) alone calm = absurd alone
    Alone-Agrees s (elsewhere f ∷ es) alone calm = absurd alone

    -- The messages that a connection hands on from its start are those of the stream.
    pub start-split_all :
        IsStable size
        → size [] ≡ some 0
        → (st : St) (array : List ℕ) (es : List (Event St M)) → length array ≡ max_length
        → AllInOrder size call q (start (opened st array)) es
        → (reads size (start (opened {M = M} st array)).connection (chunks es)).stop ≡ waits
        → (reads size (start (opened {M = M} st array)).connection (chunks es)).messages
          ≡ (split_all size (flatten (chunks es))).messages
    unfolding start do_read span max_length
    start-split_all stable none_known st array es whole can calm =
        let s : Session St M = start (opened st array) in
        let window : IsWindow s.connection = record {
          whole = whole;
          ordered = omega arith;
          within = omega arith;
        } in
        let quiet : IsQuiet size [] = at_pause size 0 [] 0 none_known refl in
        (reads-split size stable s.connection (chunks es) window quiet (AllInOrder-Fits s es can)
          calm).0

    -- What a connection that starts is to send (what the socket was given, what waits behind the
    -- front of the queue, and what is posted, in this order) is what its commands, one after
    -- another from the first state, answer to the messages that the stream of its bytes is cut
    -- into, and the shared state is what these commands leave, however the stream is cut into
    -- reads and its handlers and writes interleave; while no other connection acts, the handlers
    -- run in the order of their posts, the queue has room, no write fails, a read brings no more
    -- than its room and ends without a fault, and sizes are stable and none is known of no bytes.
    pub start-call_all :
        IsStable size
        → size [] ≡ some 0
        → (st : St) (array : List ℕ) (es : List (Event St M)) → length array ≡ max_length
        → AllInOrder size call q (start (opened st array)) es
        → Alone es
        → (reads size (start (opened {M = M} st array)).connection (chunks es)).stop ≡ waits
        → let a = call_all call st (split_all size (flatten (chunks es))).messages in
          let s' = occur_all size call q (start (opened st array)) es in
          (sent_or_waiting s' ≡ a.0) × (s'.state ≡ a.1)
    unfolding start
    start-call_all stable none_known st array es whole can alone calm =
        let s : Session St M = start (opened st array) in
        let order = occur_all-handed size call q s es (record { busy = refl }) can in
        let same = start-split_all stable none_known st array es whole can calm in
        let agrees = Alone-Agrees s es alone calm in
        let path = ap (call_all call st) same in
        (
          order.1 ∙ agrees.0 ∙ ap (λ (p : List M × St). p.0) path,
          agrees.1 ∙ ap (λ (p : List M × St). p.1) path,
        )
