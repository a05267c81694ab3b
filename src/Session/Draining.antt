-- ===== src/Session/Draining.antt =====
-- A connection that is left alone answers everything that it was asked.
use mathlib.Core.List.{append-nil}
use throttr.Prelude.{
  ℕ, zero, suc, List, [], ◌∷◌, ◌++◌, true, Option, ◌≡◌, refl, sym, ◌∙◌, ap, arith, length,
}
use throttr.Circular.{CircularBuffer}
use throttr.Writes.{Writer, on_send, on_write, write_next}
use throttr.Writes.Order.{IsWriter, is_some_message, on_send-empty, on_write-IsWriter}
use throttr.Session.{
  Session, Event, runs, written, pick, run_handler, occur, occur_all, handed, AllInOrder,
}
use throttr.Session.Order.{sent_or_waiting, occur_all-handed}

on_write-pending :
    {M : Type 0} (w : Writer M) (x : M) (xs : List M)
    → w.pending ≡ x ∷ xs
    → (on_write w w.pending).pending ≡ xs
unfolding on_write write_next
on_write-pending w x [] e = rw e refl
on_write-pending w x (y ∷ xs) e = rw e refl

module _ {St M : Type 0} where
  -- As many writes end as messages are pending, and then each posted handler runs and its write ends.
  unfoldable pub drain : ℕ → ℕ → List (Event St M)
  drain zero zero = []
  drain zero (suc n) = runs 0 ∷ written ∷ drain zero n
  drain (suc k) n = written ∷ drain k n

  module _ (size : List ℕ → Option ℕ) (call : St → List ℕ → List M × St)
      (q : CircularBuffer M) where
    abbrev Drains : Session St M → List (Event St M) → Type 0
    Drains s es =
        AllInOrder size call q s es
        × ((occur_all size call q s es).writer.pending ≡ [])
        × ((occur_all size call q s es).posted ≡ [])
        × (handed size call q s es ≡ [])

    drain_posted :
        (s : Session St M) (ms : List M)
        → s.posted ≡ ms
        → s.writer.pending ≡ []
        → Drains s (drain 0 (length ms))
    unfolding drain occur_all handed
    drain_posted s [] posts idle = (tt, idle, posts, refl)
    drain_posted s (m ∷ ms) posts idle =
        let one = occur size call q s (runs 0) in
        let sent : (one.writer ≡ on_send q s.writer m) × (one.posted ≡ ms) =
          (unfold occur run_handler pick in rw posts (refl, refl)) in
        let pending : one.writer.pending ≡ m ∷ [] =
          ap (λ (w : Writer M). w.pending) (sent.0 ∙ on_send-empty q s.writer m idle) in
        let busy : one.writer.writing ≡ true =
          ap (λ (w : Writer M). w.writing) (sent.0 ∙ on_send-empty q s.writer m idle) in
        let two = occur size call q one written in
        let free : two.writer.pending ≡ [] =
          (unfold occur on_write write_next in rw pending refl) in
        let same : two.posted ≡ ms = (unfold occur in sent.1) in
        let ih = drain_posted two ms same free in
        (((refl, rw idle (omega arith)), (busy, ih.0)), ih.1, ih.2, ih.3)

    drain_pending :
        (s : Session St M) (xs : List M)
        → s.writer.pending ≡ xs
        → IsWriter s.writer
        → Drains s (drain (length xs) (length s.posted))
    unfolding drain occur_all handed occur
    drain_pending s [] idle ok = drain_posted s s.posted refl idle
    drain_pending s (x ∷ xs) pending ok =
        let one = occur size call q s written in
        let busy : s.writer.writing ≡ true = ok.busy ∙ ap is_some_message pending in
        let left : one.writer.pending ≡ xs = on_write-pending s.writer x xs pending in
        let still : IsWriter one.writer = on_write-IsWriter s.writer s.writer.pending refl in
        let ih = drain_pending one xs left still in ((busy, ih.0), ih.1, ih.2, ih.3)

    -- From any state of a connection in which a write is in progress exactly when a message is
    -- pending, the ends of as many writes as messages are pending, and then a run of each posted
    -- handler and the end of its write, can come one after another, and leave nothing pending and
    -- nothing posted: the socket was given all that was to be sent, in order.
    pub drain_answers :
        (s : Session St M)
        → IsWriter s.writer
        → let es = drain (length s.writer.pending) (length s.posted) in
          let s' = occur_all size call q s es in
          AllInOrder size call q s es
          × (s'.writer.pending ≡ [])
          × (s'.posted ≡ [])
          × (s'.writer.started ≡ sent_or_waiting s)
    drain_answers s ok =
        let es : List (Event St M) = drain (length s.writer.pending) (length s.posted) in
        let s' : Session St M = occur_all size call q s es in
        let all = drain_pending s s.writer.pending refl ok in
        let order = occur_all-handed size call q s es ok all.0 in
        let shown : sent_or_waiting s' ≡ s'.writer.started =
          rw (all.1, all.2) (append-nil (s'.writer.started ++ []) ∙ append-nil s'.writer.started) in
        (
          all.0,
          all.1,
          all.2,
          sym shown
              ∙ order.1
              ∙ ap (◌++◌ (sent_or_waiting s)) (all.3)
              ∙ append-nil (sent_or_waiting s),
        )
