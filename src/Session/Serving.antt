-- ===== src/Session/Serving.antt =====
-- A connection and the commands on the storage together: from the bytes that a client sends to the
-- batches that the socket is given for them. `parse` is the protocol library's: the request that a
-- message holds, with the clock at which it is served; `clock` is the clock at each request.
use mathlib.Core.List.{flatten}
use throttr.Prelude.{ℕ, suc, List, [], ◌∷◌, Option, some, ◌≡◌, refl, ◌∙◌, ap, length}
use throttr.Circular.{CircularBuffer}
use throttr.Storage.{HashedUnique}
use throttr.Storage.Views.{view}
use throttr.State.{State}
use throttr.Connection.{waits, max_length}
use throttr.Connection.Split.{split_all, IsStable}
use throttr.Connection.Reads.{reads}
use throttr.Query.{Byte}
use throttr.Server.Requests.{Request, serve, run, replay}
use throttr.Server.Refinement.{run-replay}
use throttr.Session.{Event, opened, start, call_all, occur_all, AllInOrder}
use throttr.Session.Order.{sent_or_waiting}
use throttr.Session.Stream.{chunks, Alone, start-call_all}

module _ (parse : ℕ → List ℕ → Request) (clock : ℕ → ℕ) where
  -- The requests of messages, of which the first is served at a number.
  unfoldable pub requests_at : ℕ → List (List ℕ) → List Request
  requests_at n [] = []
  requests_at n (v ∷ vs) = parse (clock n) v ∷ requests_at (suc n) vs

  module _ {S : Type 0} (w : ℕ) (c : HashedUnique S) where
    -- The command of a message, on the state and the number of requests that were served.
    abbrev pub call_request : ℕ × State S → List ℕ → List (List Byte) × (ℕ × State S)
    call_request (n, st) v =
        let (answer, st') = serve w c (parse (clock n) v) st in (answer ∷ [], (suc n, st'))

    call_all-run :
        (n : ℕ) (st : State S) (vs : List (List ℕ))
        → let a = call_all call_request (n, st) vs in
          let b = run w c (requests_at n vs) st in (a.0 ≡ b.0) × (a.1.1 ≡ b.1)
    unfolding call_all run requests_at
    call_all-run n st [] = (refl, refl)
    call_all-run n st (v ∷ vs) =
        let (answer, st') = serve w c (parse (clock n) v) st in
        let (answers, last) = call_all-run (suc n) st' vs in (ap (◌∷◌ answer) answers, last)

    -- What a connection that starts is to send (what the socket was given, what waits behind the
    -- front of the queue, and what is posted, in this order), when its messages are inserts,
    -- sets, updates, purges, queries and gets, is what the specification of the storage, a cell
    -- for each key, answers to the messages that the stream of its bytes is cut into, from what
    -- the keys hold at first, and every key then holds what the specification gives; however the
    -- stream is cut into reads and its handlers and writes interleave, while no other connection
    -- acts, the handlers run in the order of their posts, the queue has room, no write fails, a
    -- read brings no more than its room and ends without a fault, and sizes are stable and none
    -- is known of no bytes.
    pub start-replay :
        (size : List ℕ → Option ℕ) (q : CircularBuffer (List Byte))
        → IsStable size
        → size [] ≡ some 0
        → (st : State S) (array : List ℕ) (es : List (Event (ℕ × State S) (List Byte)))
        → length array ≡ max_length
        → AllInOrder size call_request q (start (opened (0, st) array)) es
        → Alone es
        → (reads size
            (start (opened {St = ℕ × State S} {M = List Byte} (0, st) array)).connection
            (chunks es)).stop
          ≡ waits
        → let requests = requests_at 0 (split_all size (flatten (chunks es))).messages in
          let a = replay w requests (view c st.storage) in
          let s' = occur_all size call_request q (start (opened (0, st) array)) es in
          (sent_or_waiting s' ≡ a.0) × (view c s'.state.1.storage ≡ a.1)
    start-replay size q stable none_known st array es whole can alone calm =
        let (sent, left) =
          start-call_all size call_request q stable none_known (0, st) array es whole can alone
            calm in
        let vs = (split_all size (flatten (chunks es))).messages in
        let (answers, last) = call_all-run 0 st vs in
        let (same, views) = run-replay w c (requests_at 0 vs) st in
        (
          sent ∙ answers ∙ same,
          ap (λ (x : ℕ × State S). view c x.1.storage) left
              ∙ ap (λ (x : State S). view c x.storage) last
              ∙ views,
        )
