-- ===== src/Session/History.antt =====
-- The responses of a connection among others, against one history of all requests.
use throttr.Prelude.{
  ℕ, suc, ◌+◌, List, [], ◌∷◌, ◌++◌, Option, some, ◌≡◌, refl, sym, ◌∙◌, ap, arith, length,
}
use mathlib.Core.Path.{ap₂}
use mathlib.Core.List.{flatten}
use throttr.Circular.{CircularBuffer}
use throttr.Storage.{HashedUnique}
use throttr.Storage.Views.{view}
use throttr.State.{State}
use throttr.Connection.{Connection, Round, waits, max_length, on_read}
use throttr.Connection.Split.{split_all, IsStable}
use throttr.Connection.Reads.{reads, reads_calm, calm_head}
use throttr.Query.{Byte}
use throttr.Server.Requests.{Request}
use throttr.Session.{
  arrives, breaks, runs, written, fails, delivers, elsewhere, pick, on_arrival, on_read_error,
  occur, occur_all, AllInOrder, opened, start,
}
use throttr.Session.Order.{sent_or_waiting, occur_all-handed, run_handler_same}
use throttr.Session.Stream.{chunks, start-split_all}
use throttr.Session.Serving.{requests_at}
use throttr.Session.Sharing.{
  Served, own_all, own_of, others_of, replay_own, Happening, own, other, Client, event_of,
  events_of, call_on_storage, history, call_all_count, NoDelivery, handed-replay_own,
}

own_of-own_all : (rs : List Request) (h : List Served) → own_of (own_all rs ++ h) ≡ rs ++ own_of h
own_of-own_all [] h = refl
own_of-own_all (r ∷ rs) h = ap (◌∷◌ r) (own_of-own_all rs h)

others_of-own_all :
    (rs : List Request) (h : List Served) → others_of (own_all rs ++ h) ≡ others_of h
others_of-own_all [] h = refl
others_of-own_all (r ∷ rs) h = others_of-own_all rs h

-- The requests of other connections.
abbrev pub requests_elsewhere : {S : Type 0} → List (Happening S) → List Request
requests_elsewhere [] = []
requests_elsewhere (own e ∷ hs) = requests_elsewhere hs
requests_elsewhere (other r ∷ hs) = r ∷ requests_elsewhere hs

module _ (parse : ℕ → List ℕ → Request) (clock : ℕ → ℕ) where
  requests_at-append :
      (n : ℕ) (xs ys : List (List ℕ))
      → requests_at parse clock n (xs ++ ys)
        ≡ requests_at parse clock n xs ++ requests_at parse clock (n + length xs) ys
  unfolding requests_at
  requests_at-append n [] ys = ap (λ (k : ℕ). requests_at parse clock k ys) (omega arith)
  requests_at-append n (x ∷ xs) ys = ap (◌∷◌ (parse (clock n) x)) (
      requests_at-append (suc n) xs ys
      ∙ ap (λ (k : ℕ). requests_at parse clock (suc n) xs ++ requests_at parse clock k ys)
          (omega arith))

  module _ {S : Type 0} (w : ℕ) (c : HashedUnique S) (size : List ℕ → Option ℕ)
      (q : CircularBuffer (List Byte)) where
    abbrev story : Client S → List (Happening S) → List Served
    story s hs = history parse clock w c size q s hs

    abbrev next : Client S → Happening S → Client S
    next s h = occur size (call_on_storage parse clock w c) q s (event_of parse clock w c h)

    others_of-history :
        (s : Client S) (hs : List (Happening S)) → others_of (story s hs) ≡ requests_elsewhere hs
    unfolding history occur
    others_of-history s [] = refl
    others_of-history s (own (arrives chunk) ∷ hs) =
        others_of-own_all
          (requests_at parse clock s.state.0 (on_read size s.connection chunk).messages)
          (story (next s (own (arrives chunk))) hs)
        ∙ others_of-history (next s (own (arrives chunk))) hs
    others_of-history s (own breaks ∷ hs) = others_of-history (next s (own breaks)) hs
    others_of-history s (own (runs i) ∷ hs) = others_of-history (next s (own (runs i))) hs
    others_of-history s (own written ∷ hs) = others_of-history (next s (own written)) hs
    others_of-history s (own fails ∷ hs) = others_of-history (next s (own fails)) hs
    others_of-history s (own (delivers m) ∷ hs) = others_of-history (next s (own (delivers m))) hs
    others_of-history s (own (elsewhere f) ∷ hs) = others_of-history (next s (own (elsewhere f))) hs
    others_of-history s (other r ∷ hs) = ap (◌∷◌ r) (others_of-history (next s (other r)) hs)

    own_of-arrives :
        (s : Client S) (chunk : List ℕ) (hs : List (Happening S))
        → (reads size s.connection (chunk ∷ chunks (events_of parse clock w c hs))).stop ≡ waits
        → let s' = next s (own (arrives chunk)) in
          let later = chunks (events_of parse clock w c hs) in
          own_of (story s' hs)
            ≡ requests_at parse clock s'.state.0 (reads size s'.connection later).messages
          → own_of (story s (own (arrives chunk) ∷ hs))
            ≡ requests_at parse clock s.state.0 (reads size s.connection (chunk ∷ later)).messages
    unfolding history occur on_arrival
    own_of-arrives s chunk hs calm ih =
        let later = chunks (events_of parse clock w c hs) in
        let r : Round = on_read size s.connection chunk in
        let n : ℕ = s.state.0 in
        let head = calm_head size s.connection chunk later calm in
        let count = call_all_count parse clock w c n s.state.1 r.messages in
        let rest = (reads size r.connection later).messages in
        own_of-own_all (requests_at parse clock n r.messages)
          (story (next s (own (arrives chunk))) hs)
        ∙ ap (◌++◌ (requests_at parse clock n r.messages))
            (ih ∙ ap (λ (k : ℕ). requests_at parse clock k rest) count)
        ∙ sym (requests_at-append n r.messages rest)
        ∙ sym (
            ap (λ (x : Round). requests_at parse clock n x.messages)
              (reads_calm size s.connection chunk later head))

    own_of-history :
        (s : Client S) (hs : List (Happening S))
        → NoDelivery hs
        → let later = chunks (events_of parse clock w c hs) in
          (reads size s.connection later).stop ≡ waits
          → own_of (story s hs)
            ≡ requests_at parse clock s.state.0
                (reads size s.connection (chunks (events_of parse clock w c hs))).messages
    unfolding history occur reads requests_at on_read_error on_arrival
    own_of-history s [] alone calm = refl
    own_of-history s (own (arrives chunk) ∷ hs) alone calm =
        let later = chunks (events_of parse clock w c hs) in
        let head = calm_head size s.connection chunk later calm in
        let rest =
          sym (ap (λ (x : Round). x.stop) (reads_calm size s.connection chunk later head)) ∙ calm in
        own_of-arrives s chunk hs calm (own_of-history (next s (own (arrives chunk))) hs alone rest)
    own_of-history s (own breaks ∷ hs) alone calm =
        own_of-history (next s (own breaks)) hs alone calm
    own_of-history s (own (runs i) ∷ hs) alone calm =
        let later = chunks (events_of parse clock w c hs) in
        let s' : Client S = next s (own (runs i)) in
        let same = run_handler_same q s (pick i s.posted) in
        let still = ap (λ (x : Connection). (reads size x later).stop) same.1 in
        own_of-history s' hs alone (still ∙ calm)
        ∙ ap₂
            (λ (x : ℕ × State S) (y : Connection).
              requests_at parse clock x.0 (reads size y later).messages)
            same.0 same.1
    own_of-history s (own written ∷ hs) alone calm =
        own_of-history (next s (own written)) hs alone calm
    own_of-history s (own fails ∷ hs) alone calm = own_of-history (next s (own fails)) hs alone calm
    own_of-history s (own (delivers m) ∷ hs) alone calm = absurd alone
    own_of-history s (own (elsewhere f) ∷ hs) alone calm = absurd alone
    own_of-history s (other r ∷ hs) alone calm = own_of-history (next s (other r)) hs alone calm

    -- The batches that a connection is to send from its start on, in which the unit of a live
    -- entry is a pointer into that entry, as in the code (what the socket was given, what waits
    -- behind the front of the queue, and what is posted, in this order) are what the
    -- specification of the storage, a cell for each key, answers to the requests of this
    -- connection in one history of all requests, and every key holds what the history leaves; the
    -- history has the requests of this connection as the messages that the stream of its bytes is
    -- cut into, in order, and the requests of other connections in theirs; however the stream is
    -- cut into reads and its handlers and writes interleave with requests of others, for messages
    -- that are inserts, sets, updates, purges, queries and gets, while the handlers of this
    -- connection run in the order of their posts, the queue has room, no write fails, nobody
    -- publishes to it, a read brings no more than its room and ends without a fault, and sizes
    -- are stable and none is known of no bytes.
    pub start-replay_own :
        IsStable size
        → size [] ≡ some 0
        → (st : State S) (array : List ℕ) (hs : List (Happening S)) → length array ≡ max_length
        → AllInOrder size
            (call_on_storage parse clock w c)
            q
            (start (opened (0, st) array))
            (events_of parse clock w c hs)
        → NoDelivery hs
        → (reads size
            (start (opened {St = ℕ × State S} {M = List Byte} (0, st) array)).connection
            (chunks (events_of parse clock w c hs))).stop
          ≡ waits
        → let es = events_of parse clock w c hs in
          let s' =
            occur_all size (call_on_storage parse clock w c) q (start (opened (0, st) array)) es in
          (h : List Served) × (own_of h
            ≡ requests_at parse clock 0 (split_all size (flatten (chunks es))).messages)
          × (others_of h ≡ requests_elsewhere hs)
          × (sent_or_waiting s' ≡ (replay_own w h (view c st.storage)).0)
          × (view c s'.state.1.storage ≡ (replay_own w h (view c st.storage)).1)
    unfolding start
    start-replay_own stable none_known st array hs whole can alone calm =
        let s : Client S = start (opened (0, st) array) in
        let es = events_of parse clock w c hs in
        let commands = call_on_storage parse clock w c in
        let order = occur_all-handed size commands q s es (record { busy = refl }) can in
        let messages =
          start-split_all size commands q stable none_known (0, st) array es whole can calm in
        let (answers, views) = handed-replay_own parse clock w c size q s hs alone in
        (
          story s hs,
          own_of-history s hs alone calm ∙ ap (requests_at parse clock 0) messages,
          others_of-history s hs,
          order.1 ∙ answers,
          views,
        )
