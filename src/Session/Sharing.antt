-- ===== src/Session/Sharing.antt =====
-- A connection among others: the requests that other connections make between the handlers of this
-- one. The requests of all that were served make up one history, in which each takes effect at once.
use throttr.Prelude.{
  ℕ, suc, ◌+◌, List, [], ◌∷◌, ◌++◌, Bool, true, false, Option, ◌≡◌, refl, sym, ◌∙◌, ap, arith,
  length, if◌then◌else◌,
}
use mathlib.Core.Path.{fun_ext, ap₂}
use throttr.Circular.{CircularBuffer}
use throttr.Entry.{Key}
use throttr.Storage.{HashedUnique}
use throttr.Storage.Views.{view}
use throttr.State.{State}
use throttr.Connection.{on_read}
use throttr.Query.{Byte}
use throttr.Server.Requests.{Request, Cell, cell, serve, key_of, concerns}
use throttr.Server.Refinement.{serve-Serves}
use throttr.Session.{
  Session, Event, arrives, breaks, runs, written, fails, delivers, elsewhere, pick, call_all,
  on_arrival, on_read_error, occur, occur_all, handed,
}
use throttr.Session.Order.{run_handler_same}
use throttr.Session.Serving.{requests_at, call_request}

-- A request of the history, and whether it is of this connection.
abbrev pub Served : Type 0
Served = Bool × Request

abbrev pub own_all : List Request → List Served
own_all [] = []
own_all (r ∷ rs) = (true, r) ∷ own_all rs

abbrev pub own_of : List Served → List Request
own_of [] = []
own_of ((own, r) ∷ h) = if own then r ∷ own_of h else own_of h

abbrev pub others_of : List Served → List Request
others_of [] = []
others_of ((own, r) ∷ h) = if own then others_of h else r ∷ others_of h

-- A history on a function from keys, with the answers to the requests of this connection.
unfoldable pub replay_own : ℕ → List Served → (Key → Cell) → List (List Byte) × (Key → Cell)
replay_own w [] m = ([], m)
replay_own w ((own, r) ∷ h) m =
    let answer = (cell w r (m (key_of r))).0 in
    let m' : Key → Cell = λ j. if concerns j r then (cell w r (m j)).1 else m j in
    let (answers, last) = replay_own w h m' in (if own then answer ∷ answers else answers, last)

-- What happens: an event of this connection, or a request of another.
pub data Happening (S : Type 0) : Type 0 where
  own : Event (ℕ × State S) (List Byte) → Happening S
  other : Request → Happening S

-- A connection of a server whose storage is a container.
abbrev pub Client : Type 0 → Type 0
Client S = Session (ℕ × State S) (List Byte)

-- No event but a request of this connection or of another hands anything to send.
abbrev pub NoDelivery : {S : Type 0} → List (Happening S) → Type 0
NoDelivery [] = Unit
NoDelivery (own (arrives chunk) ∷ hs) = NoDelivery hs
NoDelivery (own breaks ∷ hs) = NoDelivery hs
NoDelivery (own (runs i) ∷ hs) = NoDelivery hs
NoDelivery (own written ∷ hs) = NoDelivery hs
NoDelivery (own fails ∷ hs) = NoDelivery hs
NoDelivery (own (delivers m) ∷ hs) = ⊥
NoDelivery (own (elsewhere f) ∷ hs) = ⊥
NoDelivery (other r ∷ hs) = NoDelivery hs

module _ {S : Type 0} (w : ℕ) (c : HashedUnique S) where
  -- A request that is served is a step of the history.
  serve-replay_own :
      (is_own : Bool) (r : Request) (st : State S) (h : List Served)
      → let a = serve w c r st in
        let b = replay_own w h (view c a.1.storage) in
        replay_own w ((is_own, r) ∷ h) (view c st.storage)
        ≡ (if is_own then a.0 ∷ b.0 else b.0, b.1)
  unfolding replay_own
  serve-replay_own is_own r st h =
      let (answer, views) = serve-Serves w c r st in
      ap₂
        (λ (x : List Byte) (m : Key → Cell).
          let b = replay_own w h m in (if is_own then x ∷ b.0 else b.0, b.1))
        (sym answer) (sym (fun_ext views))

module _ (parse : ℕ → List ℕ → Request) (clock : ℕ → ℕ) where
  module _ {S : Type 0} (w : ℕ) (c : HashedUnique S) where
    -- The change that another connection's request makes to the shared state.
    abbrev pub served_elsewhere : Request → ℕ × State S → ℕ × State S
    served_elsewhere r (n, st) = (n, (serve w c r st).1)

    abbrev pub event_of : Happening S → Event (ℕ × State S) (List Byte)
    event_of (own e) = e
    event_of (other r) = elsewhere (served_elsewhere r)

    abbrev pub events_of : List (Happening S) → List (Event (ℕ × State S) (List Byte))
    events_of [] = []
    events_of (h ∷ hs) = event_of h ∷ events_of hs

    abbrev pub call_on_storage : ℕ × State S → List ℕ → List (List Byte) × (ℕ × State S)
    call_on_storage = call_request parse clock w c

    -- The history of what happens: the requests of the messages that each read hands on, and the
    -- requests of others.
    unfoldable pub history :
        (List ℕ → Option ℕ)
        → CircularBuffer (List Byte)
        → Client S
        → List (Happening S)
        → List Served
    history size q s [] = []
    history size q s (own (arrives chunk) ∷ hs) =
        own_all (requests_at parse clock s.state.0 (on_read size s.connection chunk).messages)
        ++ history size q (on_arrival size call_on_storage q s chunk) hs
    history size q s (own e ∷ hs) = history size q (occur size call_on_storage q s e) hs
    history size q s (other r ∷ hs) =
        (false, r) ∷ history size q (occur size call_on_storage q s (event_of (other r))) hs

    -- The messages of a read, as steps of the history.
    call_all-replay_own :
        (n : ℕ) (st : State S) (vs : List (List ℕ)) (h : List Served)
        → let a = call_all call_on_storage (n, st) vs in
          let b = replay_own w h (view c a.1.1.storage) in
          replay_own w (own_all (requests_at parse clock n vs) ++ h) (view c st.storage)
          ≡ (a.0 ++ b.0, b.1)
    unfolding call_all requests_at
    call_all-replay_own n st [] h = refl
    call_all-replay_own n st (v ∷ vs) h =
        let r : Request = parse (clock n) v in
        let (answer, st') = serve w c r st in
        serve-replay_own w c true r st (own_all (requests_at parse clock (suc n) vs) ++ h)
        ∙ ap (λ (p : List (List Byte) × (Key → Cell)). (answer ∷ p.0, p.1))
            (call_all-replay_own (suc n) st' vs h)

    -- How many requests of this connection were served.
    pub call_all_count :
        (n : ℕ) (st : State S) (vs : List (List ℕ))
        → (call_all call_on_storage (n, st) vs).1.0 ≡ n + length vs
    unfolding call_all
    call_all_count n st [] = omega arith
    call_all_count n st (v ∷ vs) =
        call_all_count (suc n) (serve w c (parse (clock n) v) st).1 vs ∙ omega arith

    abbrev pub Told :
        (List ℕ → Option ℕ) → CircularBuffer (List Byte) → Client S → List (Happening S) → Type 0
    Told size q s hs =
        let a = replay_own w (history size q s hs) (view c s.state.1.storage) in
        (handed size call_on_storage q s (events_of hs) ≡ a.0)
        × (view c (occur_all size call_on_storage q s (events_of hs)).state.1.storage ≡ a.1)

    pub handed-replay_own :
        (size : List ℕ → Option ℕ) (q : CircularBuffer (List Byte)) (s : Client S)
        (hs : List (Happening S))
        → NoDelivery hs
        → Told size q s hs
    unfolding handed occur_all occur on_arrival on_read_error history replay_own
    handed-replay_own size q s [] alone = (refl, refl)
    handed-replay_own size q s (own (arrives chunk) ∷ hs) alone =
        let s' : Client S = on_arrival size call_on_storage q s chunk in
        let ih = handed-replay_own size q s' hs alone in
        let vs = (on_read size s.connection chunk).messages in
        let step = call_all-replay_own s.state.0 s.state.1 vs (history size q s' hs) in
        let answers = (call_all call_on_storage s.state vs).0 in
        (
          ap (◌++◌ answers) ih.0 ∙ sym (ap (λ (p : List (List Byte) × (Key → Cell)). p.0) step),
          ih.1 ∙ sym (ap (λ (p : List (List Byte) × (Key → Cell)). p.1) step),
        )
    handed-replay_own size q s (own breaks ∷ hs) alone =
        handed-replay_own size q (on_read_error s) hs alone
    handed-replay_own size q s (own (runs i) ∷ hs) alone =
        let s' : Client S = occur size call_on_storage q s (runs i) in
        let ih = handed-replay_own size q s' hs alone in
        let same = (run_handler_same q s (pick i s.posted)).0 in
        let shift =
          ap (λ (x : ℕ × State S). replay_own w (history size q s' hs) (view c x.1.storage)) same in
        (
          ih.0 ∙ ap (λ (p : List (List Byte) × (Key → Cell)). p.0) shift,
          ih.1 ∙ ap (λ (p : List (List Byte) × (Key → Cell)). p.1) shift,
        )
    handed-replay_own size q s (own written ∷ hs) alone =
        handed-replay_own size q (occur size call_on_storage q s written) hs alone
    handed-replay_own size q s (own fails ∷ hs) alone =
        handed-replay_own size q (occur size call_on_storage q s fails) hs alone
    handed-replay_own size q s (own (delivers m) ∷ hs) alone = absurd alone
    handed-replay_own size q s (own (elsewhere f) ∷ hs) alone = absurd alone
    handed-replay_own size q s (other r ∷ hs) alone =
        let s' : Client S = occur size call_on_storage q s (event_of (other r)) in
        let ih = handed-replay_own size q s' hs alone in
        let step = serve-replay_own w c false r s.state.1 (history size q s' hs) in
        (
          ih.0 ∙ sym (ap (λ (p : List (List Byte) × (Key → Cell)). p.0) step),
          ih.1 ∙ sym (ap (λ (p : List (List Byte) × (Key → Cell)). p.1) step),
        )
