-- ===== src/Session.antt =====
-- src/include/throttr/connection.ipp: a whole connection. A read hands the messages of the buffer to
-- their commands one after another, and each response goes by a posted handler, on_send, to the
-- queue of writes. The executor is that of the io_context, which is no strand: a thread that is free
-- takes any handler that is posted.
-- `call` is what try_process_next does with one message on the shared state `St`: the counters of
-- metrics, a message of the pool, and the command of the table on what the protocol library parses.
-- It gives what is sent to this connection: the events of a publication that reaches its own client,
-- and then the response.
-- The other files say what the commands do; here they are any table of commands.
pub mod Order
pub mod Stream
pub mod Draining
pub mod Failing
pub mod Serving
pub mod Sharing
pub mod History
use throttr.Prelude.{
  ℕ, zero, suc, ◌≤◌, ◌<◌, List, [], ◌∷◌, ◌++◌, Bool, true, false, Option, none, some, ◌≡◌, length,
}
use throttr.Circular.{CircularBuffer}
use throttr.Connection.{Connection, Stop, waits, fault, no_fuel, on_read, room, do_read}
use throttr.Writes.{Writer, capacity, on_send, on_write, on_write_error}

pub record Session (St M : Type 0) : Type 0 where
  -- the state that all connections share
  pub state : St
  pub connection : Connection
  -- the handlers on_send that are posted and not yet run, oldest first
  pub posted : List M
  pub writer : Writer M
  -- whether a read is in progress
  pub reading : Bool

-- A connection whose socket is open: empty marks, nothing posted and nothing pending.
abbrev pub opened : {St M : Type 0} → St → List ℕ → Session St M
opened st array = record {
  state = st;
  connection = record { buffer = array; buffer_start = 0; buffer_end = 0 };
  posted = [];
  writer = record { pending = []; started = []; writing = false; closed = false };
  reading = false;
}

-- What the executor runs for a connection: a read that ended with bytes or with an error, a posted
-- handler by its place, and a write that ended without or with an error; and what other connections
-- do to it: a message that a publish sends, and a change of the shared state.
pub data Event (St M : Type 0) : Type 0 where
  arrives : List ℕ → Event St M
  breaks : Event St M
  runs : ℕ → Event St M
  written : Event St M
  fails : Event St M
  delivers : M → Event St M
  elsewhere : (St → St) → Event St M

-- The element at a place, and the others.
unfoldable pub pick {ℓ} : {A : Type ℓ} → ℕ → List A → Option (A × List A)
pick n [] = none
pick zero (x ∷ xs) = some (x, xs)
pick (suc n) (x ∷ xs) = elim (pick n xs) [ none ↦ none | some (y, ys) ↦ some (y, x ∷ ys) ]

-- do_read starts a read at the end of try_process_next, which a fault does not reach.
abbrev pub goes_on : Stop → Bool
goes_on waits = true
goes_on fault = false
goes_on no_fuel = false

module _ {St M : Type 0} where
  -- connection::start after the connection joined the state: the first do_read.
  unfoldable pub start : Session St M → Session St M
  start s = record s { connection = do_read s.connection; reading = true }

  -- connection::close, by a read that ended with an error.
  unfoldable pub on_read_error : Session St M → Session St M
  on_read_error s = record s { writer = record s.writer { closed = true }; reading = false }

  -- connection::send
  unfoldable pub send : Session St M → M → Session St M
  send s m = record s { posted = s.posted ++ m ∷ [] }

  module _ (call : St → List ℕ → List M × St) where
    -- The commands of messages, in order: the responses and the state.
    unfoldable pub call_all : St → List (List ℕ) → List M × St
    call_all st [] = ([], st)
    call_all st (v ∷ vs) =
        let (ms, st') = call st v in let (later, last) = call_all st' vs in (ms ++ later, last)

  module _ (q : CircularBuffer M) where
    -- The handler of a post: on_send.
    unfoldable pub run_handler : Session St M → Option (M × List M) → Session St M
    run_handler s none = s
    run_handler s (some (m, ms)) = record s { posted = ms; writer = on_send q s.writer m }

  module _ (size : List ℕ → Option ℕ) (call : St → List ℕ → List M × St)
      (q : CircularBuffer M) where
    -- connection::on_read and try_process_next with the commands and the posts of the responses.
    unfoldable pub on_arrival : Session St M → List ℕ → Session St M
    on_arrival s chunk =
        let r = on_read size s.connection chunk in
        let (responses, st) = call_all call s.state r.messages in
        record s {
          state = st;
          connection = r.connection;
          posted = s.posted ++ responses;
          reading = goes_on r.stop;
        }

    unfoldable pub occur : Session St M → Event St M → Session St M
    occur s (arrives chunk) = on_arrival s chunk
    occur s breaks = on_read_error s
    occur s (runs i) = run_handler q s (pick i s.posted)
    occur s written = record s { writer = on_write s.writer s.writer.pending }
    occur s fails = record s { writer = on_write_error s.writer }
    occur s (delivers m) = send s m
    occur s (elsewhere f) = record s { state = f s.state }

    unfoldable pub occur_all : Session St M → List (Event St M) → Session St M
    occur_all s [] = s
    occur_all s (e ∷ es) = occur_all (occur s e) es

    -- The messages that an event hands to send, in order.
    unfoldable pub handed : Session St M → List (Event St M) → List M
    handed s [] = []
    handed s (arrives chunk ∷ es) =
        (call_all call s.state (on_read size s.connection chunk).messages).0
        ++ handed (on_arrival s chunk) es
    handed s (delivers m ∷ es) = m ∷ handed (send s m) es
    handed s (e ∷ es) = handed (occur s e) es

    -- Events that can come: bytes of a read in progress, no more than it was given room for, and
    -- the end of a write in progress. The handlers run in the order of their posts, as on one thread,
    -- and the queue of writes has room.
    abbrev pub InOrder : Session St M → Event St M → Type 0
    InOrder s (arrives chunk) = (s.reading ≡ true) × (length chunk ≤ room s.connection)
    InOrder s breaks = s.reading ≡ true
    InOrder s (runs i) = (i ≡ 0) × (length s.writer.pending < capacity)
    InOrder s written = s.writer.writing ≡ true
    InOrder s fails = ⊥
    InOrder s (delivers m) = Unit
    InOrder s (elsewhere f) = Unit

    abbrev pub AllInOrder : Session St M → List (Event St M) → Type 0
    AllInOrder s [] = Unit
    AllInOrder s (e ∷ es) = InOrder s e × AllInOrder (occur s e) es
