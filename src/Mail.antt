-- ===== src/Mail.antt =====
-- The life of a message: src/sources/messages_pool.cpp, and send, on_send and on_write of
-- src/include/throttr/connection.ipp. A message is taken from the pool of the thread, filled, posted to a
-- connection, moved to its queue of writes, and given back by the flag that on_write lowers, which
-- the next take_one sees. One thread and any number of connections, which are known by numbers.
pub mod Holding
pub mod Moves
pub mod Safety
use throttr.Prelude.{
  ℕ, suc, ◌≤◌, List, [], ◌∷◌, ◌++◌, Bool, true, false, Option, none, some, ◌≡◌, if◌then◌else◌,
}
use throttr.Circular.{CircularBuffer}
use throttr.Pools.{Heap, Pool, assign, set_in_use, default_count, took, take_one}
use throttr.Pools.Recycling.{IsPool}
use throttr.Writes.{capacity}
use throttr.Session.{pick}

pub record Mail : Type 0 where
  -- the pool of messages
  pub pool : Pool
  -- the messages whose handlers on_send are posted, of each connection
  pub posted : ℕ → List ℕ
  -- `pending_writes_` of each connection
  pub pending : ℕ → List ℕ

-- The flag of a message after its write: on_write lowers it if the message belongs to a pool.
unfoldable pub give_back : Heap → ℕ → Heap
give_back h m = if h.recyclable m then set_in_use h m false else h

-- connection::send
unfoldable pub post : Mail → ℕ → ℕ → Mail
post b id m = record b { posted = assign b.posted id (b.posted id ++ m ∷ []) }

-- connection::on_write without an error, on the messages: the front is taken off and given back.
unfoldable pub take_off : Mail → ℕ → List ℕ → Mail
take_off b id [] = b
take_off b id (m ∷ ms) = record b {
  pool = record b.pool { heap = give_back b.pool.heap m };
  pending = assign b.pending id ms;
}

-- What a command, or publish_command, writes into write_buffer_ of the message that it was given. The
-- segments of `buffers_` that point to other memory, as into an entry, are no part of it.
unfoldable pub fill : Mail → ℕ → List ℕ → Mail
fill b m bytes = record b {
  pool = record b.pool {
    heap = record b.pool.heap { write_buffer = assign b.pool.heap.write_buffer m bytes };
  };
}

module _ (q : CircularBuffer ℕ) where
  -- connection::on_send, on the messages, of the handler that a thread picked.
  unfoldable pub enqueue : Mail → ℕ → Option (ℕ × List ℕ) → Mail
  enqueue b id none = b
  enqueue b id (some (m, ms)) = record b {
    posted = assign b.posted id ms;
    pending = assign b.pending id (q.push_back capacity (b.pending id) m);
  }

  -- messages_pool::take_one with its default argument.
  abbrev pub Gives : Pool → ℕ → Pool → Type 0
  Gives p m p' = take_one q (suc default_count) default_count p ≡ took m p'

  -- A response or a publication is sent to a connection, or is dropped because its receiver is gone; a
  -- posted handler runs; a write ends.
  pub data Step : Mail → Mail → Type 0 where
    sends :
        (b : Mail) (id m : ℕ) (p' : Pool) (bytes : List ℕ)
        → Gives b.pool m p'
        → Step b (post (fill (record b { pool = p' }) m bytes) id m)
    drops :
        (b : Mail) (m : ℕ) (p' : Pool) (bytes : List ℕ)
        → Gives b.pool m p'
        → Step b (fill (record b { pool = p' }) m bytes)
    runs : (b : Mail) (id i : ℕ) → Step b (enqueue b id (pick i (b.posted id)))
    writes : (b : Mail) (id : ℕ) → Step b (take_off b id (b.pending id))

  -- What can come of a prepared pool and connections that wait for nothing.
  pub data Reachable : Mail → Type 0 where
    starts :
        (p : Pool)
        → IsPool p
        → default_count ≤ p.capacity
        → Reachable (record { pool = p; posted = λ id. []; pending = λ id. [] })
    goes_on : (b b' : Mail) → Reachable b → Step b b' → Reachable b'
