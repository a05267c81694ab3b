-- ===== src/Writes.antt =====
-- src/include/throttr/connection.ipp, the write side of a connection: on_send, write_next, on_write
-- and close. `M` is the type of messages. The queue is a boost::circular_buffer of 1024 messages; it
-- is a parameter, with the laws of its push_back. The flags of pooled messages are with Mail.
pub mod Order
use throttr.Prelude.{
  ℕ, ◌+◌, ◌<◌, List, [], ◌∷◌, ◌++◌, Bool, true, false, Option, none, some, ◌≡◌, length, drop, ltb,
  if◌then◌else◌,
}
use throttr.Circular.{CircularBuffer}

-- The capacity of pending_writes_.
abbrev pub capacity : ℕ
capacity = 1_024

pub record Writer (M : Type 0) : Type 0 where
  -- `pending_writes_`, the front first
  pub pending : List M
  -- the messages that async_write was started with, oldest first
  pub started : List M
  -- whether a write is in progress
  pub writing : Bool
  pub closed : Bool

-- What the executor runs: on_send with a message, or on_write without or with an error.
pub data Event (M : Type 0) : Type 0 where
  sends : M → Event M
  writes : Event M
  fails : Event M

module _ {M : Type 0} where
  -- connection::write_next
  unfoldable pub write_next : Writer M → List M → Writer M
  write_next w [] = w
  write_next w (m ∷ ms) = record w { started = w.started ++ m ∷ []; writing = true }

  -- connection::on_write without an error; the second argument is pending_writes_.
  unfoldable pub on_write : Writer M → List M → Writer M
  on_write w [] = record w { writing = false }
  on_write w (m ∷ ms) = write_next (record w { pending = ms; writing = false }) ms

  -- connection::on_write with an error: connection::close.
  unfoldable pub on_write_error : Writer M → Writer M
  on_write_error w = record w { writing = false; closed = true }

  module _ (q : CircularBuffer M) where
    -- connection::on_send
    unfoldable pub on_send : Writer M → M → Writer M
    on_send w m =
        let ms = q.push_back capacity w.pending m in
        let w' : Writer M = record w { pending = ms } in
        if ltb 1 (length ms) then w' else write_next w' ms

    unfoldable pub step : Writer M → Event M → Writer M
    step w (sends m) = on_send w m
    step w writes = on_write w w.pending
    step w fails = on_write_error w

    unfoldable pub steps : Writer M → List (Event M) → Writer M
    steps w [] = w
    steps w (e ∷ es) = steps (step w e) es
