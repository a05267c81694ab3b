-- ===== src/Connection.antt =====
-- src/include/throttr/connection.ipp and connection.hpp: the read side of a connection. Bytes of the
-- socket go into a fixed buffer, whole messages are cut off its front and handed to their commands.
-- `size` is get_message_size: `none` stands for a read past the table of callbacks, and `some 0` for
-- a message whose size is not known yet.
pub mod Split
pub mod Buffer
pub mod Reads
pub mod Stall
use throttr.Prelude.{
  ℕ, zero, suc, ◌+◌, ◌-◌, ◌/◌, List, [], ◌∷◌, ◌++◌, Bool, Option, none, some, length, take, drop,
  ◌==◌, ◌||◌, ltb, if◌then◌else◌,
}

-- connection::max_length_
unfoldable pub max_length : ℕ
max_length = 8096

pub record Connection : Type 0 where
  pub buffer : List ℕ
  pub buffer_start : ℕ
  pub buffer_end : ℕ

-- The bytes that were read and not yet cut off.
unfoldable pub span : Connection → List ℕ
span c = take (c.buffer_end - c.buffer_start) (drop c.buffer_start c.buffer)

-- Why a loop over the buffer stops: it waits for bytes, it read past the table of callbacks, or the
-- fuel of the model ran out.
pub data Stop : Type 0 where
  waits fault no_fuel : Stop

pub record Round : Type 0 where
  pub messages : List (List ℕ)
  pub connection : Connection
  pub stop : Stop

abbrev pub with_message : List ℕ → Round → Round
with_message m r = record r { messages = m ∷ r.messages }

-- connection::compact_buffer: a `memmove` to the front of the buffer.
unfoldable pub compact_buffer : Connection → Connection
compact_buffer c = if c.buffer_start == c.buffer_end then c else record {
  buffer = span c ++ drop (c.buffer_end - c.buffer_start) c.buffer;
  buffer_start = 0;
  buffer_end = c.buffer_end - c.buffer_start;
}

-- connection::compact_buffer_if_needed
unfoldable pub compact_buffer_if_needed : Connection → Connection
compact_buffer_if_needed c =
    if c.buffer_start == c.buffer_end
    then record c { buffer_start = 0; buffer_end = 0 }
    else if ltb (max_length / 2) c.buffer_start
    then compact_buffer c
    else c

-- connection::do_read, up to the read that it starts into the room behind `buffer_end`.
unfoldable pub do_read : Connection → Connection
do_read c = if c.buffer_end == max_length then compact_buffer c else c

-- The room that async_read_some is given.
abbrev pub room : Connection → ℕ
room c = max_length - c.buffer_end

-- What the socket has written when on_read is called with the length of the chunk.
unfoldable pub received : Connection → List ℕ → Connection
received c chunk = record c {
  buffer = take c.buffer_end c.buffer ++ (chunk ++ drop (c.buffer_end + length chunk) c.buffer);
}

module _ (size : List ℕ → Option ℕ) where
  -- The loop of connection::try_process_next. Each round cuts a message of one byte at least, so
  -- one unit of fuel more than there are bytes is enough.
  unfoldable pub process : ℕ → Connection → Round
  process zero c = record { messages = []; connection = c; stop = no_fuel }
  process (suc fuel) c = elim (size (span c)) [
    | none ↦ record { messages = []; connection = c; stop = fault }
    | some n ↦
        let cut =
          with_message (take n (span c))
            (process fuel (record c { buffer_start = c.buffer_start + n })) in
        if n == 0 || ltb (length (span c)) n
        then record { messages = []; connection = c; stop = waits }
        else cut
  ]

  -- connection::try_process_next
  unfoldable pub try_process_next : Connection → Round
  try_process_next c =
      let r = process (suc (length (span c))) c in
      record r { connection = do_read (compact_buffer_if_needed r.connection) }

  -- connection::on_read without an error.
  unfoldable pub on_read : Connection → List ℕ → Round
  on_read c chunk =
      let c' = received c chunk in
      try_process_next (record c' { buffer_end = c'.buffer_end + length chunk })
