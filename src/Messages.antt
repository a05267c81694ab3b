-- ===== src/Messages.antt =====
-- src/sources/services/messages_service.cpp: the size of a message, from its first bytes; 0 while
-- it cannot be told. The sizes of the headers and the codes of the request types belong to the
-- protocol library, and are parameters. `w` is the size of a `value_type`.
pub mod Sizes
pub mod Stable
pub mod Table
use throttr.Prelude.{
  ℕ, zero, suc, ◌+◌, ◌*◌, ◌%◌, ◌^◌, List, [], ◌∷◌, Option, none, some, Bool, ltb, leb, length,
  get_or, take, drop, set as put, replicate, if◌then◌else◌,
}
use throttr.Prelude.Bytes.{le_value}
use throttr.Protocol.{
  u64_mod, RequestTypes, insert, query, update, set, get, purge, stat, list, stats, connections,
  connection, whoami, subscribe, unsubscribe, publish, channels, channel, info, event,
}

-- The constants `request_*_header_size`.
pub record Headers : Type 0 where
  pub insert_size : ℕ
  pub query_size : ℕ
  pub update_size : ℕ
  pub set_size : ℕ
  pub get_size : ℕ
  pub purge_size : ℕ
  pub stat_size : ℕ
  pub list_size : ℕ
  pub stats_size : ℕ
  pub connections_size : ℕ
  pub connection_size : ℕ
  pub whoami_size : ℕ
  pub subscribe_size : ℕ
  pub unsubscribe_size : ℕ
  pub publish_size : ℕ
  pub channels_size : ℕ
  pub channel_size : ℕ
  pub event_size : ℕ

-- buffer[i]
abbrev pub byte_at : List ℕ → ℕ → ℕ
byte_at buffer i = get_or buffer i 0

-- A `value_type` at an offset.
abbrev pub value_at : ℕ → List ℕ → ℕ → ℕ
value_at w buffer i = le_value (take w (drop i buffer))

-- A header, and one byte of it that counts the bytes that follow.
unfoldable pub keyed_size : ℕ → ℕ → List ℕ → ℕ
keyed_size header at buffer = if ltb (length buffer) header then 0 else header + byte_at buffer at

-- A header with two counts, a byte and a `value_type`; the sum is a `size_t`.
unfoldable pub valued_size : ℕ → ℕ → ℕ → ℕ → List ℕ → ℕ
valued_size w header at value_offset buffer =
    if ltb (length buffer) header
    then 0
    else (header + byte_at buffer at + value_at w buffer value_offset) % u64_mod

-- A header alone.
unfoldable pub fixed_size : ℕ → List ℕ → ℕ
fixed_size header buffer = if leb header (length buffer) then header else 0

module _ (w : ℕ) (h : Headers) where
  -- get_insert_size, get_query_size, and so on: the callback of each request type.
  unfoldable pub message_size : RequestTypes → List ℕ → ℕ
  message_size insert buffer = keyed_size h.insert_size (w * 2 + 2) buffer
  message_size query buffer = keyed_size h.query_size 1 buffer
  message_size update buffer = keyed_size h.update_size (w + 3) buffer
  message_size set buffer = valued_size w h.set_size (2 + w) (3 + w) buffer
  message_size get buffer = keyed_size h.get_size 1 buffer
  message_size purge buffer = keyed_size h.purge_size 1 buffer
  message_size stat buffer = keyed_size h.stat_size 1 buffer
  message_size list buffer = fixed_size h.list_size buffer
  message_size stats buffer = fixed_size h.stats_size buffer
  message_size connections buffer = fixed_size h.connections_size buffer
  message_size connection buffer = fixed_size h.connection_size buffer
  message_size whoami buffer = fixed_size h.whoami_size buffer
  message_size subscribe buffer = keyed_size h.subscribe_size 1 buffer
  message_size unsubscribe buffer = keyed_size h.unsubscribe_size 1 buffer
  message_size publish buffer = valued_size w h.publish_size 1 2 buffer
  message_size channels buffer = fixed_size h.channels_size buffer
  message_size channel buffer = keyed_size h.channel_size 1 buffer
  message_size info buffer = fixed_size h.whoami_size buffer
  message_size event buffer = valued_size w h.event_size 1 2 buffer

-- invalid_size
abbrev pub invalid_size : List ℕ → ℕ
invalid_size buffer = 0

-- A slot of a table, or nothing behind its end.
abbrev pub slot {ℓ} : {A : Type ℓ} → List A → ℕ → Option A
slot [] i = none
slot (x ∷ xs) zero = some x
slot (x ∷ xs) (suc i) = slot xs i

-- The assignments of a constructor that fills a table: one for each request type, in order.
unfoldable pub install {ℓ} :
    {A : Type ℓ} → (RequestTypes → ℕ) → (RequestTypes → A) → List RequestTypes → List A → List A
install code callback [] table = table
install code callback (t ∷ ts) table = install code callback ts (put table (code t) (callback t))

-- The types in the order in which messages_service::messages_service assigns them.
abbrev pub request_types : List RequestTypes
request_types =
    insert ∷ set ∷ query ∷ get ∷ update ∷ purge ∷ list ∷ stat ∷ stats ∷ connections ∷ connection
    ∷ whoami ∷ subscribe ∷ unsubscribe ∷ publish ∷ channels ∷ channel ∷ info ∷ event ∷ []

-- The table of messages_service, as its constructor leaves it.
unfoldable pub message_types : ℕ → Headers → (RequestTypes → ℕ) → List (List ℕ → ℕ)
message_types w h code = install code (message_size w h) request_types (replicate 32 invalid_size)

unfoldable pub apply_to : List ℕ → Option (List ℕ → ℕ) → Option ℕ
apply_to buffer none = none
apply_to buffer (some f) = some (f buffer)

-- connection::get_message_size: `none` where the first byte is no index of the table.
unfoldable pub get_message_size : List (List ℕ → ℕ) → List ℕ → Option ℕ
get_message_size table [] = some 0
get_message_size table (b ∷ bs) = apply_to (b ∷ bs) (slot table b)
