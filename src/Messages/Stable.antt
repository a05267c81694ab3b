-- ===== src/Messages/Stable.antt =====
-- The sizes of messages while more bytes come.
use throttr.Prelude.{
  ℕ, zero, suc, ◌+◌, ◌*◌, ◌≤◌, ◌<◌, List, [], ◌∷◌, ◌++◌, some, length, take, drop, set as put,
  replicate, All, ◌≡◌, refl, ◌∙◌, ap, arith, length-append, get_or-append_left, take-append_le,
  drop-append_le, length-drop,
}
use throttr.Prelude.Bytes.{le_value}
use throttr.Protocol.{
  RequestTypes, insert, query, update, set, get, purge, stat, list, stats, connections, connection,
  whoami, subscribe, unsubscribe, publish, channels, channel, info, event,
}
use throttr.Messages.{
  Headers, value_at, keyed_size, valued_size, fixed_size, message_size, slot, apply_to,
  get_message_size, message_types, invalid_size, install, request_types,
}
use throttr.Connection.Split.{IsStable}

-- A size that is known stays the same behind which more bytes come.
abbrev IsSettled : (List ℕ → ℕ) → Type 0
IsSettled f = (xs ys : List ℕ) → 0 < f xs → f (xs ++ ys) ≡ f xs

keyed_size-IsSettled : (header at : ℕ) → at < header → IsSettled (keyed_size header at)
unfolding keyed_size
keyed_size-IsSettled header at h xs ys pos =
    ground (arith, length-append xs ys, get_or-append_left xs ys at 0)

fixed_size-IsSettled : (header : ℕ) → IsSettled (fixed_size header)
unfolding fixed_size
fixed_size-IsSettled header xs ys pos = ground (arith, length-append xs ys)

value_at-append :
    (w i : ℕ) (xs ys : List ℕ) → i + w ≤ length xs → value_at w (xs ++ ys) i ≡ value_at w xs i
value_at-append w i xs ys h =
    ap (λ (bs : List ℕ). le_value (take w bs)) (drop-append_le i xs ys (omega arith))
    ∙ ap le_value (take-append_le w (drop i xs) ys (omega (arith, length-drop i xs)))

valued_size-IsSettled :
    (w header at value_offset : ℕ)
    → at < header
    → value_offset + w ≤ header
    → IsSettled (valued_size w header at value_offset)
unfolding valued_size
valued_size-IsSettled w header at value_offset h k xs ys pos = ground (
  arith,
  length-append xs ys,
  get_or-append_left xs ys at 0,
  value_at-append w value_offset xs ys,
)

-- What the callbacks ask of the headers: the counts that they read lie within them.
pub record IsLayout (w : ℕ) (h : Headers) : Type 0 where
  pub insert_count : w * 2 + 2 < h.insert_size
  pub query_count : 1 < h.query_size
  pub update_count : w + 3 < h.update_size
  pub set_counts : (2 + w < h.set_size) × (3 + w + w ≤ h.set_size)
  pub get_count : 1 < h.get_size
  pub purge_count : 1 < h.purge_size
  pub stat_count : 1 < h.stat_size
  pub subscribe_count : 1 < h.subscribe_size
  pub unsubscribe_count : 1 < h.unsubscribe_size
  pub publish_counts : (1 < h.publish_size) × (2 + w ≤ h.publish_size)
  pub channel_count : 1 < h.channel_size
  pub event_counts : (1 < h.event_size) × (2 + w ≤ h.event_size)

message_size-IsSettled :
    (w : ℕ) (h : Headers) → IsLayout w h → (t : RequestTypes) → IsSettled (message_size w h t)
unfolding message_size
message_size-IsSettled w h l insert = keyed_size-IsSettled h.insert_size (w * 2 + 2) l.insert_count
message_size-IsSettled w h l query = keyed_size-IsSettled h.query_size 1 l.query_count
message_size-IsSettled w h l update = keyed_size-IsSettled h.update_size (w + 3) l.update_count
message_size-IsSettled w h l set =
    valued_size-IsSettled w h.set_size (2 + w) (3 + w) l.set_counts.0 l.set_counts.1
message_size-IsSettled w h l get = keyed_size-IsSettled h.get_size 1 l.get_count
message_size-IsSettled w h l purge = keyed_size-IsSettled h.purge_size 1 l.purge_count
message_size-IsSettled w h l stat = keyed_size-IsSettled h.stat_size 1 l.stat_count
message_size-IsSettled w h l list = fixed_size-IsSettled h.list_size
message_size-IsSettled w h l stats = fixed_size-IsSettled h.stats_size
message_size-IsSettled w h l connections = fixed_size-IsSettled h.connections_size
message_size-IsSettled w h l connection = fixed_size-IsSettled h.connection_size
message_size-IsSettled w h l whoami = fixed_size-IsSettled h.whoami_size
message_size-IsSettled w h l subscribe = keyed_size-IsSettled h.subscribe_size 1 l.subscribe_count
message_size-IsSettled w h l unsubscribe =
    keyed_size-IsSettled h.unsubscribe_size 1 l.unsubscribe_count
message_size-IsSettled w h l publish =
    valued_size-IsSettled w h.publish_size 1 2 l.publish_counts.0 l.publish_counts.1
message_size-IsSettled w h l channels = fixed_size-IsSettled h.channels_size
message_size-IsSettled w h l channel = keyed_size-IsSettled h.channel_size 1 l.channel_count
message_size-IsSettled w h l info = fixed_size-IsSettled h.whoami_size
message_size-IsSettled w h l event =
    valued_size-IsSettled w h.event_size 1 2 l.event_counts.0 l.event_counts.1

All-put :
    (table : List (List ℕ → ℕ)) (i : ℕ) (f : List ℕ → ℕ)
    → All IsSettled table
    → IsSettled f
    → All IsSettled (put table i f)
All-put [] i f all h = tt
All-put (g ∷ table) zero f all h = (h, all.1)
All-put (g ∷ table) (suc i) f all h = (all.0, All-put table i f all.1 h)

All-install :
    (code : RequestTypes → ℕ) (callback : RequestTypes → List ℕ → ℕ) (ts : List RequestTypes)
    (table : List (List ℕ → ℕ))
    → ((t : RequestTypes) → IsSettled (callback t))
    → All IsSettled table
    → All IsSettled (install code callback ts table)
unfolding install
All-install code callback [] table h all = all
All-install code callback (t ∷ ts) table h all =
    All-install code callback ts (put table (code t) (callback t)) h
      (All-put table (code t) (callback t) all (h t))

All-invalid : (n : ℕ) → All IsSettled (replicate n invalid_size)
All-invalid zero = tt
All-invalid (suc n) = (λ xs ys pos. refl, All-invalid n)

slot-IsSettled :
    (table : List (List ℕ → ℕ)) (i : ℕ) (xs ys : List ℕ) (n : ℕ)
    → All IsSettled table
    → apply_to xs (slot table i) ≡ some n
    → 0 < n
    → apply_to (xs ++ ys) (slot table i) ≡ some n
unfolding apply_to
slot-IsSettled [] i xs ys n all e pos = cc
slot-IsSettled (f ∷ table) zero xs ys n all e pos = ground (arith, all.0 xs ys)
slot-IsSettled (f ∷ table) (suc i) xs ys n all e pos = slot-IsSettled table i xs ys n all.1 e pos

table-IsStable :
    (table : List (List ℕ → ℕ)) → All IsSettled table → IsStable (get_message_size table)
unfolding get_message_size
table-IsStable table all = record { stable = λ xs ys n e pos. settled xs ys n e pos }
  where
    settled :
        (xs ys : List ℕ) (n : ℕ)
        → get_message_size table xs ≡ some n
        → 0 < n
        → get_message_size table (xs ++ ys) ≡ some n
    settled [] ys n e pos = absurd (ground arith)
    settled (b ∷ bs) ys n e pos = slot-IsSettled table b (b ∷ bs) ys n all e pos

-- The size of a message, once known, stays the same when more bytes come; for headers that hold
-- the counts that are read in them.
pub message_types-IsStable :
    (w : ℕ) (h : Headers) (code : RequestTypes → ℕ)
    → IsLayout w h
    → IsStable (get_message_size (message_types w h code))
unfolding message_types
message_types-IsStable w h code l = table-IsStable (message_types w h code) (
    All-install code (message_size w h) request_types (replicate 32 invalid_size)
      (message_size-IsSettled w h l) (All-invalid 32))
