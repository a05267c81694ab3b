-- ===== src/Messages/Sizes.antt =====
-- Bounds of the sizes that the callbacks of the message table give.
use native.Mathlib.Nat.{mod-eq_of_lt}
use mathlib.Core.Path.{subst}
use throttr.Prelude.{
  ℕ, zero, suc, ◌+◌, ◌*◌, ◌-◌, ◌%◌, ◌^◌, ◌≤◌, ◌<◌, List, [], ◌∷◌, length, take, drop, ◌≡◌, ◌⊎◌,
  arith, All, length-take, length-drop,
}
use throttr.Prelude.Bytes.{le_value-lt}
use throttr.Protocol.{
  value_mod, u64_mod, RequestTypes, insert, query, update, set, get, purge, stat, list, stats,
  connections, connection, whoami, subscribe, unsubscribe, publish, channels, channel, info, event,
}
use throttr.Messages.{Headers, byte_at, value_at, keyed_size, valued_size, fixed_size, message_size}
use throttr.Messages.Stable.{IsLayout}

abbrev pub AllBytes : List ℕ → Type 0
AllBytes = All (λ b. b < 256)

byte_at-lt : (bs : List ℕ) (i : ℕ) → AllBytes bs → byte_at bs i < 256
byte_at-lt [] i h = omega arith
byte_at-lt (b ∷ bs) zero h = h.0
byte_at-lt (b ∷ bs) (suc i) h = byte_at-lt bs i h.1

AllBytes-take : (n : ℕ) (bs : List ℕ) → AllBytes bs → AllBytes (take n bs)
AllBytes-take zero bs h = tt
AllBytes-take (suc n) [] h = tt
AllBytes-take (suc n) (b ∷ bs) h = (h.0, AllBytes-take n bs h.1)

AllBytes-drop : (n : ℕ) (bs : List ℕ) → AllBytes bs → AllBytes (drop n bs)
AllBytes-drop zero bs h = h
AllBytes-drop (suc n) [] h = tt
AllBytes-drop (suc n) (b ∷ bs) h = AllBytes-drop n bs h.1

value_at-lt :
    (w i : ℕ) (bs : List ℕ) → AllBytes bs → i + w ≤ length bs → value_at w bs i < value_mod w
value_at-lt w i bs h fits =
    subst (λ (k : ℕ). value_at w bs i < 256 ^ k)
      (omega (arith, length-take w (drop i bs), length-drop i bs))
      (le_value-lt (take w (drop i bs)) (AllBytes-take w (drop i bs) (AllBytes-drop i bs h)))

-- The header of each type, as its callback takes it.
abbrev pub header_of : Headers → RequestTypes → ℕ
header_of h insert = h.insert_size
header_of h query = h.query_size
header_of h update = h.update_size
header_of h set = h.set_size
header_of h get = h.get_size
header_of h purge = h.purge_size
header_of h stat = h.stat_size
header_of h list = h.list_size
header_of h stats = h.stats_size
header_of h connections = h.connections_size
header_of h connection = h.connection_size
header_of h whoami = h.whoami_size
header_of h subscribe = h.subscribe_size
header_of h unsubscribe = h.unsubscribe_size
header_of h publish = h.publish_size
header_of h channels = h.channels_size
header_of h channel = h.channel_size
header_of h info = h.whoami_size
header_of h event = h.event_size

-- A size between a header and the most that its counts add, or none and an incomplete header.
abbrev pub Within : ℕ → ℕ → List ℕ → ℕ → Type 0
Within w header bs n =
    ((n ≡ 0) × (length bs < header))
    ⊎ ((header ≤ length bs) × (header ≤ n) × (n < header + 256 + value_mod w))

module _ (w : ℕ) (bs : List ℕ) (bytes : AllBytes bs) where
  keyed_size-Within : (header at : ℕ) → Within w header bs (keyed_size header at bs)
  unfolding keyed_size
  keyed_size-Within header at = ground (arith, byte_at-lt bs at bytes)

  fixed_size-Within : (header : ℕ) → Within w header bs (fixed_size header bs)
  unfolding fixed_size
  fixed_size-Within header = ground arith

  counted :
      (header at i : ℕ)
      → i + w ≤ header
      → header + 256 + value_mod w ≤ u64_mod
      → header ≤ length bs
      → (header + byte_at bs at + value_at w bs i) % u64_mod
        ≡ header + byte_at bs at + value_at w bs i
  counted header at i lies fits whole =
      mod-eq_of_lt {n = header + byte_at bs at + value_at w bs i} {m = u64_mod}
        (omega (arith, byte_at-lt bs at bytes, value_at-lt w i bs bytes (omega arith)))

  valued_size-Within :
      (header at i : ℕ)
      → i + w ≤ header
      → header + 256 + value_mod w ≤ u64_mod
      → Within w header bs (valued_size w header at i bs)
  unfolding valued_size
  valued_size-Within header at i lies fits =
      ground
        (arith, byte_at-lt bs at bytes, value_at-lt w i bs bytes, counted header at i lies fits)

-- The sizes of `set`, `publish` and `event` do not wrap at 2^64.
abbrev pub IsNarrow : ℕ → Headers → Type 0
IsNarrow w h =
    (h.set_size + 256 + value_mod w ≤ u64_mod)
    × (h.publish_size + 256 + value_mod w ≤ u64_mod)
    × (h.event_size + 256 + value_mod w ≤ u64_mod)

-- The callback of a request type answers 0 exactly on a header that is not complete, and else at
-- least the header and less than the header, 256 and the range of a value together; for headers
-- that hold their counts and sums that do not wrap.
pub message_size_bounds :
    (w : ℕ) (h : Headers)
    → IsLayout w h
    → IsNarrow w h
    → (t : RequestTypes) (bs : List ℕ) → AllBytes bs
    → Within w (header_of h t) bs (message_size w h t bs)
unfolding message_size
message_size_bounds w h l narrow insert bs bytes =
    keyed_size-Within w bs bytes h.insert_size (w * 2 + 2)
message_size_bounds w h l narrow query bs bytes = keyed_size-Within w bs bytes h.query_size 1
message_size_bounds w h l narrow update bs bytes =
    keyed_size-Within w bs bytes h.update_size (w + 3)
message_size_bounds w h l narrow set bs bytes =
    valued_size-Within w bs bytes h.set_size (2 + w) (3 + w) l.set_counts.1 narrow.0
message_size_bounds w h l narrow get bs bytes = keyed_size-Within w bs bytes h.get_size 1
message_size_bounds w h l narrow purge bs bytes = keyed_size-Within w bs bytes h.purge_size 1
message_size_bounds w h l narrow stat bs bytes = keyed_size-Within w bs bytes h.stat_size 1
message_size_bounds w h l narrow list bs bytes = fixed_size-Within w bs bytes h.list_size
message_size_bounds w h l narrow stats bs bytes = fixed_size-Within w bs bytes h.stats_size
message_size_bounds w h l narrow connections bs bytes =
    fixed_size-Within w bs bytes h.connections_size
message_size_bounds w h l narrow connection bs bytes =
    fixed_size-Within w bs bytes h.connection_size
message_size_bounds w h l narrow whoami bs bytes = fixed_size-Within w bs bytes h.whoami_size
message_size_bounds w h l narrow subscribe bs bytes =
    keyed_size-Within w bs bytes h.subscribe_size 1
message_size_bounds w h l narrow unsubscribe bs bytes =
    keyed_size-Within w bs bytes h.unsubscribe_size 1
message_size_bounds w h l narrow publish bs bytes =
    valued_size-Within w bs bytes h.publish_size 1 2 l.publish_counts.1 narrow.1
message_size_bounds w h l narrow channels bs bytes = fixed_size-Within w bs bytes h.channels_size
message_size_bounds w h l narrow channel bs bytes = keyed_size-Within w bs bytes h.channel_size 1
message_size_bounds w h l narrow info bs bytes = fixed_size-Within w bs bytes h.whoami_size
message_size_bounds w h l narrow event bs bytes =
    valued_size-Within w bs bytes h.event_size 1 2 l.event_counts.1 narrow.2

-- A complete header of set whose counts are below 2^64 together, and above it with the header, is
-- given a size between 1 and the header less 1; for a header of at most 2^64.
pub message_size-set_wraps :
    (w : ℕ) (h : Headers) (bs : List ℕ)
    → h.set_size ≤ length bs
    → byte_at bs (2 + w) + value_at w bs (3 + w) < u64_mod
    → u64_mod < h.set_size + byte_at bs (2 + w) + value_at w bs (3 + w)
    → h.set_size ≤ u64_mod
    → (0 < message_size w h set bs) × (message_size w h set bs < h.set_size)
unfolding message_size valued_size
message_size-set_wraps w h bs whole below above small =
    ground
      (arith, wrapped (h.set_size + byte_at bs (2 + w) + value_at w bs (3 + w)) above (omega arith))
  where
    wrapped : (s : ℕ) → u64_mod < s → s < 2 * u64_mod → s % u64_mod ≡ s - u64_mod
    wrapped s lo hi = omega arith
