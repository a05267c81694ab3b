-- ===== src/Channels.antt =====
-- The commands channels and channel: src/sources/commands/channels_command.cpp and
-- channel_command.cpp, and handle_fragmented_channels_response of
-- src/sources/services/response_builder_service.cpp. `subs` is the index by_channel_name from begin()
-- to end(), which is ordered, so the subscriptions of a channel are next to each other. The counters
-- that a subscription points to are a parameter, as are the 16 bytes of an id.
pub mod Groups
pub mod Room
use throttr.Prelude.{
  ℕ, zero, suc, ◌+◌, ◌*◌, ◌%◌, List, [], ◌∷◌, ◌++◌, Bool, true, false, bytes_eq, length, map,
  if◌then◌else◌,
}
use throttr.Prelude.Bytes.{le_bytes}
use throttr.Protocol.{u64_mod}
use throttr.Entry.{Key}
use throttr.State.{success_response, failed_response}
use throttr.Subscriptions.{Subscription, SubscriptionContainer}
use throttr.Reports.{Output, grow, point, put, fragments_from, max_fragment_size}

-- A channel with its equal_range.
pub record Channel : Type 0 where
  pub name : Key
  pub subscriptions : List Subscription

abbrev pub extend : Subscription → List Channel → List Channel
extend x [] = record { name = x.channel; subscriptions = x ∷ [] } ∷ []
extend x (g ∷ gs) =
    if bytes_eq x.channel g.name
    then record { name = x.channel; subscriptions = x ∷ g.subscriptions } ∷ gs
    else record { name = x.channel; subscriptions = x ∷ [] } ∷ g ∷ gs

-- The loop that goes from one equal_range to the next.
unfoldable pub channels_of : List Subscription → List Channel
channels_of [] = []
channels_of (x ∷ xs) = extend x (channels_of xs)

-- Sums of uint64_t.
unfoldable pub sum_of : (Subscription → ℕ) → List Subscription → ℕ → ℕ
sum_of f [] sum = sum
sum_of f (x ∷ xs) sum = sum_of f xs ((sum + f x) % u64_mod)

abbrev pub channel_cost : Channel → ℕ
channel_cost g = 1 + 8 + 8 + 8

-- `_write_buffer_size`, but for the fragments.
unfoldable pub channels_size : List Channel → ℕ
channels_size [] = 0
channels_size (g ∷ gs) = 8 * 3 + 1 + length g.name + channels_size gs

module _ (read_bytes write_bytes : Subscription → ℕ) where
  -- The two loops over a fragment: its channels, and then their names.
  unfoldable pub write_channel : Channel → Output → Output
  write_channel g o = put (le_bytes 8 (length g.subscriptions)) (
      put (le_bytes 8 (sum_of write_bytes g.subscriptions 0)) (
        put (le_bytes 8 (sum_of read_bytes g.subscriptions 0))
          (put ((length g.name % 256) ∷ []) o)))

  unfoldable pub write_channels : List Channel → Output → Output
  write_channels [] o = o
  write_channels (g ∷ gs) o = write_channels gs (write_channel g o)

  unfoldable pub write_names : List Channel → Output → Output
  write_names [] o = o
  write_names (g ∷ gs) o = write_names gs (put g.name o)

  unfoldable pub write_channel_fragments : ℕ → List (List Channel) → Output → Output
  write_channel_fragments i [] o = o
  write_channel_fragments i (f ∷ fs) o =
      write_channel_fragments (i + 1) fs
        (write_names f (write_channels f (put (le_bytes 8 (length f)) (put (le_bytes 8 i) o))))

  -- handle_fragmented_channels_response
  unfoldable pub handle_fragmented_channels_response : List Subscription → Output → Output
  handle_fragmented_channels_response subs o =
      let channels = channels_of subs in
      let fragments = fragments_from max_fragment_size channel_cost [] 0 channels in
      let segments = 1 + 1 + 2 * length fragments + 5 * length subs in
      let bytes = channels_size channels + 16 * length fragments + 8 in
      write_channel_fragments 1 fragments (
        put (le_bytes 8 (length fragments)) (point (success_response ∷ []) (grow segments bytes o)))

  -- channels_command::call, which hands the state, the batch and the buffer on.
  abbrev pub channels_command : List Subscription → Output → Output
  channels_command = handle_fragmented_channels_response

  module _ (uuid : ℕ → List ℕ) where
    unfoldable pub write_subscriptions : List Subscription → Output → Output
    write_subscriptions [] o = o
    write_subscriptions (x ∷ xs) o = write_subscriptions xs (
        put (le_bytes 8 (write_bytes x)) (
          put (le_bytes 8 (read_bytes x))
            (put (le_bytes 8 x.subscribed_at) (put (uuid x.connection_id) o))))

    unfoldable pub write_subscribers : List Subscription → Output → Output
    write_subscribers [] o =
        point (failed_response ∷ []) (record o { reserved = length o.batch + 1 })
    write_subscribers (x ∷ xs) o =
        let count = length (x ∷ xs) in
        write_subscriptions (x ∷ xs) (
          put (le_bytes 8 count)
            (point (success_response ∷ []) (grow (1 + 1 + 4 * count) (8 + (16 + 8 * 3) * count) o)))

    -- channel_command::call
    unfoldable pub channel_command :
        {S : Type 0} → SubscriptionContainer S → S → Key → Output → Output
    channel_command c s channel o = write_subscribers (c.equal_range s channel) o
