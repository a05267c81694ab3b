-- ===== src/Subscriptions.antt =====
-- src/include/throttr/subscription.hpp, src/include/throttr/services/subscriptions_service.hpp,
-- src/sources/services/subscriptions_service.cpp, and src/sources/commands/subscribe_command.cpp,
-- unsubscribe_command.cpp and publish_command.cpp. The container of subscriptions has two ordered
-- indexes of keys that may repeat; it is not part of the repository, so it is a parameter: the
-- operations that the code calls and the laws of their documentation. Connections are known by
-- numbers in place of their UUIDs. The counters of bytes that publishing
-- raises are a list of marks.
pub mod ListSubscriptions
pub mod Laws
pub mod Publishing
pub mod Counting
use throttr.Prelude.{
  ℕ, ◌%◌, ◌-◌, List, [], ◌∷◌, ◌++◌, Bool, true, false, not, ◌&&◌, ◌||◌, ◌==◌, ◌≡◌, bytes_eq, length,
  take, replicate, if◌then◌else◌,
}
use throttr.Prelude.Bytes.{le_bytes}
use throttr.Protocol.{value_mod}
use throttr.Entry.{Key}
use throttr.State.{status}

pub record Subscription : Type 0 where
  pub connection_id : ℕ
  pub channel : Key
  pub subscribed_at : ℕ

unfoldable pub keep : (Subscription → Bool) → List Subscription → List Subscription
keep p [] = []
keep p (x ∷ xs) = let rest = keep p xs in if p x then x ∷ rest else rest

unfoldable pub exists : (Subscription → Bool) → List Subscription → Bool
exists p [] = false
exists p (x ∷ xs) = p x || exists p xs

abbrev pub of_connection : ℕ → Subscription → Bool
of_connection id x = x.connection_id == id

abbrev pub of_channel : Key → Subscription → Bool
of_channel channel x = bytes_eq x.channel channel

abbrev pub of_both : ℕ → Key → Subscription → Bool
of_both id channel x = x.connection_id == id && bytes_eq x.channel channel

pub record SubscriptionContainer (S : Type 0) : Type 0 where
  -- the index by_connection_id, from begin() to end()
  pub by_connection_id : S → List Subscription
  -- equal_range of a channel in the index by_channel_name
  pub equal_range : S → Key → List Subscription
  pub insert : S → Subscription → S × Bool
  -- the loop that erases the elements that a loop over equal_range of a connection has collected
  pub erase_if : S → (Subscription → Bool) → S
  pub insert_inserts : (s : S) (x : Subscription) → (insert s x).1 ≡ true
  pub exists-by_connection_id :
      (s : S) (x : Subscription) (p : Subscription → Bool)
      → exists p (by_connection_id (insert s x).0) ≡ (p x || exists p (by_connection_id s))
  pub equal_range-insert :
      (s : S) (x : Subscription) (channel : Key)
      → equal_range (insert s x).0 channel
        ≡ equal_range s channel ++ (if of_channel channel x then x ∷ [] else [])
  pub by_connection_id-erase_if :
      (s : S) (p : Subscription → Bool)
      → by_connection_id (erase_if s p) ≡ keep (λ x. not (p x)) (by_connection_id s)
  pub equal_range-erase_if :
      (s : S) (p : Subscription → Bool) (channel : Key)
      → equal_range (erase_if s p) channel ≡ keep (λ x. not (p x)) (equal_range s channel)
  pub equal_range-of_channel :
      (s : S) (channel : Key)
      → keep (of_channel channel) (equal_range s channel) ≡ equal_range s channel

-- `find` on the index: the rest of the index from the first element of a connection.
unfoldable pub find_from : ℕ → List Subscription → List Subscription
find_from id [] = []
find_from id (x ∷ xs) = let rest = find_from id xs in if x.connection_id == id then x ∷ xs else rest

-- The event that publish_command writes for a subscriber. `code` is the byte of
-- request_types::event. The buffer is as long as the whole channel, which is copied up to its size
-- modulo 256.
unfoldable pub event_frame : ℕ → ℕ → Key → List ℕ → List ℕ
event_frame w code channel payload =
    let channel_size = length channel % 256 in
    code
    ∷ channel_size
    ∷ (le_bytes w (length payload % value_mod w)
        ++ (take channel_size channel ++ (payload ++ replicate (length channel - channel_size) 0)))

-- The four maps of connections of the state, in the order in which a message is handed to them.
pub data ConnectionMap : Type 0 where
  tcp unix agent_tcp agent_unix : ConnectionMap

-- Whether two maps are the same.
abbrev pub same_map : ConnectionMap → ConnectionMap → Bool
same_map tcp tcp = true
same_map unix unix = true
same_map agent_tcp agent_tcp = true
same_map agent_unix agent_unix = true
same_map m k = false

-- What publishing counts, each time the size of the payload: the bytes read by a subscription, and
-- those published or received by a connection of a map.
pub data Mark : Type 0 where
  reads : ℕ → Mark
  publishes : ConnectionMap → ℕ → Mark
  receives : ConnectionMap → ℕ → Mark

-- A message sent to a connection.
pub record Delivery : Type 0 where
  pub target : ConnectionMap
  pub connection_id : ℕ
  pub frame : List ℕ

-- `_process` for one map.
unfoldable pub send_if : Bool → Delivery → List Delivery → List Delivery
send_if true d rest = d ∷ rest
send_if false d rest = rest

-- The loop over the subscribers of a channel.
unfoldable pub deliver : (ConnectionMap → ℕ → Bool) → List ℕ → List Subscription → List Delivery
deliver contains frame [] = []
deliver contains frame (x ∷ xs) =
    let id = x.connection_id in
    let to : ConnectionMap → Delivery =
      λ m. record { target = m; connection_id = id; frame = frame } in
    send_if (contains tcp id) (to tcp) (
      send_if (contains unix id) (to unix) (
        send_if (contains agent_tcp id) (to agent_tcp)
          (send_if (contains agent_unix id) (to agent_unix) (deliver contains frame xs))))

-- `_process` for one map, its count.
unfoldable pub mark_connection :
    (ConnectionMap → ℕ → Bool) → ℕ → ConnectionMap → ℕ → List Mark → List Mark
mark_connection contains publisher m id rest =
    if contains m id
    then (if id == publisher then publishes m id else receives m id) ∷ rest
    else rest

-- The counts of the loop over the subscribers of a channel.
unfoldable pub publish_marks : (ConnectionMap → ℕ → Bool) → ℕ → List Subscription → List Mark
publish_marks contains publisher [] = []
publish_marks contains publisher (x ∷ xs) =
    let to : ConnectionMap → List Mark → List Mark =
      λ m. mark_connection contains publisher m x.connection_id in
    reads x.connection_id
    ∷ to tcp (to unix (to agent_tcp (to agent_unix (publish_marks contains publisher xs))))

abbrev pub is_empty : List Subscription → Bool
is_empty [] = true
is_empty (x ∷ xs) = false

module _ {S : Type 0} (c : SubscriptionContainer S) where
  -- subscriptions_service::is_subscribed
  unfoldable pub is_subscribed : S → ℕ → Key → Bool
  is_subscribed s id channel = exists (of_channel channel) (find_from id (c.by_connection_id s))

  -- subscribe_command::call; `now` is the clock.
  unfoldable pub subscribe_command : ℕ → S → ℕ → Key → ℕ × S
  subscribe_command now s id channel =
      let (s', inserted) =
        c.insert s (record { connection_id = id; channel = channel; subscribed_at = now }) in
      (status inserted, s')

  -- unsubscribe_command::call
  unfoldable pub unsubscribe_command : S → ℕ → Key → ℕ × S
  unsubscribe_command s id channel =
      if is_subscribed s id channel
      then (status true, c.erase_if s (of_both id channel))
      else (status false, s)

  -- publish_command::call: the response's byte, and the messages sent.
  unfoldable pub publish_command :
      ℕ → ℕ → (ConnectionMap → ℕ → Bool) → S → Key → List ℕ → ℕ × List Delivery
  publish_command w code contains s channel payload =
      let subscribers = c.equal_range s channel in
      (
        status (not (is_empty subscribers)),
        deliver contains (event_frame w code channel payload) subscribers,
      )
