-- ===== src/Subscriptions/Publishing.antt =====
-- Who receives what is published, and what a subscriber reads.
use mathlib.Core.List.{append-nil}
use native.Mathlib.Nat.{mod-eq_of_lt}
use throttr.Prelude.{
  ℕ, ◌+◌, ◌-◌, ◌%◌, ◌<◌, List, [], ◌∷◌, ◌++◌, Bool, true, false, not, ◌&&◌, ◌||◌, ◌==◌, ◌≡◌, refl,
  sym, ◌∙◌, ap, arith, bytes_eq_refl, length, length-append, take, Bool-cases, ◌⊎◌, inl, inr,
}
use throttr.Prelude.Bytes.{le_value, le_bytes, length-le_bytes, le_value-le_bytes, take-le_bytes}
use throttr.Protocol.{value_mod, u64_mod, event}
use throttr.Entry.{Key}
use throttr.State.{status}
use throttr.Messages.{Headers, value_at, valued_size, message_size}
use throttr.Subscriptions.{
  same_map, Subscription, SubscriptionContainer, keep, exists, of_connection, of_channel, of_both,
  event_frame, ConnectionMap, tcp, unix, agent_tcp, agent_unix, Delivery, send_if, deliver,
  is_empty, subscribe_command, unsubscribe_command, publish_command, is_subscribed,
}
use throttr.Subscriptions.Laws.{exists-append, exists-find_from}

-- Whether a message goes to a connection of a map.
unfoldable pub delivered : ConnectionMap → ℕ → List Delivery → Bool
delivered m id [] = false
delivered m id (d ∷ ds) = same_map d.target m && d.connection_id == id || delivered m id ds

delivered-send_if :
    (m : ConnectionMap) (id : ℕ) (b : Bool) (d : Delivery) (rest : List Delivery)
    → delivered m id (send_if b d rest)
      ≡ (b && same_map d.target m && d.connection_id == id || delivered m id rest)
unfolding delivered send_if
delivered-send_if m id true d rest = refl
delivered-send_if m id false d rest = refl

module _ (contains : ConnectionMap → ℕ → Bool) (frame : List ℕ) where
  abbrev to : ConnectionMap → ℕ → Delivery
  to m id = record { target = m; connection_id = id; frame = frame }

  -- The messages for one subscription.
  each : ℕ → List Delivery → List Delivery
  each i rest = send_if (contains tcp i) (to tcp i) (
      send_if (contains unix i) (to unix i) (
        send_if (contains agent_tcp i) (to agent_tcp i)
          (send_if (contains agent_unix i) (to agent_unix i) rest)))

  delivered-each :
      (m : ConnectionMap) (id i : ℕ) (rest : List Delivery)
      → delivered m id (each i rest) ≡ (contains m i && i == id || delivered m id rest)
  unfolding each
  delivered-each m id i rest =
      let r4 : List Delivery = send_if (contains agent_unix i) (to agent_unix i) rest in
      let r3 : List Delivery = send_if (contains agent_tcp i) (to agent_tcp i) r4 in
      let r2 : List Delivery = send_if (contains unix i) (to unix i) r3 in
      delivered-send_if m id (contains tcp i) (to tcp i) r2
      ∙ ap (λ (b : Bool). contains tcp i && same_map tcp m && i == id || b)
          (delivered-send_if m id (contains unix i) (to unix i) r3
            ∙ ap (λ (b : Bool). contains unix i && same_map unix m && i == id || b)
                (delivered-send_if m id (contains agent_tcp i) (to agent_tcp i) r4
                  ∙ ap (λ (b : Bool). contains agent_tcp i && same_map agent_tcp m && i == id || b)
                      (delivered-send_if m id (contains agent_unix i) (to agent_unix i) rest)))
      ∙ one_map m
    where
      one_map :
          (n : ConnectionMap)
          → (contains tcp i && same_map tcp n && i == id
              || (contains unix i && same_map unix n && i == id
                  || (contains agent_tcp i && same_map agent_tcp n && i == id
                      || (contains agent_unix i && same_map agent_unix n && i == id
                          || delivered n id rest))))
            ≡ (contains n i && i == id || delivered n id rest)
      one_map tcp = ground arith
      one_map unix = ground arith
      one_map agent_tcp = ground arith
      one_map agent_unix = ground arith

  delivered-deliver :
      (m : ConnectionMap) (id : ℕ) (xs : List Subscription)
      → delivered m id (deliver contains frame xs) ≡ (contains m id && exists (of_connection id) xs)
  unfolding deliver exists delivered each
  delivered-deliver m id [] = ground arith
  delivered-deliver m id (x ∷ xs) =
      delivered-each m id x.connection_id (deliver contains frame xs)
      ∙ ap (λ (b : Bool). contains m x.connection_id && x.connection_id == id || b)
          (delivered-deliver m id xs)
      ∙ joined x.connection_id (Bool-cases (x.connection_id == id))
    where
      equal : (i : ℕ) → (i == id) ≡ true → i ≡ id
      equal i e = ground arith

      joined :
          (i : ℕ)
          → ((i == id) ≡ true) ⊎ ((i == id) ≡ false)
          → (contains m i && i == id || contains m id && exists (of_connection id) xs)
            ≡ (contains m id && (i == id || exists (of_connection id) xs))
      joined i (inl same) = ground (arith, ap (contains m) (equal i same))
      joined i (inr other) = ground arith

none_of_both :
    (id : ℕ) (channel : Key) (xs : List Subscription)
    → exists
        (of_connection id)
        (keep (λ x. not (of_both id channel x)) (keep (of_channel channel) xs))
      ≡ false
unfolding exists keep
none_of_both id channel [] = refl
none_of_both id channel (x ∷ xs) = ground (arith, none_of_both id channel xs)

module _ {S : Type 0} (c : SubscriptionContainer S) where
  -- publish succeeds exactly when the channel has a subscription, and a message goes to a
  -- connection of a map exactly when the connection is in the map and has a subscription to the
  -- channel.
  pub publish_command_lem :
      (w code : ℕ) (contains : ConnectionMap → ℕ → Bool) (s : S) (channel : Key) (payload : List ℕ)
      → let r = publish_command c w code contains s channel payload in
        (r.0 ≡ status (not (is_empty (c.equal_range s channel))))
        × ((m : ConnectionMap) (id : ℕ)
            → delivered m id r.1
              ≡ (contains m id && exists (of_connection id) (c.equal_range s channel)))
  unfolding publish_command
  publish_command_lem w code contains s channel payload = (
    refl,
    λ m id.
        delivered-deliver contains (event_frame w code channel payload) m id
          (c.equal_range s channel),
  )

  -- What is published on a channel after a subscribe to it succeeds and goes to the subscriber in
  -- each map that has it.
  pub publish_command-subscribe_command :
      (w code now : ℕ) (contains : ConnectionMap → ℕ → Bool) (s : S) (id : ℕ) (channel : Key)
      (payload : List ℕ) (m : ConnectionMap)
      → let s' = (subscribe_command c now s id channel).1 in
        let r = publish_command c w code contains s' channel payload in
        (r.0 ≡ status true) × (delivered m id r.1 ≡ contains m id)
  unfolding subscribe_command exists
  publish_command-subscribe_command w code now contains s id channel payload m =
      let x : Subscription = record {
        connection_id = id;
        channel = channel;
        subscribed_at = now;
      } in
      let s' : S = (c.insert s x).0 in
      let law = publish_command_lem w code contains s' channel payload in
      let range : c.equal_range s' channel ≡ c.equal_range s channel ++ x ∷ [] =
        c.equal_range-insert s x channel ∙ rw (bytes_eq_refl channel) refl in
      (
        law.0
            ∙ ap (λ (xs : List Subscription). status (not (is_empty xs))) range
            ∙ ap (λ (b : Bool). status (not b)) (not_empty (c.equal_range s channel) x),
        law.1 m id
            ∙ ap (λ (xs : List Subscription). contains m id && exists (of_connection id) xs) range
            ∙ ap (λ (b : Bool). contains m id && b)
                (exists-append (of_connection id) (c.equal_range s channel) (x ∷ []))
            ∙ ground arith,
      )
    where
      not_empty : (xs : List Subscription) (x : Subscription) → is_empty (xs ++ x ∷ []) ≡ false
      not_empty [] x = refl
      not_empty (y ∷ ys) x = refl

  -- What is published on a channel after an unsubscribe of a connection that was subscribed to it
  -- does not go to the connection.
  pub publish_command-unsubscribe_command :
      (w code : ℕ) (contains : ConnectionMap → ℕ → Bool) (s : S) (id : ℕ) (channel : Key)
      (payload : List ℕ) (m : ConnectionMap)
      → exists (of_both id channel) (c.by_connection_id s) ≡ true
      → let s' = (unsubscribe_command c s id channel).1 in
        let r = publish_command c w code contains s' channel payload in delivered m id r.1 ≡ false
  unfolding unsubscribe_command is_subscribed
  publish_command-unsubscribe_command w code contains s id channel payload m h =
      let found = exists-find_from id channel (c.by_connection_id s) h in
      rw found (
        (publish_command_lem w code contains (c.erase_if s (of_both id channel)) channel payload).1
          m id
        ∙ ap (λ (b : Bool). contains m id && b) {y = false}
            (ap (exists (of_connection id)) (
                c.equal_range-erase_if s (of_both id channel) channel
                ∙ ap (keep (λ x. not (of_both id channel x)))
                    (sym (c.equal_range-of_channel s channel)))
              ∙ none_of_both id channel (c.equal_range s channel))
        ∙ ground arith)

take_all : (xs : List ℕ) → take (length xs) xs ≡ xs
take_all [] = refl
take_all (x ∷ xs) = ap (◌∷◌ x) (take_all xs)

-- The fields of an event, where they fit their counts.
abbrev plain_frame : ℕ → ℕ → Key → List ℕ → List ℕ
plain_frame w code channel payload =
    code ∷ length channel ∷ (le_bytes w (length payload) ++ (channel ++ payload))

event_frame-plain :
    (w code : ℕ) (channel : Key) (payload : List ℕ)
    → length channel < 256
    → length payload < value_mod w
    → event_frame w code channel payload ≡ plain_frame w code channel payload
unfolding event_frame
event_frame-plain w code channel payload small fits =
    let a : length channel % 256 ≡ length channel = mod-eq_of_lt small in
    let b : length payload % value_mod w ≡ length payload = mod-eq_of_lt fits in
    let none_over : length channel - length channel ≡ 0 = omega arith in
    rw (a, b, none_over, take_all channel, append-nil payload)

value_at-plain_frame :
    (w code : ℕ) (channel : Key) (payload : List ℕ)
    → length payload < value_mod w
    → value_at w (plain_frame w code channel payload) 2 ≡ length payload
value_at-plain_frame w code channel payload fits =
    ap le_value (take-le_bytes w (length payload) (channel ++ payload))
    ∙ le_value-le_bytes w (length payload) fits

length-plain_frame :
    (w code : ℕ) (channel : Key) (payload : List ℕ)
    → length (plain_frame w code channel payload) ≡ 2 + w + length channel + length payload
length-plain_frame w code channel payload = omega (
  arith,
  length-append (le_bytes w (length payload)) (channel ++ payload),
  length-append channel payload,
  length-le_bytes w (length payload),
)

-- The size that get_event_size gives to an event that publish writes is its length; for a header
-- of a type and two counts, a channel below 256 bytes, a payload that fits a value and a sum
-- below 2^64.
pub message_size-event_frame :
    (w code : ℕ) (h : Headers) (channel : Key) (payload : List ℕ)
    → h.event_size ≡ 2 + w
    → length channel < 256
    → length payload < value_mod w
    → 2 + w + length channel + length payload < u64_mod
    → message_size w h event (event_frame w code channel payload)
      ≡ length (event_frame w code channel payload)
unfolding message_size valued_size
message_size-event_frame w code h channel payload header small fits sum =
    rw (event_frame-plain w code channel payload small fits) (
      ground (
        arith,
        value_at-plain_frame w code channel payload fits,
        length-plain_frame w code channel payload,
        mod-eq_of_lt {n = 2 + w + length channel + length payload} {m = u64_mod} sum,
      ))
