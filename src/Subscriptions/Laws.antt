-- ===== src/Subscriptions/Laws.antt =====
-- What `subscribe` and `unsubscribe` do to the subscriptions, and what they answer.
use throttr.Prelude.{
  ℕ, List, [], ◌∷◌, ◌++◌, Bool, true, false, not, ◌&&◌, ◌||◌, ◌≡◌, refl, ◌∙◌, ap, arith,
  bytes_eq_refl,
}
use throttr.Entry.{Key}
use throttr.State.{status}
use throttr.Subscriptions.{
  Subscription, SubscriptionContainer, keep, exists, of_connection, of_channel, of_both, find_from,
  is_subscribed, subscribe_command, unsubscribe_command,
}

-- A search for the channel from a connection's first element on finds what is of both.
pub exists-find_from :
    (id : ℕ) (channel : Key) (xs : List Subscription)
    → exists (of_both id channel) xs ≡ true
    → exists (of_channel channel) (find_from id xs) ≡ true
unfolding exists find_from
exists-find_from id channel [] h = h
exists-find_from id channel (x ∷ xs) h = ground (arith, exists-find_from id channel xs, later xs)
  where
    later :
        (ys : List Subscription)
        → exists (of_both id channel) ys ≡ true
        → exists (of_channel channel) ys ≡ true
    later [] k = k
    later (y ∷ ys) k = ground (arith, later ys)

pub exists-append :
    (p : Subscription → Bool) (xs ys : List Subscription)
    → exists p (xs ++ ys) ≡ (exists p xs || exists p ys)
unfolding exists
exists-append p [] ys = refl
exists-append p (x ∷ xs) ys = ground (arith, exists-append p xs ys)

find_from-append :
    (id : ℕ) (xs ys : List Subscription)
    → exists (of_connection id) xs ≡ true
    → find_from id (xs ++ ys) ≡ find_from id xs ++ ys
unfolding exists find_from
find_from-append id [] ys h = cc
find_from-append id (x ∷ xs) ys h = ground (arith, find_from-append id xs ys)

pub exists-keep :
    (p q : Subscription → Bool) (xs : List Subscription)
    → exists p (keep q xs) ≡ exists (λ x. p x && q x) xs
unfolding exists keep
exists-keep p q [] = refl
exists-keep p q (x ∷ xs) = ground (arith, exists-keep p q xs)

pub none_left :
    (p : Subscription → Bool) (xs : List Subscription) → exists (λ x. p x && not (p x)) xs ≡ false
unfolding exists
none_left p [] = refl
none_left p (x ∷ xs) = ground (arith, none_left p xs)

keep_all :
    (p : Subscription → Bool) (xs : List Subscription)
    → exists p xs ≡ false
    → keep (λ x. not (p x)) xs ≡ xs
unfolding exists keep
keep_all p [] h = refl
keep_all p (x ∷ xs) h = ground (arith, keep_all p xs)

module _ {S : Type 0} (c : SubscriptionContainer S) where
  -- After a `subscribe`, which always succeeds, the connection is subscribed to the channel.
  pub is_subscribed-subscribe_command :
      (now : ℕ) (s : S) (id : ℕ) (channel : Key)
      → let r = subscribe_command c now s id channel in
        (r.0 ≡ status true) × (is_subscribed c r.1 id channel ≡ true)
  unfolding subscribe_command is_subscribed
  is_subscribed-subscribe_command now s id channel =
      let x : Subscription = record {
        connection_id = id;
        channel = channel;
        subscribed_at = now;
      } in
      (
        ap status (c.insert_inserts s x),
        exists-find_from id channel (c.by_connection_id (c.insert s x).0) (
            c.exists-by_connection_id s x (of_both id channel)
            ∙ ground (arith, bytes_eq_refl channel)),
      )

  -- An unsubscribe of a channel that the connection is subscribed to succeeds; then no
  -- subscription of the connection to the channel is left, and the index by connection has all
  -- others, in their order.
  pub unsubscribe_command_lem :
      (s : S) (id : ℕ) (channel : Key)
      → exists (of_both id channel) (c.by_connection_id s) ≡ true
      → let r = unsubscribe_command c s id channel in
        (r.0 ≡ status true)
        × (exists (of_both id channel) (c.by_connection_id r.1) ≡ false)
        × (c.by_connection_id r.1 ≡ keep (λ x. not (of_both id channel x)) (c.by_connection_id s))
  unfolding unsubscribe_command is_subscribed
  unsubscribe_command_lem s id channel h =
      let found = exists-find_from id channel (c.by_connection_id s) h in
      let erased = c.by_connection_id-erase_if s (of_both id channel) in
      (
        rw found refl,
        rw found (
            ap (exists (of_both id channel)) erased
            ∙ exists-keep (of_both id channel) (λ x. not (of_both id channel x))
                (c.by_connection_id s)
            ∙ none_left (of_both id channel) (c.by_connection_id s)),
        rw found erased,
      )

  -- A connection that has a subscription, but none to the channel, is answered success all the
  -- same by unsubscribe where a subscription to the channel comes later in the index by
  -- connection, and nothing is erased.
  pub unsubscribe_command_stranger :
      (s : S) (id : ℕ) (channel : Key) (xs ys : List Subscription)
      → c.by_connection_id s ≡ xs ++ ys
      → exists (of_connection id) xs ≡ true
      → exists (of_channel channel) ys ≡ true
      → exists (of_both id channel) (xs ++ ys) ≡ false
      → let r = unsubscribe_command c s id channel in
        (r.0 ≡ status true) × (c.by_connection_id r.1 ≡ c.by_connection_id s)
  unfolding unsubscribe_command is_subscribed
  unsubscribe_command_stranger s id channel xs ys parts own other absent =
      let found : exists (of_channel channel) (find_from id (c.by_connection_id s)) ≡ true =
        ap (λ (zs : List Subscription). exists (of_channel channel) (find_from id zs)) parts
        ∙ ap (exists (of_channel channel)) (find_from-append id xs ys own)
        ∙ exists-append (of_channel channel) (find_from id xs) ys
        ∙ ground arith in
      (
        rw found refl,
        rw found (
            c.by_connection_id-erase_if s (of_both id channel)
            ∙ keep_all (of_both id channel) (c.by_connection_id s)
                (ap (exists (of_both id channel)) parts ∙ absent)),
      )
