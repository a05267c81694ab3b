-- ===== src/Members/Delivery.antt =====
-- What is published reaches every subscriber.
use throttr.Prelude.{
  ℕ, List, [], ◌∷◌, Bool, true, ◌==◌, ◌≡◌, inl, inr, refl, ◌∙◌, arith, All, Bool-cases,
}
use throttr.Entry.{Key}
use throttr.Subscriptions.{
  Subscription, SubscriptionContainer, exists, of_connection, publish_command, ConnectionMap,
}
use throttr.Subscriptions.Publishing.{delivered, publish_command_lem}
use throttr.Members.{Members, has_id}
use throttr.Members.Owners.{IsMember, IsOwned, Reachable, Reachable-IsOwned}

exists-IsMember :
    (maps : ConnectionMap → List ℕ) (id : ℕ) (xs : List Subscription)
    → All (IsOwned maps) xs
    → exists (of_connection id) xs ≡ true
    → IsMember maps id
unfolding exists
exists-IsMember maps id [] all h = absurd (cc)
exists-IsMember maps id (x ∷ xs) all h = elim (Bool-cases (x.connection_id == id)) [
  | inl same ↦ let id_eq : x.connection_id ≡ id = ground arith in rw id_eq at all.0
  | inr other ↦ exists-IsMember maps id xs all.1 (rw other at h)
]

module _ {S : Type 0} (c : SubscriptionContainer S) (uuid : ℕ → List ℕ) where
  -- Whatever connections join and leave a server, and subscribe and unsubscribe while they are
  -- there, a message that is published to a channel is handed to every connection that has a
  -- subscription to it, from one of the four maps; for a server that started without
  -- subscriptions.
  pub publish_command_reaches :
      (w code : ℕ) (st : Members S) (channel : Key) (payload : List ℕ) (id : ℕ)
      → Reachable c uuid st
      → exists (of_connection id) (c.equal_range st.subscriptions channel) ≡ true
      → let contains : ConnectionMap → ℕ → Bool = λ m i. has_id i (st.maps m) in
        (m : ConnectionMap) × (delivered m id
            (publish_command c w code contains st.subscriptions channel payload).1
          ≡ true)
  publish_command_reaches w code st channel payload id reached subscribed =
      let (m, member) =
        exists-IsMember st.maps id (c.equal_range st.subscriptions channel)
          (Reachable-IsOwned c uuid st reached channel) subscribed in
      (
        m,
        (publish_command_lem c w code (λ k i. has_id i (st.maps k)) st.subscriptions channel
                payload).1
              m id
            ∙ rw (member, subscribed) refl,
      )
