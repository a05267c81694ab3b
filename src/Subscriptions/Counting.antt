-- ===== src/Subscriptions/Counting.antt =====
-- What publishing counts.
use throttr.Prelude.{
  ℕ, ◌+◌, List, [], ◌∷◌, Bool, false, ◌≡◌, inl, inr, refl, arith, length, ◌==◌, Bool-cases,
}
use throttr.Subscriptions.{
  Subscription, exists, of_connection, ConnectionMap, tcp, unix, agent_tcp, agent_unix, Mark, reads,
  publishes, receives, Delivery, send_if, deliver, mark_connection, publish_marks,
}

abbrev pub is_published : Mark → ℕ
is_published (publishes m id) = 1
is_published (reads id) = 0
is_published (receives m id) = 0

-- Whether a mark is that of a connection.
abbrev pub is_sent : Mark → ℕ
is_sent (publishes m id) = 1
is_sent (reads id) = 0
is_sent (receives m id) = 1

unfoldable pub count : (Mark → ℕ) → List Mark → ℕ
count f [] = 0
count f (x ∷ xs) = f x + count f xs

module _ (contains : ConnectionMap → ℕ → Bool) (publisher : ℕ) where
  is_sent-mark_connection :
      (frame : List ℕ) (m : ConnectionMap) (id : ℕ) (rest : List Mark) (ds : List Delivery)
      → count is_sent rest ≡ length ds
      → count is_sent (mark_connection contains publisher m id rest)
        ≡ length
            (send_if (contains m id) (record { target = m; connection_id = id; frame = frame }) ds)
  unfolding mark_connection send_if count
  is_sent-mark_connection frame m id rest ds h = elim (Bool-cases (contains m id)) [
    | inl there ↦ elim (Bool-cases (id == publisher)) [
      | inl self ↦ rw (there, self) (omega (arith, h))
      | inr other ↦ rw (there, other) (omega (arith, h))
    ]
    | inr absent ↦ rw absent h
  ]

  -- Every message that is handed to a connection is counted once, as published or as received.
  pub is_sent-publish_marks :
      (frame : List ℕ) (xs : List Subscription)
      → count is_sent (publish_marks contains publisher xs) ≡ length (deliver contains frame xs)
  unfolding publish_marks deliver count
  is_sent-publish_marks frame [] = omega arith
  is_sent-publish_marks frame (x ∷ xs) =
      let step = λ (m : ConnectionMap). is_sent-mark_connection frame m x.connection_id in
      omega (
        arith,
        step tcp _ _ (
            step unix _ _
              (step agent_tcp _ _ (step agent_unix _ _ (is_sent-publish_marks frame xs)))),
      )

  is_published-mark_connection :
      (m : ConnectionMap) (id : ℕ) (rest : List Mark)
      → (id == publisher) ≡ false
      → count is_published (mark_connection contains publisher m id rest) ≡ count is_published rest
  unfolding mark_connection count
  is_published-mark_connection m id rest other = elim (Bool-cases (contains m id)) [
    | inl there ↦ rw (there, other) (omega arith)
    | inr absent ↦ rw absent refl
  ]

  -- A connection that publishes to a channel to which it is not subscribed is counted no published
  -- bytes.
  pub is_published-publish_marks :
      (xs : List Subscription)
      → exists (of_connection publisher) xs ≡ false
      → count is_published (publish_marks contains publisher xs) ≡ 0
  unfolding publish_marks exists count
  is_published-publish_marks [] h = omega arith
  is_published-publish_marks (x ∷ xs) h = elim (Bool-cases (x.connection_id == publisher)) [
    | inl self ↦ absurd (ground (arith, self, h))
    | inr other ↦
        let step = λ (m : ConnectionMap) (r : List Mark).
          is_published-mark_connection m x.connection_id r other in
        let rest = is_published-publish_marks xs (rw other at h) in
        omega (arith, step tcp _, step unix _, step agent_tcp _, step agent_unix _, rest)
  ]
