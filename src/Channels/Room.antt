-- ===== src/Channels/Room.antt =====
-- The responses of channels and channel: their bytes and their room.
use mathlib.Core.List.{flatten}
use mathlib.Core.Path.{subst}
use throttr.Prelude.{
  ℕ, ◌+◌, ◌*◌, ◌%◌, ◌≤◌, List, [], ◌∷◌, ◌++◌, ◌≡◌, refl, sym, All, ◌∙◌, ap, arith, length,
  length-append,
}
use throttr.Prelude.Bytes.{le_bytes}
use throttr.Entry.{Key}
use throttr.State.{success_response, failed_response}
use throttr.Subscriptions.{Subscription, SubscriptionContainer}
use throttr.Reports.{Output, grow, point, put, max_fragment_size}
use throttr.Reports.Adds.{Adds, none-Adds, put-Adds, put_bytes-Adds, point-Adds, then_Adds}
use throttr.Reports.Fragments.{fragments, flatten-fragments}
use throttr.Channels.{
  Channel, channels_of, sum_of, channel_cost, channels_size, write_channel, write_channels,
  write_names, write_channel_fragments, handle_fragmented_channels_response, write_subscriptions,
  write_subscribers, channel_command,
}
use throttr.Channels.Groups.{
  HasOwn, IsApart, channels_of-HasOwn, channels_of-IsApart, members, members-channels_of,
  length-channels_of, channels_size-append, names_size, channels_size_eq,
}

module _ (read_bytes write_bytes : Subscription → ℕ) where
  abbrev pub channel_bytes : Channel → List ℕ
  channel_bytes g =
      (length g.name % 256)
      ∷ ((le_bytes 8 (sum_of read_bytes g.subscriptions 0)
            ++ le_bytes 8 (sum_of write_bytes g.subscriptions 0))
          ++ le_bytes 8 (length g.subscriptions))

  abbrev pub channels_bytes : List Channel → List ℕ
  channels_bytes [] = []
  channels_bytes (g ∷ gs) = channel_bytes g ++ channels_bytes gs

  abbrev pub names : List Channel → List ℕ
  names [] = []
  names (g ∷ gs) = g.name ++ names gs

  abbrev pub fragments_bytes : ℕ → List (List Channel) → List ℕ
  fragments_bytes i [] = []
  fragments_bytes i (f ∷ fs) =
      (((le_bytes 8 i ++ le_bytes 8 (length f)) ++ channels_bytes f) ++ names f)
      ++ fragments_bytes (i + 1) fs

  write_channels-Adds :
      (gs : List Channel) (o : Output)
      → Adds o
          (write_channels read_bytes write_bytes gs o)
          (channels_bytes gs)
          (length gs * 4)
          (length gs * 25)
  unfolding write_channels write_channel
  write_channels-Adds [] o = none-Adds o (omega arith) (omega arith)
  write_channels-Adds (g ∷ gs) o =
      then_Adds {s = 4} {a = 25}
        (then_Adds (put-Adds _ o)
          (then_Adds {s'' = 3} {a'' = 24}
            (then_Adds {s'' = 2} {a'' = 16} (put_bytes-Adds 8 _ _) (put_bytes-Adds 8 _ _) refl refl)
            (put_bytes-Adds 8 _ _) refl refl)
          refl refl)
        (write_channels-Adds gs _) (omega arith) (omega arith)

  write_names-Adds :
      (gs : List Channel) (o : Output)
      → Adds o (write_names read_bytes write_bytes gs o) (names gs) (length gs) (names_size gs)
  unfolding write_names
  write_names-Adds [] o = none-Adds o refl refl
  write_names-Adds (g ∷ gs) o =
      then_Adds (put-Adds g.name o) (write_names-Adds gs (put g.name o)) (omega arith) refl

  write_channel_fragments-Adds :
      (i : ℕ) (fs : List (List Channel)) (o : Output)
      → Adds o
          (write_channel_fragments read_bytes write_bytes i fs o)
          (fragments_bytes i fs)
          (length (flatten fs) * 5 + length fs * 2)
          (channels_size (flatten fs) + length fs * 16)
  unfolding write_channel_fragments flatten channels_size
  write_channel_fragments-Adds i [] o = none-Adds o (omega arith) (omega arith)
  write_channel_fragments-Adds i (f ∷ fs) o =
      then_Adds
        (then_Adds
          (then_Adds (then_Adds (put_bytes-Adds 8 i o) (put_bytes-Adds 8 (length f) _) refl refl)
            (write_channels-Adds f _) refl refl)
          (write_names-Adds f _) refl refl)
        (write_channel_fragments-Adds (i + 1) fs _) (omega (arith, length-append f (flatten fs)))
        (omega (arith, channels_size-append f (flatten fs), channels_size_eq f))

  -- The response of channels is the status, the count of its fragments and the fragments, whose
  -- channels have, in order, all subscriptions, each channel one or more and only those of its
  -- own name, with different names in channels that are neighbours; write_buffer is filled to its
  -- end, and the batch has no more segments than were reserved.
  pub channels_response_lem :
      (subs : List Subscription) (o : Output)
      → (fs : List (List Channel)) × (let o' =
            handle_fragmented_channels_response read_bytes write_bytes subs o in
          (flatten o'.batch
            ≡ flatten o.batch
              ++ success_response ∷ (le_bytes 8 (length fs) ++ fragments_bytes 1 fs))
          × (o'.offset ≡ o'.size)
          × (length o'.batch ≤ o'.reserved)
          × (members (flatten fs) ≡ subs)
          × All HasOwn (flatten fs)
          × IsApart (flatten fs))
  unfolding handle_fragmented_channels_response grow
  channels_response_lem subs o = (
    fs,
    (
      all.shows,
      omega (arith, all.offset_eq, all.size_eq),
      omega (arith, all.segments_eq, all.reserved_eq, length-channels_of subs),
      ap members back ∙ members-channels_of subs,
      subst (All HasOwn) (sym back) (channels_of-HasOwn subs),
      subst IsApart (sym back) (channels_of-IsApart subs),
    ),
  )
    where
      fs : List (List Channel)
      fs = fragments max_fragment_size channel_cost (channels_of subs)

      back : flatten fs ≡ channels_of subs
      back = flatten-fragments max_fragment_size channel_cost (channels_of subs)

      start : Output
      start =
          grow (1 + 1 + 2 * length fs + 5 * length subs)
            (channels_size (channels_of subs) + 16 * length fs + 8) o

      all :
          Adds start
            (handle_fragmented_channels_response read_bytes write_bytes subs o)
            ((success_response ∷ []) ++ (le_bytes 8 (length fs) ++ fragments_bytes 1 fs))
            (2 + (length (channels_of subs) * 5 + length fs * 2))
            (8 + (channels_size (channels_of subs) + length fs * 16))
      all =
          then_Adds (point-Adds _ start)
            (then_Adds (put_bytes-Adds 8 (length fs) _) (write_channel_fragments-Adds 1 fs _) refl
              refl)
            (omega (arith, ap (λ (l : List Channel). length l) back))
            (omega (arith, ap channels_size back))

  module _ (uuid : ℕ → List ℕ) (sixteen : (i : ℕ) → length (uuid i) ≡ 16) where
    abbrev pub subscription_bytes : Subscription → List ℕ
    subscription_bytes x =
        ((uuid x.connection_id ++ le_bytes 8 x.subscribed_at) ++ le_bytes 8 (read_bytes x))
        ++ le_bytes 8 (write_bytes x)

    abbrev pub subscriptions_bytes : List Subscription → List ℕ
    subscriptions_bytes [] = []
    subscriptions_bytes (x ∷ xs) = subscription_bytes x ++ subscriptions_bytes xs

    -- What a client is shown of the subscriptions of a channel.
    abbrev pub shown : List Subscription → List ℕ
    shown [] = failed_response ∷ []
    shown (x ∷ xs) =
        success_response ∷ (le_bytes 8 (length (x ∷ xs)) ++ subscriptions_bytes (x ∷ xs))

    write_subscriptions-Adds :
        (xs : List Subscription) (o : Output)
        → Adds o
            (write_subscriptions read_bytes write_bytes uuid xs o)
            (subscriptions_bytes xs)
            (length xs * 4)
            (length xs * 40)
    unfolding write_subscriptions
    write_subscriptions-Adds [] o = none-Adds o (omega arith) (omega arith)
    write_subscriptions-Adds (x ∷ xs) o =
        then_Adds {s = 4} {a = 40}
          (then_Adds {s'' = 4} {a'' = 40}
            (then_Adds {s'' = 3} {a'' = 32}
              (then_Adds {s'' = 2} {a'' = 24} (put-Adds (uuid x.connection_id) o)
                (put_bytes-Adds 8 _ _) refl (omega (arith, sixteen x.connection_id)))
              (put_bytes-Adds 8 _ _) refl refl)
            (put_bytes-Adds 8 _ _) refl refl)
          (write_subscriptions-Adds xs _) (omega arith) (omega arith)

    write_subscribers_lem :
        (xs : List Subscription) (o : Output)
        → o.batch ≡ []
        → o.offset ≡ o.size
        → let o' = write_subscribers read_bytes write_bytes uuid xs o in
          (flatten o'.batch ≡ shown xs) × (o'.offset ≡ o'.size) × (length o'.batch ≡ o'.reserved)
    unfolding write_subscribers grow point flatten
    write_subscribers_lem [] o fresh behind = (rw fresh refl, behind, rw fresh refl)
    write_subscribers_lem (x ∷ xs) o fresh behind =
        let count = length (x ∷ xs) in
        let start = grow (1 + 1 + 4 * count) (8 + (16 + 8 * 3) * count) o in
        let all =
          then_Adds {s'' = 2 + count * 4} {a'' = 8 + count * 40}
            (then_Adds {s'' = 2} {a'' = 8} (point-Adds (success_response ∷ []) start)
              (put_bytes-Adds 8 count _) refl refl)
            (write_subscriptions-Adds (x ∷ xs) _) refl refl in
        (
          all.shows
              ∙ ap
                  (λ (b : List (List ℕ)).
                    flatten b
                    ++ success_response ∷ (le_bytes 8 count ++ subscriptions_bytes (x ∷ xs)))
                  fresh,
          omega (arith, all.offset_eq, all.size_eq),
          omega (arith, all.segments_eq, all.reserved_eq),
        )

    -- channel answers failure when the channel has no subscription, and otherwise the status, the count
    -- and every subscription in its order; write_buffer is filled to its end and the batch to what was
    -- reserved; for ids of 16 bytes, and a batch and an offset as a new message has them.
    pub channel_command_lem :
        {S : Type 0} (c : SubscriptionContainer S) (s : S) (channel : Key) (o : Output)
        → o.batch ≡ []
        → o.offset ≡ o.size
        → let o' = channel_command read_bytes write_bytes uuid c s channel o in
          (flatten o'.batch ≡ shown (c.equal_range s channel))
          × (o'.offset ≡ o'.size)
          × (length o'.batch ≡ o'.reserved)
    unfolding channel_command
    channel_command_lem c s channel o fresh behind =
        write_subscribers_lem (c.equal_range s channel) o fresh behind
