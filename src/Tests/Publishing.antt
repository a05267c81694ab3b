-- ===== src/Tests/Publishing.antt =====
-- Two connections and two channels.
use throttr.Prelude.{ℕ, [], ◌∷◌, Bool, false, not, ◌&&◌, ◌==◌, ◌≡◌, refl, arith, length}
use throttr.Protocol.{event}
use throttr.Entry.{Key}
use throttr.State.{status}
use throttr.Messages.{message_size}
use throttr.Subscriptions.{
  Subscription, exists, of_connection, ConnectionMap, tcp, unix, publish_command, is_empty,
  event_frame,
}
use throttr.Subscriptions.ListSubscriptions.{Lists, list_subscriptions}
use throttr.Subscriptions.Publishing.{delivered, publish_command_lem, message_size-event_frame}
use throttr.Tests.Data.{headers}

abbrev news : Key
news = 110 ∷ []

abbrev mail : Key
mail = 109 ∷ []

abbrev sub : ℕ → Key → Subscription
sub id channel = record { connection_id = id; channel = channel; subscribed_at = 0 }

-- Connection 1 reads the news, connection 2 its mail.
abbrev both : Lists
both = (sub 1 news ∷ sub 2 mail ∷ [], sub 1 news ∷ sub 2 mail ∷ [])

-- Connection 1 came by TCP, connection 2 by a UNIX socket.
abbrev present : ConnectionMap → ℕ → Bool
present tcp id = id == 1
present unix id = id == 2
present _ id = false

publish_command_lem_example :
    let r = publish_command list_subscriptions 2 19 present both mail (7 ∷ 8 ∷ []) in
    (r.0 ≡ status (not (is_empty (list_subscriptions.equal_range both mail))))
    × ((m : ConnectionMap) (id : ℕ)
        → delivered m id r.1
          ≡ (present m id && exists (of_connection id) (list_subscriptions.equal_range both mail)))
publish_command_lem_example =
    publish_command_lem list_subscriptions 2 19 present both mail (7 ∷ 8 ∷ [])

message_size-event_frame_example :
    message_size 2 headers event (event_frame 2 19 mail (7 ∷ 8 ∷ []))
    ≡ length (event_frame 2 19 mail (7 ∷ 8 ∷ []))
message_size-event_frame_example =
    message_size-event_frame 2 19 headers mail (7 ∷ 8 ∷ []) refl (omega arith) (omega arith)
      (omega arith)
