-- ===== src/Tests/Joining.antt =====
-- One client that joins, and memory that is taken once.
use throttr.Prelude.{ℕ, ◌≤◌, List, [], ◌∷◌, true, false, ◌≡◌, refl, replicate, bytes_eq}
use throttr.Entry.{Key}
use throttr.Subscriptions.{exists, of_connection, publish_command, ConnectionMap, keep}
use throttr.Subscriptions.ListSubscriptions.{Lists, list_subscriptions}
use throttr.Subscriptions.Publishing.{delivered}
use throttr.Members.{Members, has_id, join, tcp_socket, client, everybody, hex_name, hex_digit}
use throttr.Members.Owners.{Reachable, starts, goes_on, joins}
use throttr.Members.Delivery.{publish_command_reaches}
use throttr.Allocator.{Pointer, storage, HandlerMemory, allocate_elements}
use throttr.Allocator.Pointers.{count, count-Reachable, allocates}

abbrev nobody : Members Lists
nobody = record { maps = λ m. []; subscriptions = ([], []) }

abbrev uuid : ℕ → List ℕ
uuid id = replicate 16 id

abbrev one_member : Members Lists
one_member = join list_subscriptions uuid 5 6 tcp_socket client 1 nobody

nobody_subscribes :
    (channel : Key) → list_subscriptions.equal_range nobody.subscriptions channel ≡ []
unfolding list_subscriptions keep
nobody_subscribes channel = refl

joined_one : Reachable list_subscriptions uuid one_member
joined_one =
    goes_on nobody one_member (starts nobody nobody_subscribes)
      (joins nobody 5 6 tcp_socket client 1)

in_everybody :
    exists (of_connection 1) (list_subscriptions.equal_range one_member.subscriptions everybody)
    ≡ true
unfolding list_subscriptions keep join exists hex_name hex_digit bytes_eq
in_everybody = refl

publish_command_reaches_example :
    (m : ConnectionMap) × (delivered m 1
        (publish_command list_subscriptions 2 19
          (λ k i. has_id i (one_member.maps k))
          one_member.subscriptions
          everybody
          (7 ∷ [])).1
      ≡ true)
publish_command_reaches_example =
    publish_command_reaches list_subscriptions uuid 2 19 one_member everybody (7 ∷ []) 1 joined_one
      in_everybody

abbrev unused : HandlerMemory
unused = record { in_use = false; next = 0 }

-- Sixteen bytes are taken.
count-Reachable_example : count storage ((allocate_elements 4 4 unused).0 ∷ []) ≤ 1
count-Reachable_example =
    count-Reachable ((allocate_elements 4 4 unused).1, (allocate_elements 4 4 unused).0 ∷ [])
      (throttr.Allocator.Pointers.goes_on (unused, [])
        ((allocate_elements 4 4 unused).1, (allocate_elements 4 4 unused).0 ∷ [])
        throttr.Allocator.Pointers.starts (allocates unused [] 4 4))
      storage
