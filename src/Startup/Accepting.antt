-- ===== src/Startup/Accepting.antt =====
-- src/include/throttr/server.hpp and src/include/throttr/agent.hpp: how connections come into being.
-- An acceptor accepts again after each accept, whether it failed or not. An agent tries again every
-- five seconds until it is connected to its master. The sockets are those of boost: an accept or a
-- connect is an outcome. A new connection joins the state by its `start`.
use throttr.Prelude.{
  ℕ, ◌+◌, List, [], ◌∷◌, Bool, true, false, Option, none, some, bytes_eq, if◌then◌else◌,
}
use throttr.Entry.{Key}
use throttr.Subscriptions.{SubscriptionContainer}
use throttr.Members.{Transport, tcp_socket, unix_socket, client, agent, Members, join}

-- The end of an accept: the socket's kind, whether it failed, the new connection's id, and the two
-- times at which join reads the clock.
pub record Accept : Type 0 where
  pub transport : Transport
  pub failed : Bool
  pub id : ℕ
  pub now : ℕ
  pub then_now : ℕ

-- "disabled"
abbrev pub disabled : Key
disabled = b'd' ∷ b'i' ∷ b's' ∷ b'a' ∷ b'b' ∷ b'l' ∷ b'e' ∷ b'd' ∷ []

-- The seconds between two attempts of an agent.
abbrev pub pause_seconds : ℕ
pause_seconds = 5

module _ {S : Type 0} (c : SubscriptionContainer S) (uuid : ℕ → List ℕ) where
  -- The handler of do_tcp_accept and of do_unix_accept; the next accept follows in any case.
  unfoldable pub on_accept : Members S → Accept → Members S
  on_accept st a = if a.failed then st else join c uuid a.now a.then_now a.transport client a.id st

  unfoldable pub accept_all : Members S → List Accept → Members S
  accept_all st [] = st
  accept_all st (a ∷ rest) = accept_all (on_accept st a) rest

  -- agent::for_unix and agent::for_tcp: whether the connect succeeded, and the members.
  unfoldable pub for_transport : Transport → ℕ → ℕ → ℕ → Bool → Members S → Bool × Members S
  for_transport transport now then_now id true st =
      (true, join c uuid now then_now transport agent id st)
  for_transport transport now then_now id false st = (false, st)

  -- agent::try_to_connect with the outcomes of its attempts: the seconds that it slept and the
  -- members, or `none` where no attempt has succeeded yet.
  unfoldable pub try_to_connect :
      Transport → ℕ → ℕ → ℕ → List Bool → ℕ → Members S → Option (ℕ × Members S)
  try_to_connect transport now then_now id [] slept st = none
  try_to_connect transport now then_now id (outcome ∷ outcomes) slept st =
      let (success, st') = for_transport transport now then_now id outcome st in
      let later = try_to_connect transport now then_now id outcomes (slept + pause_seconds) st' in
      if success then some (slept, st') else later

  -- agent::start: the transport follows from the name of the master's socket.
  unfoldable pub start_agent :
      Bool → Key → ℕ → ℕ → ℕ → List Bool → Members S → Option (ℕ × Members S)
  start_agent has_master master_socket now then_now id outcomes st =
      if has_master
      then try_to_connect (if bytes_eq master_socket disabled then tcp_socket else unix_socket) now
          then_now id outcomes 0 st
      else none
