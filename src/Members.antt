-- ===== src/Members.antt =====
-- state::join and state::leave of src/include/throttr/state.hpp, which connection::start and the
-- destructor of a connection call (src/include/throttr/connection.ipp). The maps hold ids, which are
-- numbers; `uuid` gives the 16 bytes of an id.
pub mod Owners
pub mod Names
pub mod Delivery
use throttr.Prelude.{
  ℕ, ◌+◌, ◌/◌, ◌%◌, List, [], ◌∷◌, ◌++◌, Bool, true, false, not, ◌||◌, ◌==◌, ltb, if◌then◌else◌,
}
use throttr.Entry.{Key}
use throttr.Subscriptions.{
  same_map, Subscription, SubscriptionContainer, of_connection, ConnectionMap, tcp, unix, agent_tcp,
  agent_unix,
}

pub data Transport : Type 0 where
  tcp_socket unix_socket : Transport

pub data ConnectionType : Type 0 where
  client agent : ConnectionType

-- The map of a connection, by its transport and its type.
unfoldable pub map_of : Transport → ConnectionType → ConnectionMap
map_of tcp_socket client = tcp
map_of tcp_socket agent = agent_tcp
map_of unix_socket client = unix
map_of unix_socket agent = agent_unix

-- The part of the state that join and leave change.
pub record Members (S : Type 0) : Type 0 where
  pub maps : ConnectionMap → List ℕ
  pub subscriptions : S

unfoldable pub has_id : ℕ → List ℕ → Bool
has_id id [] = false
has_id id (x ∷ xs) = x == id || has_id id xs

-- `try_emplace` and `erase`.
unfoldable pub try_emplace : ℕ → List ℕ → List ℕ
try_emplace id xs = if has_id id xs then xs else id ∷ xs

unfoldable pub erase_id : ℕ → List ℕ → List ℕ
erase_id id [] = []
erase_id id (x ∷ xs) = let rest = erase_id id xs in if x == id then rest else x ∷ rest

abbrev pub update_map :
    ConnectionMap → (List ℕ → List ℕ) → (ConnectionMap → List ℕ) → ConnectionMap → List ℕ
update_map m f maps k = if same_map m k then f (maps k) else maps k

-- Two hexadecimal digits for each byte.
unfoldable pub hex_digit : ℕ → ℕ
hex_digit d = if ltb d 10 then 48 + d else 87 + d

unfoldable pub hex_name : List ℕ → Key
hex_name [] = []
hex_name (b ∷ bs) = hex_digit (b / 16) ∷ hex_digit (b % 16) ∷ hex_name bs

-- The channel of everybody, "*".
abbrev pub everybody : Key
everybody = 42 ∷ []

module _ {S : Type 0} (c : SubscriptionContainer S) (uuid : ℕ → List ℕ) where
  -- state::join; the clock is read for each subscription.
  unfoldable pub join : ℕ → ℕ → Transport → ConnectionType → ℕ → Members S → Members S
  join now then_now transport type id st =
      let own : Subscription = record {
        connection_id = id;
        channel = hex_name (uuid id);
        subscribed_at = now;
      } in
      let common : Subscription = record {
        connection_id = id;
        channel = everybody;
        subscribed_at = then_now;
      } in
      record {
        maps = update_map (map_of transport type) (try_emplace id) st.maps;
        subscriptions = (c.insert (c.insert st.subscriptions own).0 common).0;
      }

  -- state::leave
  unfoldable pub leave : Transport → ConnectionType → ℕ → Members S → Members S
  leave transport type id st = record {
    maps = update_map (map_of transport type) (erase_id id) st.maps;
    subscriptions = c.erase_if st.subscriptions (of_connection id);
  }
