-- ===== src/Create.antt =====
-- src/sources/services/create_service.cpp, src/sources/commands/insert_command.cpp and
-- src/sources/commands/set_command.cpp. The request is what the protocol library parsed.
pub mod Laws
pub mod Scheduling
use throttr.Prelude.{
  ℕ, List, [], ◌∷◌, Bool, true, false, not, Option, none, some, leb, if◌then◌else◌, map,
}
use throttr.Protocol.{TtlTypes, EntryTypes, counter, raw}
use throttr.Time.{get_expiration_point}
use throttr.Entry.{Key, EntryWrapper, is_counter, update_buffer, add_read, add_write, make_wrapper}
use throttr.Storage.{HashedUnique}
use throttr.State.{State, dispatch, status}

-- What a `set` of a key that is there does to its entry.
abbrev pub overwrite : List ℕ → TtlTypes → ℕ → EntryWrapper → EntryWrapper
overwrite value ttl_type expires_at item = add_write (record item {
  entry = record item.entry { buffer = value; expires_at = expires_at; ttl_type = ttl_type };
})

-- The keys that the loop over the index reads: up to the first entry that has not expired.
unfoldable pub visited : List EntryWrapper → List Key
visited [] = []
visited (item ∷ items) = let rest = visited items in item.key ∷ (if item.expired then rest else [])

-- Whether the loop dispatches the timer: it compares with the first entry that has not expired.
unfoldable pub dispatches : ℕ → List EntryWrapper → Bool
dispatches expires_at [] = false
dispatches expires_at (item ∷ items) =
    let rest = dispatches expires_at items in
    if item.expired then rest else leb expires_at item.entry.expires_at

module _ {S : Type 0} (c : HashedUnique S) where
  unfoldable pub read_all : S → List Key → S
  read_all s [] = s
  read_all s (k ∷ ks) = read_all (c.modify s k add_read) ks

  -- The loop after an insertion.
  unfoldable pub after_insert : State S → ℕ → State S
  after_insert st expires_at =
      let items = c.items st.storage in
      let st' : State S = record st { storage = read_all st.storage (visited items) } in
      if dispatches expires_at items then dispatch st' expires_at else st'

  unfoldable pub emplace_new : State S → EntryWrapper → Bool × State S
  emplace_new st e =
      let (s, inserted) = c.emplace st.storage e in
      let st' : State S = record st { storage = s } in
      if inserted then (true, after_insert st' e.entry.expires_at) else (false, st')

  -- The entry that a `set` writes over, if there is one: any that is no counter.
  unfoldable pub overwritten : Bool → Option EntryWrapper → Bool
  overwritten true found = false
  overwritten false none = false
  overwritten false (some e) = not (is_counter e.entry.type)

  -- create_service::use; `now` is the clock, `w` the size of a `value_type`.
  unfoldable pub use_service :
      ℕ → ℕ → State S → Key → List ℕ → TtlTypes → List ℕ → EntryTypes → Bool → Bool × State S
  use_service w now st k value ttl_type ttl type as_insert =
      let expires_at = get_expiration_point w now ttl_type ttl in
      if overwritten as_insert (c.find st.storage k)
      then (
        true,
        record st { storage = c.modify st.storage k (overwrite value ttl_type expires_at) },
      )
      else emplace_new st (make_wrapper w k type value ttl_type expires_at)

  -- insert_command::call: the response's byte, and the state.
  unfoldable pub insert_command : ℕ → ℕ → State S → Key → List ℕ → TtlTypes → List ℕ → ℕ × State S
  insert_command w now st k quota ttl_type ttl =
      let (inserted, st') = use_service w now st k quota ttl_type ttl counter true in
      (status inserted, st')

  -- set_command::call
  unfoldable pub set_command : ℕ → ℕ → State S → Key → List ℕ → TtlTypes → List ℕ → ℕ × State S
  set_command w now st k value ttl_type ttl =
      let (inserted, st') = use_service w now st k value ttl_type ttl raw false in
      (status inserted, st')
