-- ===== src/Purge.antt =====
-- src/sources/commands/purge_command.cpp
pub mod Laws
use throttr.Prelude.{ℕ, Bool, not, false, Option, none, some, if◌then◌else◌}
use throttr.Entry.{Key, EntryWrapper, add_read}
use throttr.Storage.{HashedUnique}
use throttr.State.{State, status}

-- Whether the entry that the search gives is erased.
abbrev pub erasable : Option EntryWrapper → Bool
erasable none = false
erasable (some e) = not e.expired

module _ {S : Type 0} (c : HashedUnique S) where
  -- The read that is counted when the key is there, expired or not.
  unfoldable pub count_purge : State S → Key → Option EntryWrapper → State S
  count_purge st k none = st
  count_purge st k (some e) = record st { storage = c.modify st.storage k add_read }

  -- purge_command::call
  unfoldable pub purge_command : State S → Key → ℕ × State S
  purge_command st k =
      let found = c.find st.storage k in
      let st' : State S = count_purge st k found in
      (
        status (erasable found),
        if erasable found then record st' { storage = c.erase st'.storage k } else st',
      )
