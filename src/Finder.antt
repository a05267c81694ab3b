-- ===== src/Finder.antt =====
-- src/sources/services/find_service.cpp
pub mod Laws
use throttr.Prelude.{Option, none, some, if◌then◌else◌}
use throttr.Entry.{Key, EntryWrapper, add_read}
use throttr.Storage.{HashedUnique}
use throttr.State.{State}

-- The search that counts no read: neither a missing nor an expired entry is found.
unfoldable pub live : Option EntryWrapper → Option EntryWrapper
live none = none
live (some e) = if e.expired then none else some e

module _ {S : Type 0} (c : HashedUnique S) where
  -- find_or_fail, first half: the iterator that it returns is the key.
  unfoldable pub find_live : State S → Key → Option EntryWrapper
  find_live st k = live (c.find st.storage k)

  -- The state that find_or_fail leaves: one more read of what it found.
  unfoldable pub count_found : State S → Key → Option EntryWrapper → State S
  count_found st k none = st
  count_found st k (some e) = record st { storage = c.modify st.storage k add_read }

  -- find_or_fail. The entry is read after its counter was raised.
  unfoldable pub find_or_fail : State S → Key → Option EntryWrapper × State S
  find_or_fail st k = let st' = count_found st k (find_live st k) in (find_live st' k, st')
