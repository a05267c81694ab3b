-- ===== src/Finder/Laws.antt =====
-- What find_or_fail returns, and what it leaves.
use throttr.Prelude.{Bool, true, Option, none, some, ◌≡◌, refl, ◌∙◌, ap, arith, if◌then◌else◌}
use throttr.Entry.{Key, Entry, EntryWrapper}
use throttr.Storage.{HashedUnique}
use throttr.Storage.Views.{view, contents, view-add_read}
use throttr.State.{State}
use throttr.Finder.{live, find_live, count_found, find_or_fail}

-- The live part of a key's contents.
abbrev pub live_entry : Option (Entry × Bool) → Option Entry
live_entry none = none
live_entry (some (e, expired)) = if expired then none else some e

abbrev pub entry_of : Option EntryWrapper → Option Entry
entry_of none = none
entry_of (some e) = some e.entry

live-contents : (o : Option EntryWrapper) → entry_of (live o) ≡ live_entry (contents o)
unfolding live
live-contents none = refl
live-contents (some e) = ground arith

entry_of-eq_none : (o : Option EntryWrapper) → entry_of o ≡ none → o ≡ none
entry_of-eq_none none h = refl
entry_of-eq_none (some e) h = cc

module _ {S : Type 0} (c : HashedUnique S) where
  -- Whether an entry is found depends on the contents alone.
  pub find_live-view :
      (st : State S) (k : Key) → entry_of (find_live c st k) ≡ live_entry (view c st.storage k)
  unfolding find_live view
  find_live-view st k = live-contents (c.find st.storage k)

  pub find_live-eq_none :
      (st : State S) (k : Key) (e : Entry)
      → view c st.storage k ≡ some (e, true)
      → find_live c st k ≡ none
  find_live-eq_none st k e h =
      entry_of-eq_none (find_live c st k) (find_live-view st k ∙ ap live_entry h)

  -- A search changes no key's contents.
  pub view-find_or_fail :
      (st : State S) (k j : Key) → view c (find_or_fail c st k).1.storage j ≡ view c st.storage j
  unfolding find_or_fail count_found
  view-find_or_fail st k j = ground (arith, view-add_read c st.storage k j)

  -- A search finds the entry exactly when it is there and has not expired.
  pub find_or_fail_lem :
      (st : State S) (k : Key) → entry_of (find_or_fail c st k).0 ≡ live_entry (view c st.storage k)
  unfolding find_or_fail
  find_or_fail_lem st k =
      find_live-view (find_or_fail c st k).1 k ∙ ap live_entry (view-find_or_fail st k k)
