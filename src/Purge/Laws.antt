-- ===== src/Purge/Laws.antt =====
-- What `purge` does to every key of the storage, and what it answers.
use throttr.Prelude.{
  Bool, false, Option, none, some, ◌≡◌, refl, ap, arith, bytes_eq, if◌then◌else◌, not, ◌&&◌,
}
use throttr.Entry.{Key, Entry, EntryWrapper}
use throttr.Storage.{HashedUnique}
use throttr.Storage.Views.{view, contents, view-add_read}
use throttr.State.{State, status}
use throttr.Purge.{erasable, count_purge, purge_command}

-- Whether a key holds a live entry.
abbrev pub is_live : Option (Entry × Bool) → Bool
is_live none = false
is_live (some (e, expired)) = not expired

erasable-is_live : (o : Option EntryWrapper) → erasable o ≡ is_live (contents o)
erasable-is_live none = refl
erasable-is_live (some e) = refl

module _ {S : Type 0} (c : HashedUnique S) where
  view-erase :
      (s : S) (k j : Key) → view c (c.erase s k) j ≡ (if bytes_eq k j then none else view c s j)
  unfolding view
  view-erase s k j = ground (arith, c.find-erase s k j)

  view-count_purge :
      (st : State S) (k : Key) (o : Option EntryWrapper) (j : Key)
      → view c (count_purge c st k o).storage j ≡ view c st.storage j
  unfolding count_purge
  view-count_purge st k none j = refl
  view-count_purge st k (some e) j = view-add_read c st.storage k j

  -- purge succeeds exactly on a live entry, whose key then holds nothing; every other key keeps
  -- its contents, and a purge that fails changes no contents.
  pub purge_command_lem :
      (st : State S) (k : Key)
      → let live = is_live (view c st.storage k) in
        let r = purge_command c st k in
        (r.0 ≡ status live)
        × ((j : Key)
            → view c r.1.storage j ≡ (if live && bytes_eq k j then none else view c st.storage j))
  unfolding purge_command view
  purge_command_lem st k =
      let found : Option EntryWrapper = c.find st.storage k in
      (
        ap status (erasable-is_live found),
        λ j. ground (
          arith,
          erasable-is_live found,
          view-erase (count_purge c st k found).storage k j,
          view-count_purge st k found j,
        ),
      )
