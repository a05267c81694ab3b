-- ===== src/Create/Scheduling.antt =====
-- When the creation of an entry schedules the timer of the collector.
use throttr.Prelude.{
  ℕ, ◌≤◌, List, [], ◌∷◌, ◌++◌, true, false, none, some, ◌≡◌, refl, sym, ◌∙◌, arith, All,
  bytes_eq_refl,
}
use throttr.Protocol.{TtlTypes, counter}
use throttr.Time.{get_expiration_point}
use throttr.Entry.{Key, Entry, EntryWrapper, make_entry, make_wrapper}
use throttr.Storage.{HashedUnique, find_key}
use throttr.Storage.Find.{All-find_key}
use throttr.Storage.Views.{view}
use throttr.State.{State}
use throttr.Create.{dispatches, after_insert, emplace_new, overwritten, use_service, insert_command}

-- An entry that is not later than any live one.
abbrev IsEarliest : ℕ → EntryWrapper → Type 0
IsEarliest at x = (x.expired ≡ false) → at ≤ x.entry.expires_at

dispatches-IsEarliest :
    (at : ℕ) (k : Key) (items : List EntryWrapper) (x : EntryWrapper)
    → All (IsEarliest at) items
    → find_key k items ≡ some x
    → x.expired ≡ false
    → dispatches at items ≡ true
unfolding dispatches find_key
dispatches-IsEarliest at k [] x all found alive = absurd (cc)
dispatches-IsEarliest at k (e ∷ items) x all found alive =
    ground (arith, dispatches-IsEarliest at k items x all.1, all.0)

module _ {S : Type 0} (c : HashedUnique S) where
  after_insert-dispatched :
      (st : State S) (at : ℕ)
      → dispatches at (c.items st.storage) ≡ true
      → (after_insert c st at).dispatched ≡ st.dispatched ++ at ∷ []
  unfolding after_insert
  after_insert-dispatched st at h = rw h refl

  earliest :
      (s : S) (e : EntryWrapper)
      → c.find s e.key ≡ none
      → ((j : Key) (x : Entry) → view c s j ≡ some (x, false) → e.entry.expires_at ≤ x.expires_at)
      → All (IsEarliest e.entry.expires_at) (c.items (c.emplace s e).0)
  unfolding view
  earliest s e free all =
      let s' : S = (c.emplace s e).0 in
      All-find_key (IsEarliest e.entry.expires_at) (c.items s') (c.items_unique s')
        (λ j x found alive. ground (arith, c.find-items s' j, c.find-emplace s e j, all j x.entry))

  -- An insert of a free key whose expiration point is not after that of any live entry dispatches
  -- the timer for that point.
  pub insert_command-dispatched :
      (w now : ℕ) (st : State S) (k : Key) (quota : List ℕ) (t : TtlTypes) (ttl : List ℕ)
      → c.find st.storage k ≡ none
      → ((j : Key) (x : Entry)
          → view c st.storage j ≡ some (x, false)
          → get_expiration_point w now t ttl ≤ x.expires_at)
      → (insert_command c w now st k quota t ttl).1.dispatched
        ≡ st.dispatched ++ get_expiration_point w now t ttl ∷ []
  unfolding insert_command use_service overwritten emplace_new make_wrapper make_entry
  insert_command-dispatched w now st k quota t ttl free all =
      let at : ℕ = get_expiration_point w now t ttl in
      let e : EntryWrapper = make_wrapper w k counter quota t at in
      let s' : S = (c.emplace st.storage e).0 in
      let found : find_key k (c.items s') ≡ some e =
        sym (c.find-items s' k) ∙ c.find-emplace st.storage e k ∙ rw (free, bytes_eq_refl k) refl in
      let first =
        dispatches-IsEarliest at k (c.items s') e (earliest st.storage e free all) found refl in
      let placed : State S = record st { storage = s' } in
      let inserts : (c.emplace st.storage e).1 ≡ true =
        c.emplace_inserts st.storage e ∙ rw free refl in
      rw inserts (after_insert-dispatched placed at first)
