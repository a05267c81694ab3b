-- ===== src/Create/Laws.antt =====
-- What `insert` and `set` do to every key of the storage, and what they answer.
use throttr.Prelude.{
  ℕ, List, [], ◌∷◌, Bool, true, false, not, Option, none, some, ◌≡◌, refl, ◌∙◌, arith, bytes_eq,
  bytes_eq_iff, bytes_eq_refl, if◌then◌else◌,
}
use throttr.Protocol.{TtlTypes, counter, raw}
use throttr.Time.{get_expiration_point}
use throttr.Entry.{Key, Entry, EntryWrapper, add_read, make_entry, make_wrapper, is_counter}
use throttr.Storage.{HashedUnique, is_some}
use throttr.Storage.Views.{view, content, view-add_read}
use throttr.State.{State, status}
use throttr.Finder.{find_live}
use throttr.Finder.Laws.{find_live-eq_none}
use throttr.Create.{
  overwrite, visited, read_all, after_insert, emplace_new, overwritten, use_service, insert_command,
  set_command,
}

-- The key's contents after a `set` that is accepted.
abbrev pub written : ℕ → List ℕ → TtlTypes → ℕ → Option EntryWrapper → Entry × Bool
written w value t expires_at none = (make_entry w raw value t expires_at, false)
written w value t expires_at (some e) =
    (record e.entry { buffer = value; expires_at = expires_at; ttl_type = t }, e.expired)

abbrev pub holds_counter : Option EntryWrapper → Bool
holds_counter none = false
holds_counter (some e) = is_counter e.entry.type

module _ {S : Type 0} (c : HashedUnique S) where
  view-read_all : (s : S) (ks : List Key) (j : Key) → view c (read_all c s ks) j ≡ view c s j
  unfolding read_all
  view-read_all s [] j = refl
  view-read_all s (k ∷ ks) j = view-read_all (c.modify s k add_read) ks j ∙ view-add_read c s k j

  view-after_insert :
      (st : State S) (expires_at : ℕ) (j : Key)
      → view c (after_insert c st expires_at).storage j ≡ view c st.storage j
  unfolding after_insert
  view-after_insert st expires_at j =
      ground (arith, view-read_all st.storage (visited (c.items st.storage)) j)

  -- The key's new contents, if it was free.
  abbrev pub inserted : S → EntryWrapper → Key → Option (Entry × Bool)
  inserted s e j =
      if is_some (c.find s e.key)
      then view c s j
      else if bytes_eq e.key j
      then some (content e)
      else view c s j

  emplace_new_result :
      (st : State S) (e : EntryWrapper)
      → (emplace_new c st e).0 ≡ not (is_some (c.find st.storage e.key))
  unfolding emplace_new
  emplace_new_result st e = ground (arith, c.emplace_inserts st.storage e)

  view-emplace : (s : S) (e : EntryWrapper) (j : Key) → view c (c.emplace s e).0 j ≡ inserted s e j
  unfolding view
  view-emplace s e j = ground (arith, c.find-emplace s e j)

  view-emplace_new :
      (st : State S) (e : EntryWrapper) (j : Key)
      → view c (emplace_new c st e).1.storage j ≡ inserted st.storage e j
  unfolding emplace_new
  view-emplace_new st e j =
      let s : S = (c.emplace st.storage e).0 in
      let placed : State S = record st { storage = s } in
      ground (arith, view-after_insert placed e.entry.expires_at j, view-emplace st.storage e j)

  -- insert succeeds exactly when the key is free, and then the key holds the new counter; an
  -- entry that is there, expired or not, and every other key keep their contents.
  pub insert_command_lem :
      (w now : ℕ) (st : State S) (k : Key) (quota : List ℕ) (t : TtlTypes) (ttl : List ℕ)
      → let r = insert_command c w now st k quota t ttl in
        (r.0 ≡ status (not (is_some (c.find st.storage k))))
        × ((j : Key)
            → view c r.1.storage j ≡ (
                if is_some (c.find st.storage k)
                then view c st.storage j
                else if bytes_eq k j
                then some (make_entry w counter quota t (get_expiration_point w now t ttl), false)
                else view c st.storage j))
  unfolding insert_command use_service overwritten make_wrapper
  insert_command_lem w now st k quota t ttl =
      let e : EntryWrapper = make_wrapper w k counter quota t (get_expiration_point w now t ttl) in
      (rw (emplace_new_result st e) refl, λ j. view-emplace_new st e j)

  view-overwrite :
      (s : S) (k : Key) (value : List ℕ) (t : TtlTypes) (expires_at w : ℕ) (e : EntryWrapper)
      (j : Key)
      → c.find s k ≡ some e
      → view c (c.modify s k (overwrite value t expires_at)) j
        ≡ (if bytes_eq k j then some (written w value t expires_at (some e)) else view c s j)
  unfolding view
  view-overwrite s k value t expires_at w e j h =
      ground
        (arith, c.find-modify s k (overwrite value t expires_at) (λ x. refl) j, bytes_eq_iff k j)

  set_cases :
      (w now : ℕ) (st : State S) (k : Key) (value : List ℕ) (t : TtlTypes) (ttl : List ℕ)
      (found : Option EntryWrapper)
      → c.find st.storage k ≡ found
      → let r = set_command c w now st k value t ttl in
        (r.0 ≡ status (not (holds_counter found)))
        × ((j : Key)
            → view c r.1.storage j ≡ (
                if holds_counter found
                then view c st.storage j
                else if bytes_eq k j
                then some (written w value t (get_expiration_point w now t ttl) found)
                else view c st.storage j))
  unfolding set_command use_service overwritten make_wrapper
  set_cases w now st k value t ttl none h =
      let e : EntryWrapper = make_wrapper w k raw value t (get_expiration_point w now t ttl) in
      (ground (arith, emplace_new_result st e), λ j. ground (arith, view-emplace_new st e j))
  set_cases w now st k value t ttl (some x) h =
      let at : ℕ = get_expiration_point w now t ttl in
      let e : EntryWrapper = make_wrapper w k raw value t at in
      (
        ground (arith, emplace_new_result st e),
        λ j.
            ground (arith, view-emplace_new st e j, view-overwrite st.storage k value t at w x j h),
      )

  -- set fails exactly on a counter and then changes no contents; otherwise the key holds the
  -- value with the new time to live, its mark of expiry as it was, and every other key keeps its
  -- contents.
  pub set_command_lem :
      (w now : ℕ) (st : State S) (k : Key) (value : List ℕ) (t : TtlTypes) (ttl : List ℕ)
      → let found = c.find st.storage k in
        let r = set_command c w now st k value t ttl in
        (r.0 ≡ status (not (holds_counter found)))
        × ((j : Key)
            → view c r.1.storage j ≡ (
                if holds_counter found
                then view c st.storage j
                else if bytes_eq k j
                then some (written w value t (get_expiration_point w now t ttl) found)
                else view c st.storage j))
  set_command_lem w now st k value t ttl =
      set_cases w now st k value t ttl (c.find st.storage k) refl

  -- A set of a raw key that is marked as expired and not yet erased answers success, and the key
  -- is still not found.
  pub set_command-find_live_expired :
      (w now : ℕ) (st : State S) (k : Key) (value : List ℕ) (t : TtlTypes) (ttl : List ℕ)
      (e : EntryWrapper)
      → c.find st.storage k ≡ some e
      → e.expired ≡ true
      → is_counter e.entry.type ≡ false
      → let r = set_command c w now st k value t ttl in
        (r.0 ≡ status true) × (find_live c r.1 k ≡ none)
  set_command-find_live_expired w now st k value t ttl e h gone plain =
      let law = set_cases w now st k value t ttl (some e) h in
      (
        law.0 ∙ rw plain,
        find_live-eq_none c (set_command c w now st k value t ttl).1 k
            (record e.entry {
              buffer = value;
              expires_at = get_expiration_point w now t ttl;
              ttl_type = t;
            })
            (law.1 k ∙ rw (plain, bytes_eq_refl k, gone)),
      )
