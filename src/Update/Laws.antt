-- ===== src/Update/Laws.antt =====
-- What `update` does to every key of the storage, and what it answers.
use mathlib.Core.Path.{ap₂}
use throttr.Prelude.{
  ℕ, Bool, true, false, Option, none, some, ◌≡◌, refl, sym, ◌∙◌, ap, arith, bytes_eq, bytes_eq_iff,
  if◌then◌else◌,
}
use throttr.Entry.{Key, Entry, EntryWrapper, add_write}
use throttr.Storage.{HashedUnique}
use throttr.Storage.Views.{view, view-modify_counters}
use throttr.State.{State, status}
use throttr.Finder.{find_or_fail, count_found}
use throttr.Finder.Laws.{live_entry, entry_of, view-find_or_fail, find_or_fail_lem}
use throttr.Update.{
  RequestUpdate, set_entry, count_write, modification, update_found, update_or_fail, update_command,
}

pub live_entry-eq_some :
    (v : Option (Entry × Bool)) (e : Entry) → live_entry v ≡ some e → v ≡ some (e, false)
live_entry-eq_some none e h = cc
live_entry-eq_some (some (x, expired)) e h = ground arith

-- The response of an update of a live entry, or of none.
abbrev pub update_answer : ℕ → ℕ → Key → RequestUpdate → Option Entry → ℕ
update_answer w now scheduled r none = status false
update_answer w now scheduled r (some e) = status (modification w now scheduled r e).0

module _ {S : Type 0} (c : HashedUnique S) where
  -- The contents of a key after an update of a live entry, or of none.
  abbrev pub updated : ℕ → ℕ → Key → RequestUpdate → S → Option Entry → Key → Option (Entry × Bool)
  updated w now scheduled r s none j = view c s j
  updated w now scheduled r s (some e) j =
      if bytes_eq r.key j then some ((modification w now scheduled r e).1, false) else view c s j

  view-set_entry :
      (s : S) (k : Key) (e e' : Entry) (j : Key)
      → view c s k ≡ some (e, false)
      → view c (c.modify s k (set_entry e')) j
        ≡ (if bytes_eq k j then some (e', false) else view c s j)
  unfolding view
  view-set_entry s k e e' j h =
      ground (arith, c.find-modify s k (set_entry e') (λ x. refl) j, bytes_eq_iff k j)

  view-count_write :
      (s : S) (k : Key) (modified : Bool) (j : Key)
      → view c (c.modify s k (count_write modified)) j ≡ view c s j
  view-count_write s k true j = view-modify_counters c s k add_write (λ x. refl) (λ x. refl) j
  view-count_write s k false j = view-modify_counters c s k (λ item. item) (λ x. refl) (λ x. refl) j

  update_found_lem :
      (w now : ℕ) (st : State S) (r : RequestUpdate) (e : Entry)
      → view c st.storage r.key ≡ some (e, false)
      → let u = update_found c w now st r e in
        (u.0 ≡ update_answer w now st.scheduled_key r (some e))
        × ((j : Key)
            → view c u.1.storage j ≡ updated w now st.scheduled_key r st.storage (some e) j)
  unfolding update_found
  update_found_lem w now st r e h =
      let m : Bool × Entry × Bool = modification w now st.scheduled_key r e in
      let s : S = c.modify st.storage r.key (set_entry m.1) in
      (
        refl,
        λ j.
            ground
              (arith, view-count_write s r.key m.0 j, view-set_entry st.storage r.key e m.1 j h),
      )

  updated-congr :
      (w now : ℕ) (sk : Key) (r : RequestUpdate) (s s' : S) (o : Option Entry) (j : Key)
      → view c s j ≡ view c s' j
      → updated w now sk r s o j ≡ updated w now sk r s' o j
  updated-congr w now sk r s s' none j h = h
  updated-congr w now sk r s s' (some e) j h = rw h

  update_or_fail_lem :
      (w now : ℕ) (st : State S) (r : RequestUpdate) (found : Option EntryWrapper)
      → entry_of found ≡ live_entry (view c st.storage r.key)
      → let u = update_or_fail c w now st r found in
        (u.0 ≡ update_answer w now st.scheduled_key r (entry_of found))
        × ((j : Key)
            → view c u.1.storage j ≡ updated w now st.scheduled_key r st.storage (entry_of found) j)
  unfolding update_or_fail
  update_or_fail_lem w now st r none h = (refl, λ j. refl)
  update_or_fail_lem w now st r (some e) h =
      update_found_lem w now st r e.entry
        (live_entry-eq_some (view c st.storage r.key) e.entry (sym h))

  scheduled_key-find_or_fail :
      (st : State S) (k : Key) → (find_or_fail c st k).1.scheduled_key ≡ st.scheduled_key
  unfolding find_or_fail count_found
  scheduled_key-find_or_fail st k = ground arith

  -- update of a key that holds no live entry fails and changes no contents; of a live entry it
  -- answers by the modification, whose outcome the key then holds, live; every other key keeps
  -- its contents.
  pub update_command_lem :
      (w now : ℕ) (st : State S) (r : RequestUpdate)
      → let e = live_entry (view c st.storage r.key) in
        let u = update_command c w now st r in
        (u.0 ≡ update_answer w now st.scheduled_key r e)
        × ((j : Key) → view c u.1.storage j ≡ updated w now st.scheduled_key r st.storage e j)
  unfolding update_command
  update_command_lem w now st r =
      let found : Option EntryWrapper = (find_or_fail c st r.key).0 in
      let st' : State S = (find_or_fail c st r.key).1 in
      let same = find_or_fail_lem c st r.key in
      let law =
        update_or_fail_lem w now st' r found
          (same ∙ sym (ap live_entry (view-find_or_fail c st r.key r.key))) in
      (
        law.0
            ∙ ap₂ (λ (sk : Key) (o : Option Entry). update_answer w now sk r o)
                (scheduled_key-find_or_fail st r.key) same,
        λ j.
            law.1 j
            ∙ ap₂ (λ (sk : Key) (o : Option Entry). updated w now sk r st'.storage o j)
                (scheduled_key-find_or_fail st r.key) same
            ∙ updated-congr w now st.scheduled_key r st'.storage st.storage
                (live_entry (view c st.storage r.key)) j (view-find_or_fail c st r.key j),
      )
