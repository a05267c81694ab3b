-- ===== src/Server/Typing.antt =====
-- Every entry of a server is a well-formed counter or a well-formed raw entry.
use throttr.Prelude.{
  ℕ, ltb, ◌+◌, ◌-◌, ◌%◌, ◌^◌, ◌<◌, List, [], Bool, true, false, ◌&&◌, Option, none, some, ◌≡◌, ◌⊎◌,
  inl, inr, refl, sym, ◌∙◌, ap, arith, length, take, bytes_eq, Bool-cases,
}
use throttr.Prelude.Bytes.{le_value}
use throttr.Protocol.{
  TtlTypes, counter, raw, value_mod, u64_mod, quota, ttl, AttributeTypes, ChangeTypes, patch,
  increase, decrease,
}
use throttr.Time.{get_expiration_point}
use throttr.Entry.{Key, Entry, EntryWrapper, is_counter, make_entry}
use throttr.Storage.{HashedUnique, is_some}
use throttr.Storage.Views.{view, contents}
use throttr.State.{State}
use throttr.Finder.Laws.{live_entry, view-find_or_fail}
use throttr.Create.{insert_command, set_command}
use throttr.Create.Laws.{insert_command_lem, set_command_lem, written, holds_counter}
use throttr.Update.{RequestUpdate, modification, apply_quota_change, changed_point}
use throttr.Update.Laws.{update_command_lem, updated}
use throttr.Update.Quota.{apply_quota_change_bounds}
use throttr.Purge.{purge_command}
use throttr.Purge.Laws.{purge_command_lem, is_live}
use throttr.Query.Laws.{query_command_lem}
use throttr.Statistics.{stat_command}
use throttr.Collector.Passes.{view-collect, collected}
use throttr.Server.{
  Step, inserts, sets, updates, purges, queries, stats, collects, Reachable, starts, goes_on,
}

-- A counter without a value, or a value without a counter, that fit their types.
abbrev pub IsTyped : ℕ → Entry → Type 0
IsTyped w e =
    (e.expires_at < u64_mod)
    × (((e.type ≡ counter) × (e.counter < value_mod w) × (e.buffer ≡ []))
        ⊎ ((e.type ≡ raw) × (e.counter ≡ 0) × (length e.buffer < value_mod w)))

-- The same of what a key holds.
abbrev pub HoldsTyped : ℕ → Option (Entry × Bool) → Type 0
HoldsTyped w none = Unit
HoldsTyped w (some (e, expired)) = IsTyped w e

get_expiration_point_lt :
    (w now : ℕ) (t : TtlTypes) (left : List ℕ) → get_expiration_point w now t left < u64_mod
unfolding get_expiration_point
get_expiration_point_lt w now t left = omega arith

make_entry-counter :
    (w : ℕ) (amount : List ℕ) (t : TtlTypes) (at : ℕ)
    → le_value (take w amount) < value_mod w
    → at < u64_mod
    → IsTyped w (make_entry w counter amount t at)
unfolding make_entry
make_entry-counter w amount t at small soon = (soon, inl (refl, small, refl))

written-IsTyped :
    (w : ℕ) (value : List ℕ) (t : TtlTypes) (at : ℕ) (found : Option EntryWrapper)
    → length value < value_mod w
    → at < u64_mod
    → HoldsTyped w (contents found)
    → holds_counter found ≡ false
    → IsTyped w (written w value t at found).0
unfolding make_entry
written-IsTyped w value t at none small soon ok h = (soon, inr (refl, refl, small))
written-IsTyped w value t at (some e) small soon ok h = elim ok.1 [
  | inl as_counter ↦ absurd (ground (arith, ap is_counter as_counter.0, h))
  | inr as_raw ↦ (soon, inr (as_raw.0, as_raw.1, small))
]

changed_point_lt :
    (now : ℕ) (e : Entry) (ch : ChangeTypes) (value : ℕ)
    → e.expires_at < u64_mod
    → changed_point now e ch value < u64_mod
unfolding changed_point
changed_point_lt now e patch value h = omega arith
changed_point_lt now e increase value h = omega arith
changed_point_lt now e decrease value h = omega arith
changed_point_lt now e (ChangeTypes.other n) value h = h

quota-IsTyped :
    (w : ℕ) (e : Entry) (ch : ChangeTypes) (value : ℕ)
    → IsTyped w e
    → is_counter e.type ≡ true
    → value < value_mod w
    → IsTyped w (apply_quota_change w e ch value).1
quota-IsTyped w e ch value ok h small = elim ok.1 [
  | inl as_counter ↦
      let (fits, rest) = apply_quota_change_bounds w e ch value as_counter.1 small in
      let e' = (apply_quota_change w e ch value).1 in
      (
        rw (sym (ap (λ (x : Entry). x.expires_at) rest)) at ok.0,
        inl (
          ap (λ (x : Entry). x.type) rest ∙ as_counter.0,
          fits,
          ap (λ (x : Entry). x.buffer) rest ∙ as_counter.2,
        ),
      )
  | inr as_raw ↦ absurd (ground (arith, ap is_counter as_raw.0, h))
]

modification-IsTyped :
    (w now : ℕ) (sk : Key) (r : RequestUpdate) (e : Entry)
    → IsTyped w e
    → r.value < value_mod w
    → IsTyped w (modification w now sk r e).1
unfolding modification
modification-IsTyped w now sk r e ok small = by_attribute r.attribute
  where
    by_attribute :
        (a : AttributeTypes) → IsTyped w (modification w now sk (record r { attribute = a }) e).1
    by_attribute quota = elim (Bool-cases (is_counter e.type)) [
      | inl h ↦ rw h (quota-IsTyped w e r.change r.value ok h small)
      | inr h ↦ rw h ok
    ]
    by_attribute ttl = (changed_point_lt now e r.change r.value ok.0, ok.1)
    by_attribute (AttributeTypes.other n) = ok

collected-HoldsTyped :
    (w now : ℕ) (v : Option (Entry × Bool)) → HoldsTyped w v → HoldsTyped w (collected now v)
collected-HoldsTyped w now none ok = tt
collected-HoldsTyped w now (some (e, false)) ok = ok
collected-HoldsTyped w now (some (e, true)) ok =
    elim (Bool-cases (ltb 10_000_000_000 ((now + 2 ^ 64 - e.expires_at) % 2 ^ 64))) [
      | inl gone ↦ rw gone tt
      | inr stays ↦ rw stays ok
    ]

module _ {S : Type 0} (c : HashedUnique S) (w : ℕ) where
  abbrev AllTyped : State S → Type 0
  AllTyped st = (j : Key) → HoldsTyped w (view c st.storage j)

  insert_command-AllTyped :
      (st : State S) (now : ℕ) (k : Key) (amount : List ℕ) (t : TtlTypes) (left : List ℕ)
      → le_value (take w amount) < value_mod w
      → AllTyped st
      → AllTyped (insert_command c w now st k amount t left).1
  insert_command-AllTyped st now k amount t left small ok j =
      rw ((insert_command_lem c w now st k amount t left).1 j)
        (elim (Bool-cases (is_some (c.find st.storage k))) [
          | inl taken ↦ rw taken (ok j)
          | inr free ↦ elim (Bool-cases (bytes_eq k j)) [
            | inl here ↦
                rw (free, here)
                  (make_entry-counter w amount t _ small (get_expiration_point_lt w now t left))
            | inr other ↦ rw (free, other) (ok j)
          ]
        ])

  set_command-AllTyped :
      (st : State S) (now : ℕ) (k : Key) (value : List ℕ) (t : TtlTypes) (left : List ℕ)
      → length value < value_mod w
      → AllTyped st
      → AllTyped (set_command c w now st k value t left).1
  unfolding view
  set_command-AllTyped st now k value t left small ok j =
      rw ((set_command_lem c w now st k value t left).1 j)
        (elim (Bool-cases (holds_counter (c.find st.storage k))) [
          | inl refused ↦ rw refused (ok j)
          | inr accepted ↦ elim (Bool-cases (bytes_eq k j)) [
            | inl here ↦
                rw (accepted, here)
                  (written-IsTyped w value t _ (c.find st.storage k) small
                    (get_expiration_point_lt w now t left) (ok k) accepted)
            | inr other ↦ rw (accepted, other) (ok j)
          ]
        ])

  updated-HoldsTyped :
      (st : State S) (now : ℕ) (r : RequestUpdate) (v : Option (Entry × Bool)) (j : Key)
      → r.value < value_mod w
      → HoldsTyped w v
      → HoldsTyped w (view c st.storage j)
      → HoldsTyped w (updated c w now st.scheduled_key r st.storage (live_entry v) j)
  updated-HoldsTyped st now r none j small here ok = ok
  updated-HoldsTyped st now r (some (e, true)) j small here ok = ok
  updated-HoldsTyped st now r (some (e, false)) j small here ok =
      elim (Bool-cases (bytes_eq r.key j)) [
        | inl same ↦ rw same (modification-IsTyped w now st.scheduled_key r e here small)
        | inr other ↦ rw other ok
      ]

  purge_command-AllTyped :
      (st : State S) (k : Key) → AllTyped st → AllTyped (purge_command c st k).1
  purge_command-AllTyped st k ok j =
      rw ((purge_command_lem c st k).1 j)
        (elim (Bool-cases (is_live (view c st.storage k) && bytes_eq k j)) [
          | inl gone ↦ rw gone tt
          | inr stays ↦ rw stays (ok j)
        ])

  Step-AllTyped : (st st' : State S) → Step c w st st' → AllTyped st → AllTyped st'
  unfolding stat_command
  Step-AllTyped _ _ (inserts st now k amount t left small) ok =
      insert_command-AllTyped st now k amount t left small ok
  Step-AllTyped _ _ (sets st now k value t left small) ok =
      set_command-AllTyped st now k value t left small ok
  Step-AllTyped _ _ (updates st now r small) ok = λ j.
      rw ((update_command_lem c w now st r).1 j)
        (updated-HoldsTyped st now r (view c st.storage r.key) j small (ok r.key) (ok j))
  Step-AllTyped _ _ (purges st k) ok = purge_command-AllTyped st k ok
  Step-AllTyped _ _ (queries st now as_query k) ok =
      λ j. rw ((query_command_lem c w now as_query st k).1 j) (ok j)
  Step-AllTyped _ _ (stats st k o) ok = λ j. rw (view-find_or_fail c st k j) (ok j)
  Step-AllTyped _ _ (collects st now) ok = λ j.
      rw (view-collect c now st.storage j) (collected-HoldsTyped w now (view c st.storage j) (ok j))

  -- Whatever commands and passes of the collector a server has run since it started empty, in any
  -- order, what a key holds is a counter that fits a value and has no bytes, or a raw entry whose
  -- bytes fit a size and that has no counter, and its expiration point fits 64 bits; for numbers
  -- of requests that the parser can give.
  pub Reachable-HoldsTyped :
      (st : State S) → Reachable c w st → (k : Key) → HoldsTyped w (view c st.storage k)
  Reachable-HoldsTyped _ (starts st empty) k = rw (empty k) tt
  Reachable-HoldsTyped _ (goes_on st st' before step) k =
      Step-AllTyped st st' step (Reachable-HoldsTyped st before) k
