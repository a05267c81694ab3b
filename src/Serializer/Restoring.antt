-- ===== src/Serializer/Restoring.antt =====
-- What a restart keeps of the storage.
use throttr.Prelude.{
  ℕ, suc, ◌+◌, ◌%◌, ◌^◌, ◌<◌, ◌≤◌, List, [], ◌∷◌, Bool, false, not, ◌&&◌, Option, none, some, ◌≡◌,
  ◌≢◌, inl, inr, refl, arith, All, length, bytes_eq, bytes_eq_iff, if◌then◌else◌,
}
use throttr.Entry.{Key, Entry, EntryWrapper, make_entry, make_wrapper}
use throttr.Storage.{HashedUnique, is_some}
use throttr.Storage.Views.{view}
use throttr.Serializer.{
  Codes, mismatched_value_size, magic, version, write_raw, zeros, dump_entry, dump_entries, count,
  dump_to_file, emplaced, restore_entries, restore_from_file,
}
use throttr.Serializer.Parsing.{
  read_raw-write_raw, read_bytes-append, IsDumpable, fields_of, read_entry-dump_entry,
}

count-le :
    (w : ℕ) (codes : Codes) (items : List EntryWrapper)
    → length items < 2 ^ 32
    → count w codes items ≤ length items
unfolding count
count-le w codes [] h = omega arith
count-le w codes (e ∷ items) h = ground (arith, count-le w codes items)

-- What a restore makes of a key, from the first live entry that the dump has of it: the type, the
-- unit and the expiration point, and a value of zeros.
unfoldable pub blank : ℕ → Key → List EntryWrapper → Option (Entry × Bool)
blank w k [] = none
blank w k (e ∷ items) =
    let rest = blank w k items in
    if not e.expired && bytes_eq e.key k
    then some (make_entry w e.entry.type (zeros w) e.entry.ttl_type e.entry.expires_at, false)
    else rest

module _ {S : Type 0} (c : HashedUnique S) (w : ℕ) (codes : Codes) where
  -- The insertions of a restore.
  unfoldable restored : S → List EntryWrapper → S
  restored s [] = s
  restored s (e ∷ items) =
      if e.expired
      then restored s items
      else restored (c.emplace s (emplaced w codes (fields_of e))).0 items

  restore_round :
      (s : S) (e : EntryWrapper) (n : ℕ) (rest : List ℕ)
      → IsDumpable w codes e
      → restore_entries w codes c (suc n) s (dump_entry w codes e rest)
        ≡ restore_entries w codes c n (c.emplace s (emplaced w codes (fields_of e))).0 rest
  unfolding restore_entries
  restore_round s e n rest h = rw (read_entry-dump_entry w codes e rest h)

  restore_entries-dump_entries :
      (s : S) (items : List EntryWrapper)
      → All (IsDumpable w codes) items
      → length items < 2 ^ 32
      → restore_entries w codes c (count w codes items) s (dump_entries w codes items)
        ≡ restored s items
  unfolding restore_entries dump_entries count restored
  restore_entries-dump_entries s [] all h = refl
  restore_entries-dump_entries s (e ∷ items) all h =
      let ih : (s' : S)
          → restore_entries w codes c (count w codes items) s' (dump_entries w codes items)
            ≡ restored s' items =
        λ s'. restore_entries-dump_entries s' items all.1 (omega arith) in
      let one_more : (count w codes items + 1) % 2 ^ 32 ≡ suc (count w codes items) =
        omega (arith, count-le w codes items) in
      let round = restore_round s e (count w codes items) (dump_entries w codes items) all.0 in
      ground (arith, ih s, ih (c.emplace s (emplaced w codes (fields_of e))).0, one_more, round)

  view-restored :
      (s : S) (items : List EntryWrapper) (k : Key)
      → view c (restored s items) k ≡ (if is_some (c.find s k) then view c s k else blank w k items)
  unfolding restored blank view emplaced make_wrapper
  view-restored s [] k = ground arith
  view-restored s (e ∷ items) k = ground (
    arith,
    view-restored s items k,
    view-restored (c.emplace s (emplaced w codes (fields_of e))).0 items k,
    c.find-emplace s (emplaced w codes (fields_of e)) k,
    bytes_eq_iff e.key k,
  )

  -- A restore of a dump of the same build succeeds; a key that the storage had keeps its
  -- contents, and any other key that the dump has live gets its type, its unit and its expiration
  -- point back, with a value of zeros; where the dump can hold every entry, there are fewer than
  -- 2^32 of them, and a value has less than 256 bytes.
  pub restore_from_file-dump_to_file :
      (s : S) (items : List EntryWrapper)
      → All (IsDumpable w codes) items
      → length items < 2 ^ 32
      → w < 256
      → (s' : S) × (restore_from_file w codes c s (some (dump_to_file w codes items)) ≡ inr s')
        × ((k : Key) → view c s' k ≡ (if is_some (c.find s k) then view c s k else blank w k items))
  unfolding restore_from_file dump_to_file bytes_eq
  restore_from_file-dump_to_file s items all many width =
      let i4 : List ℕ = dump_entries w codes items in
      let i3 : List ℕ = write_raw 4 (count w codes items) i4 in
      let i2 : List ℕ = write_raw 1 w i3 in
      let i1 : List ℕ = write_raw 1 version i2 in
      (
        restored s items,
        rw
            (
              read_bytes-append magic i1,
              read_raw-write_raw 1 version i2 (omega arith),
              read_raw-write_raw 1 w i3 (omega arith),
              read_raw-write_raw 4 (count w codes items) i4
                  (omega (arith, count-le w codes items many)),
            )
            (ground (arith, restore_entries-dump_entries s items all many)),
        view-restored s items,
      )

-- A dump of a build whose values have another size, below 256 bytes, is refused with the
-- mismatch.
pub restore_from_file-other_size :
    {S : Type 0} (c : HashedUnique S) (w v : ℕ) (codes : Codes) (s : S) (items : List EntryWrapper)
    → v < 256
    → v ≢ w
    → restore_from_file w codes c s (some (dump_to_file v codes items)) ≡ inl mismatched_value_size
unfolding restore_from_file dump_to_file bytes_eq
restore_from_file-other_size c w v codes s items byte other =
    let i4 : List ℕ = dump_entries v codes items in
    let i3 : List ℕ = write_raw 4 (count v codes items) i4 in
    let i2 : List ℕ = write_raw 1 v i3 in
    let i1 : List ℕ = write_raw 1 version i2 in
    rw
      (
        read_bytes-append magic i1,
        read_raw-write_raw 1 version i2 (omega arith),
        read_raw-write_raw 1 v i3 (omega arith),
      )
      (ground arith)
