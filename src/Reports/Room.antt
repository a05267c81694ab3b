-- ===== src/Reports/Room.antt =====
-- What is written into a response: the bytes, and the room that they take.
use mathlib.Core.List.{flatten}
use throttr.Prelude.{
  ℕ, ◌+◌, ◌*◌, ◌%◌, List, [], ◌∷◌, ◌++◌, ◌≡◌, refl, ap, arith, length, length-append,
}
use throttr.Prelude.Bytes.{le_bytes}
use throttr.Protocol.{TtlTypes, EntryTypes, value_mod}
use throttr.Entry.{EntryWrapper}
use throttr.Storage.{HashedUnique}
use throttr.State.{success_response}
use throttr.Reports.{
  Output, grow, point, put, list_measure, stats_measure, bytes_used, write_list_entry_to_buffer,
  write_stats_entry_to_buffer, live, count_read, write_entries, write_keys, write_fragments,
  entry_cost, handle_fragmented_entries_response,
}
use throttr.Reports.Adds.{Adds, none-Adds, put-Adds, put_bytes-Adds, point-Adds, then_Adds}
use throttr.Reports.Fragments.{fragments, flatten-fragments}

-- What write_list_entry_to_buffer writes for an entry.
abbrev pub list_bytes : ℕ → (EntryTypes → ℕ) → (TtlTypes → ℕ) → EntryWrapper → List ℕ
list_bytes w type_code unit_code e =
    (length e.key % 256)
    ∷ type_code e.entry.type
    ∷ unit_code e.entry.ttl_type
    ∷ (le_bytes 8 e.entry.expires_at ++ le_bytes w (bytes_used w e % value_mod w))

-- What write_stats_entry_to_buffer writes for an entry.
abbrev pub stats_bytes : EntryWrapper → List ℕ
stats_bytes e =
    (length e.key % 256)
    ∷ (((le_bytes 8 e.metrics.reads_per_minute ++ le_bytes 8 e.metrics.writes_per_minute)
          ++ le_bytes 8 e.metrics.reads_accumulator)
        ++ le_bytes 8 e.metrics.writes_accumulator)

-- A function that writes an entry takes the room that its measure says.
pub record IsWriter (measure : ℕ × ℕ) (bytes : EntryWrapper → List ℕ)
    (write : EntryWrapper → Output → Output) : Type 0 where
  pub adds : (e : EntryWrapper) (o : Output) → Adds o (write e o) (bytes e) measure.1 measure.0

pub list-IsWriter :
    (w : ℕ) (type_code : EntryTypes → ℕ) (unit_code : TtlTypes → ℕ)
    → IsWriter
        (list_measure w)
        (list_bytes w type_code unit_code)
        (write_list_entry_to_buffer w type_code unit_code)
unfolding write_list_entry_to_buffer
list-IsWriter w type_code unit_code = record {
  adds = λ e o.
      then_Adds
        (then_Adds
          (then_Adds (then_Adds (put-Adds _ o) (point-Adds _ _) refl refl) (point-Adds _ _) refl
            refl)
          (put_bytes-Adds 8 _ _) refl refl)
        (put_bytes-Adds w _ _) refl refl;
}

pub stats-IsWriter : IsWriter stats_measure stats_bytes write_stats_entry_to_buffer
unfolding write_stats_entry_to_buffer
stats-IsWriter = record {
  adds = λ e o.
      then_Adds (put-Adds _ o)
        (then_Adds
          (then_Adds (then_Adds (put_bytes-Adds 8 _ _) (put_bytes-Adds 8 _ _) refl refl)
            (put_bytes-Adds 8 _ _) refl refl)
          (put_bytes-Adds 8 _ _) refl refl)
        refl refl;
}

abbrev pub each : (EntryWrapper → List ℕ) → List EntryWrapper → List ℕ
each f [] = []
each f (e ∷ es) = f e ++ each f es

abbrev pub key_of : EntryWrapper → List ℕ
key_of e = e.key

write_keys-Adds :
    (es : List EntryWrapper) (o : Output) → Adds o (write_keys es o) (each key_of es) (length es) 0
unfolding write_keys
write_keys-Adds [] o = none-Adds o refl refl
write_keys-Adds (e ∷ es) o =
    then_Adds (point-Adds e.key o) (write_keys-Adds es (point e.key o)) (omega arith) refl

length_mul : (f g : List EntryWrapper) (m : ℕ) → length (f ++ g) * m ≡ length f * m + length g * m
length_mul f g m = rw (length-append f g) (omega arith)

-- A fragment as it is sent: its index, its count, its entries and its keys.
abbrev pub fragment_bytes : (EntryWrapper → List ℕ) → ℕ → List EntryWrapper → List ℕ
fragment_bytes bytes i f =
    ((le_bytes 8 (i + 1) ++ le_bytes 8 (length f)) ++ each bytes f) ++ each key_of f

abbrev pub fragments_bytes : (EntryWrapper → List ℕ) → ℕ → List (List EntryWrapper) → List ℕ
fragments_bytes bytes i [] = []
fragments_bytes bytes i (f ∷ fs) = fragment_bytes bytes i f ++ fragments_bytes bytes (i + 1) fs

-- The bytes of a response, whose items are these.
abbrev pub response_bytes : (EntryWrapper → List ℕ) → ℕ × ℕ → ℕ → List EntryWrapper → List ℕ
response_bytes bytes measure limit items =
    let fs = fragments limit (entry_cost measure) items in
    (success_response ∷ []) ++ (le_bytes 8 (length fs) ++ fragments_bytes bytes 0 fs)

module _ {measure : ℕ × ℕ} {bytes : EntryWrapper → List ℕ} {write : EntryWrapper → Output → Output}
    (writer : IsWriter measure bytes write) where
  write_entries-Adds :
      (es : List EntryWrapper) (o : Output)
      → Adds o
          (write_entries write es o)
          (each bytes es)
          (length es * measure.1)
          (length es * measure.0)
  unfolding write_entries
  write_entries-Adds [] o = none-Adds o (omega arith) (omega arith)
  write_entries-Adds (e ∷ es) o =
      then_Adds (writer.adds e o) (write_entries-Adds es (write e o)) (omega arith) (omega arith)

  write_fragments-Adds :
      (i : ℕ) (fs : List (List EntryWrapper)) (o : Output)
      → Adds o
          (write_fragments write i fs o)
          (fragments_bytes bytes i fs)
          (length (flatten fs) * (measure.1 + 1) + length fs * 2)
          (length (flatten fs) * measure.0 + length fs * 16)
  unfolding write_fragments flatten
  write_fragments-Adds i [] o = none-Adds o (omega arith) (omega arith)
  write_fragments-Adds i (f ∷ fs) o =
      then_Adds
        (then_Adds
          (then_Adds (then_Adds (put_bytes-Adds 8 _ o) (put_bytes-Adds 8 _ _) refl refl)
            (write_entries-Adds f _) refl refl)
          (write_keys-Adds f _) refl refl)
        (write_fragments-Adds (i + 1) fs _)
        (omega (arith, length_mul f (flatten fs) (measure.1 + 1)))
        (omega (arith, length_mul f (flatten fs) measure.0))

  module _ {S : Type 0} (c : HashedUnique S) where
    -- The response is the bytes of the fragments of the live entries; its copies end where
    -- write_buffer ends, and its batch has as many segments as it was reserved for.
    pub response_lem :
        (limit : ℕ) (s : S) (o : Output)
        → let (s', o') = handle_fragmented_entries_response c limit measure write s o in
          (flatten o'.batch
            ≡ flatten o.batch ++ response_bytes bytes measure limit (live (c.items s')))
          × (o'.offset ≡ o'.size)
          × (length o'.batch ≡ o'.reserved)
    unfolding handle_fragmented_entries_response grow
    response_lem limit s o = (
      all.shows,
      omega (arith, all.offset_eq, all.size_eq),
      omega (arith, all.segments_eq, all.reserved_eq),
    )
      where
        items : List EntryWrapper
        items = live (c.items (c.for_each s count_read))

        fs : List (List EntryWrapper)
        fs = fragments limit (entry_cost measure) items

        segments : ℕ
        segments = 2 + (length items * (measure.1 + 1) + length fs * 2)

        room : ℕ
        room = 8 + (length items * measure.0 + length fs * 16)

        count : flatten fs ≡ items
        count = flatten-fragments limit (entry_cost measure) items

        scaled : (m : ℕ) → length (flatten fs) * m ≡ length items * m
        scaled m = ap (λ (l : List EntryWrapper). length l * m) count

        start : Output
        start = grow segments room o

        all :
            Adds start
              (write_fragments write 0 fs
                (put (le_bytes 8 (length fs)) (point (success_response ∷ []) start)))
              ((success_response ∷ []) ++ (le_bytes 8 (length fs) ++ fragments_bytes bytes 0 fs))
              segments
              room
        all =
            then_Adds (point-Adds _ start)
              (then_Adds (put_bytes-Adds 8 (length fs) _) (write_fragments-Adds 0 fs _) refl refl)
              (omega (arith, scaled (measure.1 + 1))) (omega (arith, scaled measure.0))
