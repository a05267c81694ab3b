-- ===== src/Reports/Responses.antt =====
-- The whole responses of list and of stats, as a client reads them.
use mathlib.Core.List.{flatten}
use throttr.Prelude.{
  ℕ, suc, ◌^◌, ◌≤◌, ◌<◌, List, [], ◌∷◌, ◌++◌, ◌≡◌, refl, ◌∙◌, ap, arith, length, map, All,
}
use throttr.Entry.{EntryWrapper, add_read}
use throttr.Storage.{HashedUnique}
use throttr.Reports.{
  Output, live, count_read, entry_cost, max_fragment_size, handle_fragmented_entries_response,
}
use throttr.Reports.Room.{response_bytes, response_lem, IsWriter}
use throttr.Reports.Decoding.{decode, IsReader, row, decode-response_bytes}

-- The loop of a response counts a read of each live entry, and no other.
live-count_read : (es : List EntryWrapper) → live (map count_read es) ≡ map add_read (live es)
unfolding live
live-count_read [] = refl
live-count_read (e ∷ es) = ground (arith, live-count_read es)

All-map :
    (P Q : EntryWrapper → Type 0) (f : EntryWrapper → EntryWrapper)
    → ((e : EntryWrapper) → P e → Q (f e))
    → (es : List EntryWrapper) → All P es
    → All Q (map f es)
All-map P Q f h [] all = tt
All-map P Q f h (e ∷ es) all = (h e all.0, All-map P Q f h es all.1)

row_map :
    {D : Type 0} (row_of : EntryWrapper → D)
    → ((e : EntryWrapper) → row_of (add_read e) ≡ row_of e)
    → (es : List EntryWrapper) → map row_of (map add_read es) ≡ map row_of es
row_map row_of h [] = refl
row_map row_of h (e ∷ es) = rw (h e, row_map row_of h es) refl

length-map_read : (es : List EntryWrapper) → length (map add_read es) ≡ length es
length-map_read [] = refl
length-map_read (e ∷ es) = ap suc (length-map_read es)

key-count_read : (e : EntryWrapper) → (count_read e).key ≡ e.key
key-count_read e = ground arith

-- A response to a client that had nothing in its batch, for both commands.
module _ {D : Type 0} {read : List ℕ → (ℕ × D) × List ℕ} {bytes : EntryWrapper → List ℕ}
    {Fits : EntryWrapper → Type 0} {data_of : EntryWrapper → D}
    (reader : IsReader read bytes Fits data_of) {measure : ℕ × ℕ}
    {write : EntryWrapper → Output → Output} (writer : IsWriter measure bytes write)
    (keeps : (e : EntryWrapper) → Fits e → Fits (add_read e))
    (same : (e : EntryWrapper) → data_of (add_read e) ≡ data_of e)
    (small : (e : EntryWrapper) → Fits e → entry_cost measure e ≤ max_fragment_size) {S : Type 0}
    (c : HashedUnique S) where
  pub decode_response :
      (s : S) (o : Output)
      → o.batch ≡ []
      → All Fits (live (c.items s))
      → length (live (c.items s)) < 256 ^ 8
      → let (s', o') = handle_fragmented_entries_response c max_fragment_size measure write s o in
        (decode read (flatten o'.batch) ≡ map (row reader) (live (c.items s)))
        × (c.items s' ≡ map count_read (c.items s))
        × (o'.offset ≡ o'.size)
        × (length o'.batch ≡ o'.reserved)
  unfolding handle_fragmented_entries_response flatten
  decode_response s o fresh fits few =
      let counted = c.items-for_each s count_read key-count_read in
      let now_live = ap live counted ∙ live-count_read (c.items s) in
      let (bytes_eq, room_eq, batch_eq) = response_lem writer c max_fragment_size s o in
      let read_back =
        decode-response_bytes reader max_fragment_size measure (map add_read (live (c.items s)))
          (All-map Fits Fits add_read keeps (live (c.items s)) fits)
          (All-map Fits (λ e. entry_cost measure e ≤ max_fragment_size) add_read
            (λ e h. small (add_read e) (keeps e h)) (live (c.items s)) fits)
          (omega (arith, length-map_read (live (c.items s)), few)) in
      (
        ap (decode read) (
              bytes_eq
              ∙ ap
                  (λ b.
                    flatten b
                    ++ response_bytes bytes measure max_fragment_size
                        (live (c.items (c.for_each s count_read))))
                  fresh)
            ∙ ap (λ l. decode read (response_bytes bytes measure max_fragment_size l)) now_live
            ∙ read_back
            ∙ row_map (row reader) (λ e. ap (λ d. (e.key, d)) (same e)) (live (c.items s)),
        counted,
        room_eq,
        batch_eq,
      )
