-- ===== src/Connections/Fragmented.antt =====
-- The response of connections: its bytes and room, and that every connection is in it once.
use mathlib.Core.List.{flatten, map-append}
use throttr.Prelude.{
  ℕ, ◌+◌, ◌*◌, ◌≤◌, ◌<◌, List, [], ◌∷◌, ◌++◌, Bool, true, false, not, ◌≡◌, inl, inr, refl, ◌∙◌, ap,
  arith, length, length-append, map, All, Bool-cases, if◌then◌else◌,
}
use throttr.Prelude.Bytes.{le_bytes}
use throttr.Protocol.{RequestTypes}
use throttr.State.{success_response}
use throttr.Subscriptions.{ConnectionMap}
use throttr.Reports.{Output, grow, max_fragment_size}
use throttr.Reports.Adds.{Adds, none-Adds, put-Adds, put_bytes-Adds, point-Adds, then_Adds}
use throttr.Reports.Fragments.{
  fragments, flatten-fragments, fragments-IsFragment, IsFragment, total, All-split,
}
use throttr.Connections.{
  ConnectionData, connection_bytes, connection_cost, write_connections_entry_to_buffer,
  all_connections, half, write_connections, write_connection_fragments,
  handle_fragmented_connections_response,
}
use throttr.Connections.Entries.{length-connection_bytes}

abbrev Item : Type 0
Item = Bool × ConnectionData

abbrev pub HasUuid : Item → Type 0
HasUuid x = length x.1.id ≡ 16

-- The order in which the connections of a fragment are sent.
abbrev pub sent : List Item → List ConnectionData
sent f = half true f ++ half false f

abbrev pub connections_bytes : (RequestTypes → ℕ) → List ConnectionData → List ℕ
connections_bytes code [] = []
connections_bytes code (x ∷ xs) = connection_bytes code x ++ connections_bytes code xs

-- The fragments as they are sent, from an index on.
abbrev pub fragments_bytes : (RequestTypes → ℕ) → ℕ → List (List Item) → List ℕ
fragments_bytes code i [] = []
fragments_bytes code i (f ∷ fs) =
    (((le_bytes 8 i ++ le_bytes 8 (length f)) ++ connections_bytes code (half true f))
      ++ connections_bytes code (half false f))
    ++ fragments_bytes code (i + 1) fs

-- The order in which all connections are sent.
abbrev pub all_sent : List (List Item) → List ConnectionData
all_sent [] = []
all_sent (f ∷ fs) = sent f ++ all_sent fs

-- How many pass a test.
unfoldable pub count : (ConnectionData → Bool) → List ConnectionData → ℕ
count p [] = 0
count p (x ∷ xs) = (if p x then 1 else 0) + count p xs

count-append :
    (p : ConnectionData → Bool) (xs ys : List ConnectionData)
    → count p (xs ++ ys) ≡ count p xs + count p ys
unfolding count
count-append p [] ys = omega arith
count-append p (x ∷ xs) ys = omega (arith, count-append p xs ys)

count-half :
    (p : ConnectionData → Bool) (f : List Item)
    → count p (half true f) + count p (half false f) ≡ count p (map (λ (x : Item). x.1) f)
unfolding count half
count-half p [] = omega arith
count-half p (x ∷ xs) = elim (Bool-cases x.0) [
  | inl h ↦ ground (arith, h, count-half p xs)
  | inr h ↦ ground (arith, h, count-half p xs)
]

length-half : (f : List Item) → length (half true f) + length (half false f) ≡ length f
unfolding half
length-half [] = omega arith
length-half (x ∷ xs) = elim (Bool-cases x.0) [
  | inl h ↦ ground (arith, h, length-half xs)
  | inr h ↦ ground (arith, h, length-half xs)
]

half-HasUuid : (b : Bool) (f : List Item) → All HasUuid f → All (λ x. length x.id ≡ 16) (half b f)
unfolding half
half-HasUuid b [] all = tt
half-HasUuid b (x ∷ xs) all = choose (if b then x.0 else not x.0) (half-HasUuid b xs all.1)
  where
    choose :
        (t : Bool)
        → All (λ y. length y.id ≡ 16) (half b xs)
        → All (λ y. length y.id ≡ 16) (if t then x.1 ∷ half b xs else half b xs)
    choose true rest = (all.0, rest)
    choose false rest = rest

module _ (code : RequestTypes → ℕ) where
  write_connections-Adds :
      (xs : List ConnectionData) (o : Output)
      → All (λ x. length x.id ≡ 16) xs
      → Adds o
          (write_connections code xs o)
          (connections_bytes code xs)
          (length xs)
          (length xs * 237)
  unfolding write_connections write_connections_entry_to_buffer
  write_connections-Adds [] o all = none-Adds o refl (omega arith)
  write_connections-Adds (x ∷ xs) o all =
      then_Adds (put-Adds (connection_bytes code x) o) (write_connections-Adds xs _ all.1)
        (omega arith) (omega (arith, length-connection_bytes code x all.0))

  write_connection_fragments-Adds :
      (i : ℕ) (fs : List (List Item)) (o : Output)
      → All HasUuid (flatten fs)
      → Adds o
          (write_connection_fragments code i fs o)
          (fragments_bytes code i fs)
          (length (flatten fs) + length fs * 2)
          (length (flatten fs) * 237 + length fs * 16)
  unfolding write_connection_fragments flatten
  write_connection_fragments-Adds i [] o all = none-Adds o (omega arith) (omega arith)
  write_connection_fragments-Adds i (f ∷ fs) o all =
      let (here, there) = All-split HasUuid f (flatten fs) all in
      rw (length-half f) (
        then_Adds
          (then_Adds
            (then_Adds (then_Adds (put_bytes-Adds 8 i o) (put_bytes-Adds 8 (length f) _) refl refl)
              (write_connections-Adds (half true f) _ (half-HasUuid true f here)) refl refl)
            (write_connections-Adds (half false f) _ (half-HasUuid false f here)) refl refl)
          (write_connection_fragments-Adds (i + 1) fs _ there)
          (omega (arith, length-append f (flatten fs), length-half f))
          (omega (arith, length-append f (flatten fs), length-half f)))

  count-all_sent :
      (p : ConnectionData → Bool) (fs : List (List Item))
      → count p (all_sent fs) ≡ count p (map (λ (x : Item). x.1) (flatten fs))
  unfolding flatten
  count-all_sent p [] = refl
  count-all_sent p (f ∷ fs) =
      let both = count-append p (half true f) (half false f) in
      let halves = count-half p f in
      let rest = count-append p (sent f) (all_sent fs) in
      let ih = count-all_sent p fs in
      rw (map-append (λ (x : Item). x.1) f (flatten fs)) (
        omega (
          arith,
          both,
          halves,
          rest,
          ih,
          count-append p (map (λ (x : Item). x.1) f) (map (λ (x : Item). x.1) (flatten fs)),
        ))

  -- A fragment has one to eight connections.
  IsFragment-length :
      (fs : List (List Item))
      → All (IsFragment max_fragment_size connection_cost) fs
      → All (λ f. (0 < length f) × (length f ≤ 8)) fs
  IsFragment-length [] all = tt
  IsFragment-length (f ∷ fs) all =
      ((all.0.0, omega (arith, all.0.1, cost_eq f)), IsFragment-length fs all.1)
    where
      cost_eq : (xs : List Item) → total connection_cost xs ≡ length xs * 237
      cost_eq [] = omega arith
      cost_eq (x ∷ xs) = omega (arith, cost_eq xs)

  every_small : (xs : List Item) → All (λ x. connection_cost x ≤ max_fragment_size) xs
  every_small [] = tt
  every_small (x ∷ xs) = (omega arith, every_small xs)

  -- The response of connections is the status, the count of its fragments, and fragments of one
  -- to eight connections, in which every connection is as often as in the four maps; write_buffer
  -- is filled to its end and the batch to what was reserved; for ids of 16 bytes.
  pub connections_response_lem :
      (maps : ConnectionMap → List ConnectionData) (o : Output)
      → All HasUuid (all_connections maps)
      → (fs : List (List Item)) × (let o' = handle_fragmented_connections_response code maps o in
          (flatten o'.batch
            ≡ flatten o.batch
              ++ success_response ∷ (le_bytes 8 (length fs) ++ fragments_bytes code 1 fs))
          × (o'.offset ≡ o'.size)
          × (length o'.batch ≡ o'.reserved)
          × All (λ f. (0 < length f) × (length f ≤ 8)) fs
          × ((p : ConnectionData → Bool)
              → count p (all_sent fs) ≡ count p (map (λ (x : Item). x.1) (all_connections maps))))
  unfolding handle_fragmented_connections_response grow
  connections_response_lem maps o uuids = (
    fs,
    (
      all.shows,
      omega (arith, all.offset_eq, all.size_eq),
      omega (arith, all.segments_eq, all.reserved_eq),
      IsFragment-length fs
          (fragments-IsFragment max_fragment_size connection_cost items (every_small items)),
      λ p. count-all_sent p fs ∙ ap (λ (l : List Item). count p (map (λ (x : Item). x.1) l)) back,
    ),
  )
    where
      items : List Item
      items = all_connections maps

      fs : List (List Item)
      fs = fragments max_fragment_size connection_cost items

      back : flatten fs ≡ items
      back = flatten-fragments max_fragment_size connection_cost items

      start : Output
      start =
          grow (2 + (length items * 1 + length fs * 2)) (8 + (length items * 237 + length fs * 16))
            o

      all :
          Adds start
            (handle_fragmented_connections_response code maps o)
            ((success_response ∷ []) ++ (le_bytes 8 (length fs) ++ fragments_bytes code 1 fs))
            (2 + (length items * 1 + length fs * 2))
            (8 + (length items * 237 + length fs * 16))
      all =
          then_Adds (point-Adds _ start)
            (then_Adds (put_bytes-Adds 8 (length fs) _)
              (write_connection_fragments-Adds 1 fs _ (rw back uuids)) refl refl)
            (omega (arith, ap (λ (l : List Item). length l) back))
            (omega (arith, ap (λ (l : List Item). length l) back))
