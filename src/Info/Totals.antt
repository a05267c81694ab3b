-- ===== src/Info/Totals.antt =====
-- The response of info: its room, and its totals of the storage.
use mathlib.Core.List.{append_assoc, flatten}
use throttr.Prelude.{
  ℕ, zero, suc, ◌+◌, ◌-◌, ◌*◌, ◌^◌, ◌<◌, List, [], ◌∷◌, ◌++◌, ◌≡◌, inl, inr, refl, sym, ◌∙◌, ap,
  arith, length, length-append, length-take, length-replicate, take, drop, All, Bool-cases,
  replicate,
}
use throttr.Prelude.Bytes.{le_bytes, le_value, le_value-le_bytes, take-le_bytes, drop-le_bytes}
use throttr.Protocol.{u64_mod, RequestTypes}
use throttr.Entry.{EntryWrapper, is_counter}
use throttr.Storage.{HashedUnique}
use throttr.State.{success_response}
use throttr.Subscriptions.{Subscription}
use throttr.Metrics.{Metric, MetricsState}
use throttr.Reports.{word_bytes, Output, grow, put}
use throttr.Reports.Adds.{Adds, none-Adds, put-Adds, put_bytes-Adds, point-Adds, then_Adds}
use throttr.Info.{
  per_type, reported_types, Stored, count_one, count_stored, put_words, version_bytes, info_words,
  info_command,
}

put_words-Adds :
    (vs : List ℕ) (o : Output) → Adds o (put_words vs o) (word_bytes vs) (length vs) (length vs * 8)
unfolding put_words
put_words-Adds [] o = none-Adds o refl (omega arith)
put_words-Adds (v ∷ vs) o =
    then_Adds (put_bytes-Adds 8 v o) (put_words-Adds vs (put (le_bytes 8 v) o)) (omega arith)
      (omega arith)

-- What a client reads: so many words.
unfoldable pub read_words : ℕ → List ℕ → List ℕ
read_words zero bs = []
read_words (suc n) bs = le_value (take 8 bs) ∷ read_words n (drop 8 bs)

read_words-word_bytes :
    (vs rest : List ℕ)
    → All (λ v. v < 256 ^ 8) vs
    → read_words (length vs) (word_bytes vs ++ rest) ≡ vs
unfolding read_words
read_words-word_bytes [] rest small = refl
read_words-word_bytes (v ∷ vs) rest small =
    rw
      (
        append_assoc (le_bytes 8 v) (word_bytes vs) rest,
        take-le_bytes 8 v (word_bytes vs ++ rest),
        drop-le_bytes 8 v (word_bytes vs ++ rest),
        le_value-le_bytes 8 v small.0,
        read_words-word_bytes vs rest small.1,
      )
      refl

length-version_bytes : (version : List ℕ) → length (version_bytes version) ≡ 16
unfolding version_bytes
length-version_bytes version = omega (
  arith,
  length-append (take 16 version) (replicate (16 - length version) 0),
  length-take 16 version,
  length-replicate {A = ℕ} (16 - length version) 0,
)

length-per_type :
    (code : RequestTypes → ℕ) (ms : List Metric) (ts : List RequestTypes)
    → length (per_type code ms ts) ≡ length ts * 2
unfolding per_type
length-per_type code ms [] = omega arith
length-per_type code ms (t ∷ ts) = omega (arith, length-per_type code ms ts)

module _ {S : Type 0} (c : HashedUnique S) where
  length-info_words :
      (w : ℕ) (code : RequestTypes → ℕ) (existing_keys : List Subscription → ℕ) (now started_at : ℕ)
      (st : MetricsState S) (subscriptions : List Subscription)
      → length (info_words c w code existing_keys now started_at st subscriptions) ≡ 52
  unfolding info_words
  length-info_words w code existing_keys now started_at st subscriptions = omega (
    arith,
    length-append (per_type code st.commands reported_types) _,
    length-per_type code st.commands reported_types,
  )

  -- A client that reads the response of info gets the status and the 52 words of the totals;
  -- write_buffer is filled to its end and the batch to what was reserved; for a batch that was
  -- empty and words that fit 64 bits.
  pub info_command_lem :
      (w : ℕ) (code : RequestTypes → ℕ) (existing_keys : List Subscription → ℕ) (now started_at : ℕ)
      (version : List ℕ) (st : MetricsState S) (subscriptions : List Subscription) (o : Output)
      → o.batch ≡ []
      → let words = info_words c w code existing_keys now started_at st subscriptions in
        let o' = info_command c w code existing_keys now started_at version st subscriptions o in
        All (λ v. v < 256 ^ 8) words
        → (take 1 (flatten o'.batch) ≡ success_response ∷ [])
          × (read_words 52 (drop 1 (flatten o'.batch)) ≡ words)
          × (o'.offset ≡ o'.size)
          × (length o'.batch ≡ o'.reserved)
  unfolding info_command grow flatten
  info_command_lem w code existing_keys now started_at version st subscriptions o fresh small = (
    ap (take 1) shown,
    ap (λ (b : List ℕ). read_words 52 (drop 1 b)) shown ∙ read,
    omega (arith, all.offset_eq, all.size_eq),
    omega (arith, all.segments_eq, all.reserved_eq),
  )
    where
      words : List ℕ
      words = info_words c w code existing_keys now started_at st subscriptions

      count : length words ≡ 52
      count = length-info_words w code existing_keys now started_at st subscriptions

      start : Output
      start = grow 54 432 o

      all :
          Adds start
            (info_command c w code existing_keys now started_at version st subscriptions o)
            (((success_response ∷ []) ++ word_bytes words) ++ version_bytes version)
            54
            432
      all =
          then_Adds (then_Adds (point-Adds _ start) (put_words-Adds words _) refl refl)
            (put-Adds (version_bytes version) _) (omega (arith, count))
            (omega (arith, count, length-version_bytes version))

      shown :
          flatten
            (info_command c w code existing_keys now started_at version st subscriptions o).batch
          ≡ ((success_response ∷ []) ++ word_bytes words) ++ version_bytes version
      shown =
          all.shows
          ∙ ap
              (λ (b : List (List ℕ)).
                flatten b
                ++ (((success_response ∷ []) ++ word_bytes words) ++ version_bytes version))
              fresh

      read : read_words 52 (word_bytes words ++ version_bytes version) ≡ words
      read =
          ap (λ n. read_words n (word_bytes words ++ version_bytes version)) (sym count)
          ∙ read_words-word_bytes words (version_bytes version) small

count_one_lem :
    (w : ℕ) (x : EntryWrapper) (t : Stored)
    → t.keys + 1 < u64_mod
    → t.keys ≡ t.counters + t.buffers
    → ((count_one w x t).keys ≡ t.keys + 1)
      × ((count_one w x t).counters + (count_one w x t).buffers ≡ t.counters + t.buffers + 1)
unfolding count_one
count_one_lem w x t small e = elim (Bool-cases (is_counter x.entry.type)) [
  | inl h ↦ (omega arith, rw h (omega arith))
  | inr h ↦ (omega arith, rw h (omega arith))
]

-- Every key is counted once, as a counter or as a buffer; for counts that started in balance and stay
-- below 2^64.
pub count_stored_lem :
    (w : ℕ) (es : List EntryWrapper) (t : Stored)
    → t.keys ≡ t.counters + t.buffers
    → t.keys + length es < u64_mod
    → ((count_stored w es t).keys ≡ t.keys + length es)
      × ((count_stored w es t).counters + (count_stored w es t).buffers ≡ t.keys + length es)
unfolding count_stored
count_stored_lem w [] t e small = (omega arith, omega (arith, e))
count_stored_lem w (x ∷ xs) t e small =
    let one = count_one_lem w x t (omega arith) e in
    let ih = count_stored_lem w xs (count_one w x t) (omega (arith, one, e)) (omega (arith, one)) in
    (omega (arith, ih.0, one), omega (arith, ih.1, one))
