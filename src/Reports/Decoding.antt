-- ===== src/Reports/Decoding.antt =====
-- A client that reads a response of list or of stats: what it gets are the live entries.
use mathlib.Core.List.{append_assoc, append-nil, flatten, map-append}
use throttr.Prelude.{
  ℕ, zero, suc, ◌+◌, ◌^◌, ◌≤◌, ◌<◌, List, [], ◌∷◌, ◌++◌, ◌≡◌, refl, sym, ◌∙◌, ap, arith, length,
  length-append, map, take, drop, take-length, drop-length, All,
}
use throttr.Prelude.Bytes.{le_bytes, le_value, le_value-le_bytes, take-le_bytes, drop-le_bytes}
use throttr.Entry.{Key, EntryWrapper}
use throttr.Reports.{entry_cost}
use throttr.Reports.Fragments.{
  fragments, flatten-fragments, fragments-IsFragment, IsFragment, All-split,
}
use throttr.Reports.Room.{each, key_of, fragment_bytes, fragments_bytes, response_bytes}

module _ {D : Type 0} (read : List ℕ → (ℕ × D) × List ℕ) where
  -- The entries of a fragment, each with the length of its key.
  unfoldable pub decode_entries : ℕ → List ℕ → List (ℕ × D) × List ℕ
  decode_entries zero bs = ([], bs)
  decode_entries (suc n) bs =
      let (x, r) = read bs in let (xs, r') = decode_entries n r in (x ∷ xs, r')

  -- The keys behind them.
  unfoldable pub decode_keys : List (ℕ × D) → List ℕ → List (Key × D) × List ℕ
  decode_keys [] bs = ([], bs)
  decode_keys (x ∷ xs) bs =
      let (rows, r) = decode_keys xs (drop x.0 bs) in ((take x.0 bs, x.1) ∷ rows, r)

  -- So many fragments: an index, a count, the entries and the keys.
  unfoldable pub decode_fragments : ℕ → List ℕ → List (Key × D)
  decode_fragments zero bs = []
  decode_fragments (suc n) bs =
      let behind = drop 8 bs in
      let (xs, r) = decode_entries (le_value (take 8 behind)) (drop 8 behind) in
      let (rows, r') = decode_keys xs r in rows ++ decode_fragments n r'

  -- A response: its status, the count of its fragments, and these.
  unfoldable pub decode : List ℕ → List (Key × D)
  decode bs = let behind = drop 1 bs in decode_fragments (le_value (take 8 behind)) (drop 8 behind)

-- What is read of the bytes of an entry is the length of its key and its data, which a read of the
-- entry does not change.
pub record IsReader {D : Type 0} (read : List ℕ → (ℕ × D) × List ℕ) (bytes : EntryWrapper → List ℕ)
    (Fits : EntryWrapper → Type 0) (data_of : EntryWrapper → D) : Type 0 where
  pub reads :
      (e : EntryWrapper) (rest : List ℕ)
      → Fits e
      → read (bytes e ++ rest) ≡ ((length e.key, data_of e), rest)

module _ {D : Type 0} {read : List ℕ → (ℕ × D) × List ℕ} {bytes : EntryWrapper → List ℕ}
    {Fits : EntryWrapper → Type 0} {data_of : EntryWrapper → D}
    (reader : IsReader read bytes Fits data_of) where
  abbrev measured : EntryWrapper → ℕ × D
  measured e = (length e.key, data_of e)

  abbrev pub row : EntryWrapper → Key × D
  row e = (e.key, data_of e)

  decode_entries_lem :
      (es : List EntryWrapper) (rest : List ℕ)
      → All Fits es
      → decode_entries read (length es) (each bytes es ++ rest) ≡ (map measured es, rest)
  unfolding decode_entries
  decode_entries_lem [] rest fits = refl
  decode_entries_lem (e ∷ es) rest fits =
      rw
        (
          append_assoc (bytes e) (each bytes es) rest,
          reader.reads e (each bytes es ++ rest) fits.0,
          decode_entries_lem es rest fits.1,
        )
        refl

  decode_keys_lem :
      (es : List EntryWrapper) (rest : List ℕ)
      → decode_keys read (map measured es) (each key_of es ++ rest) ≡ (map row es, rest)
  unfolding decode_keys
  decode_keys_lem [] rest = refl
  decode_keys_lem (e ∷ es) rest =
      rw
        (
          append_assoc e.key (each key_of es) rest,
          drop-length e.key (each key_of es ++ rest),
          take-length e.key (each key_of es ++ rest),
          decode_keys_lem es rest,
        )
        refl

  -- The bytes of a fragment and what is behind them, cut where the decoder cuts.
  cut_fragment :
      (i : ℕ) (f : List EntryWrapper) (rest : List ℕ)
      → fragment_bytes bytes i f ++ rest
        ≡ le_bytes 8 (i + 1) ++ (le_bytes 8 (length f) ++ (each bytes f ++ (each key_of f ++ rest)))
  cut_fragment i f rest =
      append_assoc _ (each key_of f) rest
      ∙ append_assoc _ (each bytes f) (each key_of f ++ rest)
      ∙ append_assoc (le_bytes 8 (i + 1)) (le_bytes 8 (length f)) _

  decode_fragments_lem :
      (i : ℕ) (fs : List (List EntryWrapper)) (rest : List ℕ)
      → All Fits (flatten fs)
      → length (flatten fs) < 256 ^ 8
      → decode_fragments read (length fs) (fragments_bytes bytes i fs ++ rest)
        ≡ map row (flatten fs)
  unfolding decode_fragments flatten
  decode_fragments_lem i [] rest fits few = refl
  decode_fragments_lem i (f ∷ fs) rest fits few =
      let (here, there) = All-split Fits f (flatten fs) fits in
      let behind = fragments_bytes bytes (i + 1) fs ++ rest in
      let entries = each bytes f ++ (each key_of f ++ behind) in
      rw
        (
          append_assoc (fragment_bytes bytes i f) (fragments_bytes bytes (i + 1) fs) rest,
          cut_fragment i f behind,
          drop-le_bytes 8 (i + 1) (le_bytes 8 (length f) ++ entries),
          take-le_bytes 8 (length f) entries,
          drop-le_bytes 8 (length f) entries,
          le_value-le_bytes 8 (length f) (omega (arith, few, length-append f (flatten fs))),
          decode_entries_lem f (each key_of f ++ behind) here,
          decode_keys_lem f behind,
          decode_fragments_lem (i + 1) fs rest there
              (omega (arith, few, length-append f (flatten fs))),
          map-append row f (flatten fs),
        )
        refl

  length_fragments :
      (limit : ℕ) (cost : EntryWrapper → ℕ) (fs : List (List EntryWrapper))
      → All (IsFragment limit cost) fs
      → length fs ≤ length (flatten fs)
  unfolding flatten
  length_fragments limit cost [] h = omega arith
  length_fragments limit cost (f ∷ fs) h =
      omega (arith, h.0.0, length_fragments limit cost fs h.1, length-append f (flatten fs))

  pub decode-response_bytes :
      (limit : ℕ) (measure : ℕ × ℕ) (items : List EntryWrapper)
      → All Fits items
      → All (λ e. entry_cost measure e ≤ limit) items
      → length items < 256 ^ 8
      → decode read (response_bytes bytes measure limit items) ≡ map row items
  unfolding decode
  decode-response_bytes limit measure items fits small few =
      rw
        (
          take-le_bytes 8 (length fs) rest,
          drop-le_bytes 8 (length fs) rest,
          le_value-le_bytes 8 (length fs) (omega (arith, fewer)),
        )
        (ap (decode_fragments read (length fs)) (sym (append-nil rest))
          ∙ decode_fragments_lem 0 fs [] (rw back fits) (rw back few)
          ∙ ap (map row) back)
    where
      fs : List (List EntryWrapper)
      fs = fragments limit (entry_cost measure) items

      rest : List ℕ
      rest = fragments_bytes bytes 0 fs

      back : flatten fs ≡ items
      back = flatten-fragments limit (entry_cost measure) items

      fewer : length fs < 256 ^ 8
      fewer =
          let fragments_le =
            length_fragments limit (entry_cost measure) fs
              (fragments-IsFragment limit (entry_cost measure) items small) in
          omega (arith, fragments_le, ap (λ (l : List EntryWrapper). length l) back, few)
