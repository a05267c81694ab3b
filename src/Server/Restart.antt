-- ===== src/Server/Restart.antt =====
-- A server that is stopped and started again: what its commands have built can be dumped, and what
-- the restore makes of it.
use throttr.Prelude.{
  ℕ, ◌^◌, ◌<◌, List, [], ◌∷◌, Bool, true, false, Option, none, some, ◌≡◌, inl, inr, refl, sym, ◌∙◌,
  ap, arith, All, length, bytes_eq, bytes_eq_iff, Bool-cases,
}
use throttr.Protocol.{EntryTypes, counter, raw}
use throttr.Entry.{Key, Entry, EntryWrapper, make_entry}
use throttr.Storage.{HashedUnique, find_key, UniqueKeys}
use throttr.Storage.Find.{All-find_key, find_key-All}
use throttr.Storage.Views.{view, contents}
use throttr.State.{State}
use throttr.Serializer.{Codes, zeros, dump_to_file, restore_from_file}
use throttr.Serializer.Parsing.{IsDumpable, IsMetrics}
use throttr.Serializer.Restoring.{blank, restore_from_file-dump_to_file}
use throttr.Server.{Reachable}
use throttr.Server.Typing.{HoldsTyped, IsTyped, Reachable-HoldsTyped}

-- Types whose codes are bytes that are read back.
pub record IsCoded (codes : Codes) (t : EntryTypes) : Type 0 where
  pub type_coded : codes.entry_type (codes.entry_code t) ≡ t
  pub type_byte : codes.entry_code t < 256

-- A key, a unit and counters that fit their fields.
pub record FitsDump (codes : Codes) (e : EntryWrapper) : Type 0 where
  pub key_fits : length e.key < 2 ^ 16
  pub unit_coded : codes.ttl_type (codes.ttl_code e.entry.ttl_type) ≡ e.entry.ttl_type
  pub unit_byte : codes.ttl_code e.entry.ttl_type < 256
  pub metrics_fit : IsMetrics e.metrics

-- What is left of the contents of a key.
abbrev pub after_restart : ℕ → Option (Entry × Bool) → Option (Entry × Bool)
after_restart w none = none
after_restart w (some (e, true)) = none
after_restart w (some (e, false)) =
    some (make_entry w e.type (zeros w) e.ttl_type e.expires_at, false)

blank-find_key :
    (w : ℕ) (k : Key) (es : List EntryWrapper) → find_key k es ≡ none → blank w k es ≡ none
unfolding blank find_key
blank-find_key w k [] h = refl
blank-find_key w k (e ∷ es) h = elim (Bool-cases (bytes_eq e.key k)) [
  | inl hit ↦ absurd (ground (arith, hit, h))
  | inr miss ↦ ground (arith, miss, blank-find_key w k es (rw miss at h))
]

blank-after_restart :
    (w : ℕ) (k : Key) (es : List EntryWrapper)
    → UniqueKeys es
    → blank w k es ≡ after_restart w (contents (find_key k es))
unfolding blank find_key
blank-after_restart w k [] unique = refl
blank-after_restart w k (e ∷ es) unique = elim (Bool-cases (bytes_eq e.key k)) [
  | inl hit ↦ elim (Bool-cases e.expired) [
    | inl marked ↦
        let same : e.key ≡ k = (bytes_eq_iff e.key k).0 hit in
        let gone : blank w k es ≡ none = blank-find_key w k es (rw same at unique.0) in
        rw (hit, marked) gone
    | inr live ↦ rw (hit, live) refl
  ]
  | inr miss ↦ ground (arith, miss, blank-after_restart w k es unique.1)
]

-- An entry that fits, in a storage whose entries are typed, can be dumped.
typed-IsDumpable :
    (w : ℕ) (codes : Codes) (e : EntryWrapper)
    → IsCoded codes counter
    → IsCoded codes raw
    → FitsDump codes e
    → IsTyped w e.entry
    → IsDumpable w codes e
typed-IsDumpable w codes e counters raws fits typed = elim typed.1 [
  | inl h ↦ record {
    key_fits = fits.key_fits;
    point_fits = typed.0;
    type_coded = rw h.0 counters.type_coded;
    type_byte = rw h.0 counters.type_byte;
    unit_coded = fits.unit_coded;
    unit_byte = fits.unit_byte;
    metrics_fit = fits.metrics_fit;
    value_fits = rw h.0 (h.1, h.2);
  }
  | inr h ↦ record {
    key_fits = fits.key_fits;
    point_fits = typed.0;
    type_coded = rw h.0 raws.type_coded;
    type_byte = rw h.0 raws.type_byte;
    unit_coded = fits.unit_coded;
    unit_byte = fits.unit_byte;
    metrics_fit = fits.metrics_fit;
    value_fits = rw h.0 (h.2, h.1);
  }
]

module _ {S : Type 0} (c : HashedUnique S) (w : ℕ) (codes : Codes) where
  holds-IsTyped :
      (s : S) (k : Key) (e : EntryWrapper)
      → HoldsTyped w (view c s k)
      → find_key k (c.items s) ≡ some e
      → IsTyped w e.entry
  unfolding view
  holds-IsTyped s k e typed found = rw (c.find-items s k, found) at typed

  items-IsDumpable :
      (st : State S)
      → Reachable c w st
      → IsCoded codes counter
      → IsCoded codes raw
      → All (FitsDump codes) (c.items st.storage)
      → All (IsDumpable w codes) (c.items st.storage)
  items-IsDumpable st reached counters raws fits =
      All-find_key (IsDumpable w codes) (c.items st.storage) (c.items_unique st.storage)
        (λ k e found.
          typed-IsDumpable w codes e counters raws
            (find_key-All (FitsDump codes) k (c.items st.storage) e fits found)
            (holds-IsTyped st.storage k e (Reachable-HoldsTyped c w st reached k) found))

  -- What a server holds after any commands and passes of the collector since it started empty can
  -- be dumped, and a restore into an empty storage succeeds; a key then holds an entry exactly
  -- when it held a live one, of the same type, unit and expiration point, and with a value of
  -- zeros; for types, units, keys and counters that fit their fields, fewer than 2^32 entries,
  -- and values of less than 256 bytes.
  pub restart_lem :
      (st : State S) (s : S)
      → Reachable c w st
      → IsCoded codes counter
      → IsCoded codes raw
      → All (FitsDump codes) (c.items st.storage)
      → length (c.items st.storage) < 2 ^ 32
      → w < 256
      → ((k : Key) → c.find s k ≡ none)
      → (s' : S) × (restore_from_file w codes c s (some (dump_to_file w codes (c.items st.storage)))
          ≡ inr s')
        × ((k : Key) → view c s' k ≡ after_restart w (view c st.storage k))
  unfolding view
  restart_lem st s reached counters raws fits many narrow empty =
      let (s', restored, seen) =
        restore_from_file-dump_to_file c w codes s (c.items st.storage)
          (items-IsDumpable st reached counters raws fits) many narrow in
      (
        s',
        restored,
        λ k.
            seen k
            ∙ rw (empty k)
                (blank-after_restart w k (c.items st.storage) (c.items_unique st.storage))
            ∙ ap (λ (o : Option EntryWrapper). after_restart w (contents o))
                (sym (c.find-items st.storage k)),
      )
