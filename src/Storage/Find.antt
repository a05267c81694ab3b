-- ===== src/Storage/Find.antt =====
-- Searching a list of elements by key.
use mathlib.Core.Option
use mathlib.Core.Path.{subst}
use throttr.Prelude.{
  List, [], ◌∷◌, false, none, some, ◌≡◌, refl, map, bytes_eq, bytes_eq_iff, arith, All, Bool-cases,
  inl, inr, bytes_eq_refl, ap,
}
use throttr.Entry.{Key, EntryWrapper}
use throttr.Storage.{find_key, UniqueKeys, KeepsKey}

pub key-find_key :
    (k : Key) (es : List EntryWrapper) (e : EntryWrapper) → find_key k es ≡ some e → e.key ≡ k
unfolding find_key
key-find_key k [] e h = cc
key-find_key k (x ∷ es) e h = ground (arith, bytes_eq_iff x.key k, key-find_key k es e)

pub find_key-map :
    (f : EntryWrapper → EntryWrapper)
    → KeepsKey f
    → (k : Key) (es : List EntryWrapper) → find_key k (map f es) ≡ Option.map f (find_key k es)
unfolding find_key
find_key-map f h k [] = refl
find_key-map f h k (e ∷ es) = ground (arith, find_key-map f h k es, h e)

-- What holds of every element holds of the one that is found.
pub find_key-All :
    (P : EntryWrapper → Type 0) (k : Key) (es : List EntryWrapper) (e : EntryWrapper)
    → All P es
    → find_key k es ≡ some e
    → P e
unfolding find_key
find_key-All P k [] e all h = absurd (cc)
find_key-All P k (x ∷ es) e all h = elim (Bool-cases (bytes_eq x.key k)) [
  | inl hit ↦ let same : x ≡ e = ground arith in subst P same all.0
  | inr miss ↦ find_key-All P k es e all.1 (rw miss at h)
]

-- A list without a key is found not to have it, whatever was found before.
find_key-differs :
    (k j : Key) (es : List EntryWrapper) (e : EntryWrapper)
    → find_key k es ≡ none
    → find_key j es ≡ some e
    → bytes_eq k j ≡ false
find_key-differs k j es e gone found = elim (Bool-cases (bytes_eq k j)) [
  | inl same ↦ cc (ap (λ (x : Key). find_key x es) ((bytes_eq_iff k j).0 same))
  | inr differ ↦ differ
]

-- And the other way round: what holds of all that can be found holds of every element.
pub All-find_key :
    (P : EntryWrapper → Type 0) (es : List EntryWrapper)
    → UniqueKeys es
    → ((k : Key) (e : EntryWrapper) → find_key k es ≡ some e → P e)
    → All P es
unfolding find_key
All-find_key P [] u h = tt
All-find_key P (x ∷ es) u h = (
  h x.key x (rw (bytes_eq_refl x.key)),
  All-find_key P es u.1 (λ k e found. h k e (rw (find_key-differs x.key k es e u.0 found) found)),
)
