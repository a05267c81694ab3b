-- ===== src/Storage.antt =====
-- src/include/throttr/storage.hpp: the storage is a `boost::multi_index` container with one hashed
-- index of unique keys. The container is not part of the repository: it is a parameter, a type of
-- states with the operations that the code calls and the laws that its documentation gives. The
-- order of iteration is that of `items`, and an insertion may change it in any way.
-- An iterator is known by its element's key.
pub mod ListStorage
pub mod Find
pub mod Views
use mathlib.Core.Option
use throttr.Prelude.{
  ℕ, List, [], ◌∷◌, Bool, true, false, not, Option, none, some, ◌≡◌, map, bytes_eq, if◌then◌else◌,
}
use throttr.Entry.{Key, EntryWrapper}

abbrev pub is_some {ℓ} : {A : Type ℓ} → Option A → Bool
is_some none = false
is_some (some a) = true

-- The first element with a key.
unfoldable pub find_key : Key → List EntryWrapper → Option EntryWrapper
find_key k [] = none
find_key k (e ∷ es) = if bytes_eq e.key k then some e else find_key k es

abbrev pub UniqueKeys : List EntryWrapper → Type 0
UniqueKeys [] = Unit
UniqueKeys (e ∷ es) = (find_key e.key es ≡ none) × UniqueKeys es

abbrev pub KeepsKey : (EntryWrapper → EntryWrapper) → Type 0
KeepsKey f = (e : EntryWrapper) → (f e).key ≡ e.key

pub record HashedUnique (S : Type 0) : Type 0 where
  pub items : S → List EntryWrapper
  pub find : S → Key → Option EntryWrapper
  pub emplace : S → EntryWrapper → S × Bool
  pub modify : S → Key → (EntryWrapper → EntryWrapper) → S
  pub erase : S → Key → S
  -- A loop over the index that writes to each element through a pointer that it holds.
  pub for_each : S → (EntryWrapper → EntryWrapper) → S
  pub items_unique : (s : S) → UniqueKeys (items s)
  pub find-items : (s : S) (k : Key) → find s k ≡ find_key k (items s)
  pub emplace_inserts : (s : S) (e : EntryWrapper) → (emplace s e).1 ≡ not (is_some (find s e.key))
  pub find-emplace :
      (s : S) (e : EntryWrapper) (k : Key)
      → find (emplace s e).0 k ≡ (
          if is_some (find s e.key)
          then find s k
          else if bytes_eq e.key k
          then some e
          else find s k)
  pub find-modify :
      (s : S) (k : Key) (f : EntryWrapper → EntryWrapper)
      → KeepsKey f
      → (j : Key)
      → find (modify s k f) j ≡ (if bytes_eq k j then Option.map f (find s j) else find s j)
  pub find-erase :
      (s : S) (k j : Key) → find (erase s k) j ≡ (if bytes_eq k j then none else find s j)
  pub items-for_each :
      (s : S) (f : EntryWrapper → EntryWrapper)
      → KeepsKey f
      → items (for_each s f) ≡ map f (items s)
