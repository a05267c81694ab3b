-- ===== src/Storage/ListStorage.antt =====
-- A container that meets the laws: a list, the newest element first. It shows that the assumptions
-- can be met, and the examples run on it.
use mathlib.Core.Option
use throttr.Prelude.{
  List, [], ◌∷◌, Bool, true, false, not, none, some, ◌≡◌, refl, sym, map, bytes_eq, bytes_eq_iff,
  if◌then◌else◌, arith,
}
use throttr.Entry.{Key, EntryWrapper}
use throttr.Storage.{find_key, is_some, UniqueKeys, KeepsKey, HashedUnique}

-- Every element but those under a key.
unfoldable pub without : Key → List EntryWrapper → List EntryWrapper
without k [] = []
without k (e ∷ es) = let rest = without k es in if bytes_eq e.key k then rest else e ∷ rest

-- The elements that a search can find.
unfoldable pub visible : List EntryWrapper → List EntryWrapper
visible [] = []
visible (e ∷ es) = e ∷ without e.key (visible es)

unfoldable pub change : Key → (EntryWrapper → EntryWrapper) → List EntryWrapper → List EntryWrapper
change k f [] = []
change k f (e ∷ es) = let rest = change k f es in (if bytes_eq e.key k then f e else e) ∷ rest

pub find_key-without :
    (k j : Key) (es : List EntryWrapper)
    → find_key j (without k es) ≡ (if bytes_eq k j then none else find_key j es)
unfolding find_key without
find_key-without k j [] = ground arith
find_key-without k j (e ∷ es) =
    ground
      (arith, find_key-without k j es, bytes_eq_iff e.key k, bytes_eq_iff e.key j, bytes_eq_iff k j)

pub find_key-visible : (k : Key) (es : List EntryWrapper) → find_key k (visible es) ≡ find_key k es
unfolding find_key visible
find_key-visible k [] = refl
find_key-visible k (e ∷ es) =
    ground (arith, find_key-visible k es, find_key-without e.key k (visible es))

pub UniqueKeys-without :
    (k : Key) (es : List EntryWrapper) → UniqueKeys es → UniqueKeys (without k es)
unfolding without
UniqueKeys-without k [] u = tt
UniqueKeys-without k (e ∷ es) u =
    ground (arith, UniqueKeys-without k es u.1, find_key-without k e.key es)

pub UniqueKeys-visible : (es : List EntryWrapper) → UniqueKeys (visible es)
unfolding visible
UniqueKeys-visible [] = tt
UniqueKeys-visible (e ∷ es) = (
  ground (arith, find_key-without e.key e.key (visible es), bytes_eq_iff e.key e.key),
  UniqueKeys-without e.key (visible es) (UniqueKeys-visible es),
)

pub find_key-change :
    (k : Key) (f : EntryWrapper → EntryWrapper) (es : List EntryWrapper)
    → KeepsKey f
    → (j : Key)
    → find_key j (change k f es)
      ≡ (if bytes_eq k j then Option.map f (find_key j es) else find_key j es)
unfolding find_key change
find_key-change k f [] h j = ground arith
find_key-change k f (e ∷ es) h j = ground (
  arith,
  find_key-change k f es h j,
  h e,
  bytes_eq_iff e.key k,
  bytes_eq_iff e.key j,
  bytes_eq_iff k j,
)

without-map :
    (f : EntryWrapper → EntryWrapper) (k : Key) (es : List EntryWrapper)
    → KeepsKey f
    → without k (map f es) ≡ map f (without k es)
unfolding without
without-map f k [] h = refl
without-map f k (e ∷ es) h = ground (arith, without-map f k es h, h e)

pub visible-map :
    (f : EntryWrapper → EntryWrapper) (es : List EntryWrapper)
    → KeepsKey f
    → visible (map f es) ≡ map f (visible es)
unfolding visible
visible-map f [] h = refl
visible-map f (e ∷ es) h =
    ground (arith, visible-map f es h, h e, without-map f e.key (visible es) h)

unfoldable pub insert_new : List EntryWrapper → EntryWrapper → List EntryWrapper × Bool
insert_new es e = if is_some (find_key e.key es) then (es, false) else (e ∷ es, true)

pub insert_new_inserts :
    (es : List EntryWrapper) (e : EntryWrapper)
    → (insert_new es e).1 ≡ not (is_some (find_key e.key es))
unfolding insert_new
insert_new_inserts es e = ground arith

pub find_key-insert_new :
    (es : List EntryWrapper) (e : EntryWrapper) (k : Key)
    → find_key k (insert_new es e).0 ≡ (
        if is_some (find_key e.key es)
        then find_key k es
        else if bytes_eq e.key k
        then some e
        else find_key k es)
unfolding insert_new find_key
find_key-insert_new es e k = ground arith

unfoldable pub list_storage : HashedUnique (List EntryWrapper)
unfolding find_key without visible change insert_new
list_storage = record {
  items = visible;
  find = λ s k. find_key k s;
  emplace = insert_new;
  modify = λ s k f. change k f s;
  erase = λ s k. without k s;
  for_each = λ s f. map f s;
  items_unique = UniqueKeys-visible;
  find-items = λ s k. sym (find_key-visible k s);
  emplace_inserts = insert_new_inserts;
  find-emplace = find_key-insert_new;
  find-modify = λ s k f h j. find_key-change k f s h j;
  find-erase = λ s k j. find_key-without k j s;
  items-for_each = λ s f h. visible-map f s h;
}
