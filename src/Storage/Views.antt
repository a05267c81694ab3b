-- ===== src/Storage/Views.antt =====
-- What a storage holds, but for the read and write counters of its elements.
use mathlib.Core.Option
use throttr.Prelude.{Bool, Option, none, some, ◌≡◌, refl, arith}
use throttr.Entry.{Key, Entry, EntryWrapper, add_read}
use throttr.Storage.{HashedUnique, KeepsKey}

abbrev pub content : EntryWrapper → Entry × Bool
content e = (e.entry, e.expired)

abbrev pub contents : Option EntryWrapper → Option (Entry × Bool)
contents none = none
contents (some e) = some (content e)

-- A change that only writes counters.
abbrev pub KeepsContent : (EntryWrapper → EntryWrapper) → Type 0
KeepsContent f = (e : EntryWrapper) → content (f e) ≡ content e

contents-map :
    (f : EntryWrapper → EntryWrapper) (o : Option EntryWrapper)
    → KeepsContent f
    → contents (Option.map f o) ≡ contents o
contents-map f none h = refl
contents-map f (some e) h = ground (arith, h e)

module _ {S : Type 0} (c : HashedUnique S) where
  unfoldable pub view : S → Key → Option (Entry × Bool)
  view s k = contents (c.find s k)

  pub view-modify_counters :
      (s : S) (k : Key) (f : EntryWrapper → EntryWrapper)
      → KeepsKey f
      → KeepsContent f
      → (j : Key) → view (c.modify s k f) j ≡ view s j
  unfolding view
  view-modify_counters s k f hk hc j =
      ground (arith, c.find-modify s k f hk j, contents-map f (c.find s j) hc)

  pub view-add_read : (s : S) (k j : Key) → view (c.modify s k add_read) j ≡ view s j
  view-add_read s k j = view-modify_counters s k add_read (λ e. refl) (λ e. refl) j
