-- ===== src/Collector/Next.antt =====
-- The next expiration: the least candidate among what a pass leaves.
use throttr.Prelude.{
  ℕ, ◌≤◌, ◌<◌, List, [], ◌∷◌, Bool, false, not, ◌&&◌, Option, none, some, ◌≡◌, refl, sym, ◌∙◌, ap,
  arith, ltb, min, All, if◌then◌else◌,
}
use throttr.Entry.{Key, Entry, EntryWrapper}
use throttr.Storage.{HashedUnique}
use throttr.Storage.Find.{find_key-All, All-find_key}
use throttr.Storage.Views.{view, contents}
use throttr.Collector.{candidate, next_candidate, next_live, next_expiration, collect, u64_max}
use throttr.Collector.Passes.{view-collect}

abbrev due : EntryWrapper → ℕ
due e = candidate e.entry.expires_at e.expired

next_candidate-le_start : (items : List EntryWrapper) (next : ℕ) → next_candidate items next ≤ next
unfolding next_candidate
next_candidate-le_start [] next = omega arith
next_candidate-le_start (e ∷ items) next =
    omega (arith, next_candidate-le_start items (min next (due e)))

next_candidate-le :
    (items : List EntryWrapper) (next : ℕ) → All (λ e. next_candidate items next ≤ due e) items
unfolding next_candidate
next_candidate-le [] next = tt
next_candidate-le (e ∷ items) next = (
  omega (arith, next_candidate-le_start items (min next (due e))),
  next_candidate-le items (min next (due e)),
)

-- A bound of all candidates and of the start is a bound of the result.
le-next_candidate :
    (b : ℕ) (items : List EntryWrapper) (next : ℕ)
    → b ≤ next
    → All (λ e. b ≤ due e) items
    → b ≤ next_candidate items next
unfolding next_candidate
le-next_candidate b [] next h all = h
le-next_candidate b (e ∷ items) next h all =
    le-next_candidate b items (min next (due e)) (omega (arith, all.0)) all.1

le-next_live :
    (b now : ℕ) (items : List EntryWrapper) (next : ℕ)
    → b ≤ next
    → All (λ e. (e.expired ≡ false) → (now < e.entry.expires_at) → b ≤ e.entry.expires_at) items
    → b ≤ next_live now items next
unfolding next_live
le-next_live b now [] next h all = h
le-next_live b now (e ∷ items) next h all =
    le-next_live b now items
      (if not e.expired && ltb now e.entry.expires_at then min next e.entry.expires_at else next)
      (ground (arith, all.0)) all.1

contents-eq_some :
    (o : Option EntryWrapper) (e : Entry) (expired : Bool)
    → contents o ≡ some (e, expired)
    → (x : EntryWrapper) × (o ≡ some x) × (x.entry ≡ e) × (x.expired ≡ expired)
contents-eq_some none e expired h = absurd (cc)
contents-eq_some (some x) e expired h = (x, refl, ground arith, ground arith)

module _ {S : Type 0} (c : HashedUnique S) where
  -- The next look of the collector comes no later than any entry that is left wants it.
  pub next_expiration-le :
      (now : ℕ) (s : S) (k : Key) (e : Entry) (expired : Bool)
      → view c (collect c now s) k ≡ some (e, expired)
      → next_expiration c now s ≤ candidate e.expires_at expired
  unfolding next_expiration view
  next_expiration-le now s k e expired h =
      let s' : S = collect c now s in
      let start : ℕ = next_live now (c.items s) u64_max in
      let (x, found, same, mark) = contents-eq_some (c.find s' k) e expired h in
      let bound : next_expiration c now s ≤ due x =
        find_key-All (λ y. next_candidate (c.items s') start ≤ due y) k (c.items s') x
          (next_candidate-le (c.items s') start) (sym (c.find-items s' k) ∙ found) in
      ground (arith, bound)

  pub view-collect_live :
      (now : ℕ) (s : S) (k : Key) (e : Entry)
      → view c s k ≡ some (e, false)
      → now < e.expires_at
      → view c (collect c now s) k ≡ some (e, false)
  view-collect_live now s k e held later = ground (arith, view-collect c now s k)

  -- And no sooner than a bound of what all of them want.
  pub le-next_expiration :
      (b now : ℕ) (s : S)
      → b ≤ u64_max
      → ((k : Key) (e : Entry) (expired : Bool)
          → view c (collect c now s) k ≡ some (e, expired)
          → b ≤ candidate e.expires_at expired)
      → b ≤ next_expiration c now s
  unfolding next_expiration view candidate
  le-next_expiration b now s fits all =
      let s' : S = collect c now s in
      le-next_candidate b (c.items s') (next_live now (c.items s) u64_max)
        (le-next_live b now (c.items s) u64_max fits (
          All-find_key
            (λ x. (x.expired ≡ false) → (now < x.entry.expires_at) → b ≤ x.entry.expires_at)
            (c.items s) (c.items_unique s)
            (λ k x found alive later. all k x.entry false (
              view-collect_live now s k x.entry (ap contents (c.find-items s k ∙ found) ∙ rw alive)
                later))))
        (All-find_key (λ x. b ≤ due x) (c.items s') (c.items_unique s')
          (λ k x found. all k x.entry x.expired (ap contents (c.find-items s' k ∙ found))))
