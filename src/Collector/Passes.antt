-- ===== src/Collector/Passes.antt =====
-- What one pass of the collector does to every key.
use throttr.Prelude.{
  ℕ, ◌+◌, ◌-◌, ◌%◌, ◌^◌, ◌<◌, ltb, ◌∙◌, List, [], ◌∷◌, Bool, true, false, not, ◌&&◌, ◌||◌, Option,
  none, some, ◌≡◌, refl, ap, arith, leb, bytes_eq, bytes_eq_iff, if◌then◌else◌,
}
use throttr.Entry.{Key, Entry, EntryWrapper}
use throttr.Storage.{HashedUnique, find_key, UniqueKeys}
use throttr.Storage.Views.{view, contents}
use throttr.Collector.{
  overdue, to_expire, to_erase, expire, mark_one, mark_expired, erase_one, erase_expired, collect,
}

-- The contents of a key after a pass at `now`. The age of a marked entry wraps on 64 bits.
abbrev pub collected : ℕ → Option (Entry × Bool) → Option (Entry × Bool)
collected now none = none
collected now (some (e, true)) =
    if ltb 10_000_000_000 ((now + 2 ^ 64 - e.expires_at) % 2 ^ 64) then none else some (e, true)
collected now (some (e, false)) = some (e, leb e.expires_at now)

-- What a pass at `now` does to numbers that do not wrap: a marked entry goes once ten seconds and more
-- have passed since its expiration point, and also if that point is still to come.
abbrev pub gone : ℕ → ℕ → Bool
gone now expires_at =
    ltb (expires_at + 10_000_000_000) now
    || (ltb now expires_at && ltb (expires_at + 10_000_000_000) (now + 2 ^ 64))

abbrev pub swept : ℕ → Option (Entry × Bool) → Option (Entry × Bool)
swept now none = none
swept now (some (e, true)) = if gone now e.expires_at then none else some (e, true)
swept now (some (e, false)) = some (e, leb e.expires_at now)

gone_age :
    (now expires_at : ℕ)
    → now < 2 ^ 64
    → expires_at < 2 ^ 64
    → ltb 10_000_000_000 ((now + 2 ^ 64 - expires_at) % 2 ^ 64) ≡ gone now expires_at
gone_age now expires_at small fits = ground arith

abbrev Fits : Option (Entry × Bool) → Type 0
Fits none = Unit
Fits (some (e, expired)) = e.expires_at < 2 ^ 64

collected-swept :
    (now : ℕ) (v : Option (Entry × Bool)) → now < 2 ^ 64 → Fits v → collected now v ≡ swept now v
collected-swept now none small fits = refl
collected-swept now (some (e, true)) small fits = rw (gone_age now e.expires_at small fits) refl
collected-swept now (some (e, false)) small fits = refl

abbrev marked : Option (Entry × Bool) → Option (Entry × Bool)
marked none = none
marked (some (e, expired)) = some (e, true)

abbrev dropped : Option (Entry × Bool) → Option (Entry × Bool)
dropped none = none
dropped (some (e, expired)) = if expired then none else some (e, expired)

abbrev mem_key : Key → List Key → Bool
mem_key j [] = false
mem_key j (k ∷ ks) = bytes_eq k j || mem_key j ks

abbrev wants_mark : ℕ → Option (Entry × Bool) → Bool
wants_mark now none = false
wants_mark now (some (e, expired)) = not expired && leb e.expires_at now

abbrev wants_erase : ℕ → Option (Entry × Bool) → Bool
wants_erase now none = false
wants_erase now (some (e, expired)) = expired && overdue now e.expires_at

mem_key-to_expire :
    (now : ℕ) (j : Key) (items : List EntryWrapper)
    → UniqueKeys items
    → mem_key j (to_expire now items) ≡ wants_mark now (contents (find_key j items))
unfolding to_expire find_key
mem_key-to_expire now j [] u = refl
mem_key-to_expire now j (e ∷ items) u =
    ground (arith, mem_key-to_expire now j items u.1, bytes_eq_iff e.key j)

mem_key-to_erase :
    (now : ℕ) (j : Key) (items : List EntryWrapper)
    → UniqueKeys items
    → mem_key j (to_erase now items) ≡ wants_erase now (contents (find_key j items))
unfolding to_erase find_key
mem_key-to_erase now j [] u = refl
mem_key-to_erase now j (e ∷ items) u =
    ground (arith, mem_key-to_erase now j items u.1, bytes_eq_iff e.key j)

overdue_age :
    (now expires_at : ℕ)
    → overdue now expires_at ≡ ltb 10_000_000_000 ((now + 2 ^ 64 - expires_at) % 2 ^ 64)
unfolding overdue
overdue_age now expires_at = refl

collected_cases :
    (now : ℕ) (v : Option (Entry × Bool))
    → (let after = if wants_mark now v then marked v else v in
        if wants_erase now v then dropped after else after)
      ≡ collected now v
collected_cases now none = refl
collected_cases now (some (e, true)) = ground (arith, overdue_age now e.expires_at)
collected_cases now (some (e, false)) = ground arith

module _ {S : Type 0} (c : HashedUnique S) where
  view-items : (s : S) (j : Key) → view c s j ≡ contents (find_key j (c.items s))
  unfolding view
  view-items s j = ap contents (c.find-items s j)

  view-mark_one :
      (s : S) (k j : Key) (o : Option EntryWrapper)
      → c.find s k ≡ o
      → view c (mark_one c s k o) j ≡ (if bytes_eq k j then marked (view c s j) else view c s j)
  unfolding view mark_one
  view-mark_one s k j none h = ground (arith, bytes_eq_iff k j)
  view-mark_one s k j (some e) h =
      ground (arith, bytes_eq_iff k j, c.find-modify s k expire (λ x. refl) j)

  view-erase_one :
      (s : S) (k j : Key) (o : Option EntryWrapper)
      → c.find s k ≡ o
      → view c (erase_one c s k o) j ≡ (if bytes_eq k j then dropped (view c s j) else view c s j)
  unfolding view erase_one
  view-erase_one s k j none h = ground (arith, bytes_eq_iff k j)
  view-erase_one s k j (some e) h = ground (arith, bytes_eq_iff k j, c.find-erase s k j)

  view-mark_expired :
      (s : S) (ks : List Key) (j : Key)
      → view c (mark_expired c s ks) j ≡ (if mem_key j ks then marked (view c s j) else view c s j)
  unfolding mark_expired
  view-mark_expired s [] j = refl
  view-mark_expired s (k ∷ ks) j = ground (
    arith,
    view-mark_expired (mark_one c s k (c.find s k)) ks j,
    view-mark_one s k j (c.find s k) refl,
  )

  view-erase_expired :
      (s : S) (ks : List Key) (j : Key)
      → view c (erase_expired c s ks) j
        ≡ (if mem_key j ks then dropped (view c s j) else view c s j)
  unfolding erase_expired
  view-erase_expired s [] j = refl
  view-erase_expired s (k ∷ ks) j = ground (
    arith,
    view-erase_expired (erase_one c s k (c.find s k)) ks j,
    view-erase_one s k j (c.find s k) refl,
  )

  -- What a pass of the collector does to every key, on 64 bits that wrap.
  pub view-collect :
      (now : ℕ) (s : S) (j : Key) → view c (collect c now s) j ≡ collected now (view c s j)
  unfolding collect
  view-collect now s j =
      let items : List EntryWrapper = c.items s in
      let passed : S = mark_expired c s (to_expire now items) in
      ground (
        arith,
        view-erase_expired passed (to_erase now items) j,
        view-mark_expired s (to_expire now items) j,
        mem_key-to_expire now j items (c.items_unique s),
        mem_key-to_erase now j items (c.items_unique s),
        view-items s j,
        collected_cases now (view c s j),
      )

  -- A pass of the collector marks exactly the live entries whose expiration point has come, keeps
  -- the contents of every key that it does not mark or erase, and erases exactly the marked
  -- entries whose point was more than ten seconds ago and, since the difference wraps, those
  -- whose point is still to come, unless now and that point are within ten seconds of 2^64 apart;
  -- for a clock and points that fit 64 bits.
  pub view-collect-swept :
      (now : ℕ) (s : S) (j : Key)
      → now < 2 ^ 64
      → ((e : Entry) (expired : Bool) → view c s j ≡ some (e, expired) → e.expires_at < 2 ^ 64)
      → view c (collect c now s) j ≡ swept now (view c s j)
  view-collect-swept now s j small fits =
      view-collect now s j ∙ collected-swept now (view c s j) small (fitting (view c s j) refl)
    where
      fitting : (v : Option (Entry × Bool)) → view c s j ≡ v → Fits v
      fitting none h = tt
      fitting (some (e, expired)) h = fits e expired h
