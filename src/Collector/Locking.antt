-- ===== src/Collector/Locking.antt =====
-- `run` takes `mutex_`, and `schedule_timer`, which it calls while it holds it, may call `run`.
use throttr.Prelude.{
  ℕ, suc, ◌+◌, ◌-◌, ◌%◌, ◌^◌, refl, ◌≤◌, ◌<◌, List, [], ◌∷◌, Bool, true, false, some, ◌≡◌, arith,
  ◌==◌, if◌then◌else◌,
}
use throttr.Entry.{Key, Entry}
use throttr.Storage.{HashedUnique}
use throttr.Storage.Views.{view}
use throttr.State.{State}
use throttr.Collector.{
  candidate, next_expiration, collect, collected_state, u64_max, grace_ns, done, deadlock,
  schedule_timer, run,
}
use throttr.Collector.Passes.{view-collect}
use throttr.Collector.Next.{next_expiration-le, le-next_expiration}

-- The time at which an entry that is left wants to be looked at: its expiration point if it is live,
-- and ten seconds later, on 64 bits, if it is marked.
abbrev pub wanted : Entry → Bool → ℕ
wanted e true = (e.expires_at + 10_000_000_000) % 2 ^ 64
wanted e false = e.expires_at

wanted-candidate : (e : Entry) (expired : Bool) → wanted e expired ≡ candidate e.expires_at expired
unfolding candidate
wanted-candidate e true = refl
wanted-candidate e false = refl

module _ {S : Type 0} (c : HashedUnique S) where
  -- A time that is before, or not after, what every entry of a storage wants.
  abbrev pub BelowAll : ℕ → S → Type 0
  BelowAll t s =
      (k : Key) (e : Entry) (expired : Bool) → view c s k ≡ some (e, expired) → t < wanted e expired

  abbrev pub AtMostAll : ℕ → S → Type 0
  AtMostAll t s =
      (k : Key) (e : Entry) (expired : Bool) → view c s k ≡ some (e, expired) → t ≤ wanted e expired

  -- The least of what they want and of the greatest number of 64 bits.
  abbrev pub IsLeast : ℕ → S → Type 0
  IsLeast next s = AtMostAll next s × ((b : ℕ) → b ≤ 2 ^ 64 - 1 → AtMostAll b s → b ≤ next)

  -- A pass whose mutex is free blocks on that mutex if an entry that it leaves is due again by
  -- the time the clock is read to set the timer, a time below the greatest of 64 bits.
  pub run-deadlock :
      (st : State S) (now later : ℕ) (clock : List ℕ) (k : Key) (e : Entry) (expired : Bool)
      → st.locked ≡ false
      → view c (collect c now st.storage) k ≡ some (e, expired)
      → candidate e.expires_at expired ≤ later
      → later < u64_max
      → run c st (now ∷ later ∷ clock) ≡ deadlock (collected_state c now st)
  unfolding run schedule_timer
  run-deadlock st now later [] k e expired free held due small =
      ground (arith, next_expiration-le c now st.storage k e expired held)
  run-deadlock st now later (t ∷ clock) k e expired free held due small =
      ground (arith, next_expiration-le c now st.storage k e expired held)

  -- A pass whose mutex is free, and after which every entry wants to be looked at later than the
  -- time at which the clock is read again, comes back with the mutex released, the storage
  -- collected and the timer at the least of the times that the entries want, or as it was if none
  -- of these is below the greatest of 64 bits; a live entry wants its expiration point, a marked
  -- one ten seconds later, on 64 bits; for a reading below the greatest of 64 bits.
  pub run-done :
      (st : State S) (now later : ℕ) (clock : List ℕ)
      → st.locked ≡ false
      → BelowAll later (collect c now st.storage)
      → later < 2 ^ 64 - 1
      → (next : ℕ) × IsLeast next (collect c now st.storage)
        × (run c st (now ∷ later ∷ clock)
            ≡ done (record st {
              storage = collect c now st.storage;
              expiration_timer = if next == 2 ^ 64 - 1 then st.expiration_timer else some next;
              locked = false;
            }))
  unfolding run schedule_timer
  run-done st now later clock free all small =
      let later_than : suc later ≤ next_expiration c now st.storage =
        le-next_expiration c (suc later) now st.storage small
          (λ k e expired held. omega (arith, all k e expired held, wanted-candidate e expired)) in
      (
        next_expiration c now st.storage,
        (
          λ k e expired held. omega (
            arith,
            next_expiration-le c now st.storage k e expired held,
            wanted-candidate e expired,
          ),
          λ b fits bound. le-next_expiration c b now st.storage fits (λ k e expired held.
              omega (arith, bound k e expired held, wanted-candidate e expired)),
        ),
        ground (arith, later_than),
      )

  -- A pass whose mutex is free blocks on that mutex if it finds a live entry ten seconds or more
  -- after its expiration point; for readings of the clock in order and below the greatest of 64
  -- bits.
  pub run_late-deadlock :
      (st : State S) (now later : ℕ) (clock : List ℕ) (k : Key) (e : Entry)
      → st.locked ≡ false
      → view c st.storage k ≡ some (e, false)
      → e.expires_at + grace_ns ≤ now
      → now ≤ later
      → later < u64_max
      → run c st (now ∷ later ∷ clock) ≡ deadlock (collected_state c now st)
  unfolding candidate
  run_late-deadlock st now later clock k e free held late order small =
      run-deadlock st now later clock k e true free
        (ground (arith, view-collect c now st.storage k)) (omega arith) small
