-- ===== src/Collector.antt =====
-- src/sources/services/garbage_collector_service.cpp: entries are marked as expired at their
-- expiration point, and erased once they have been expired for ten seconds. Each call of
-- `std::chrono::system_clock::now()` takes the next of a list of clock readings.
pub mod Passes
pub mod Next
pub mod Locking
use throttr.Prelude.{
  ℕ, ◌+◌, ◌-◌, ◌%◌, ◌^◌, List, [], ◌∷◌, Bool, true, false, Option, none, some, leb, ltb, ◌==◌, ◌&&◌,
  not, min, if◌then◌else◌,
}
use throttr.Protocol.{u64_mod}
use throttr.Entry.{Key, EntryWrapper}
use throttr.Storage.{HashedUnique}
use throttr.State.{State}

-- Ten seconds.
abbrev pub grace_ns : ℕ
grace_ns = 10_000_000_000

-- std::numeric_limits<std::uint64_t>::max()
abbrev pub u64_max : ℕ
u64_max = u64_mod - 1

-- `_now - _expires_ns > _grace_ns`, on uint64_t.
unfoldable pub overdue : ℕ → ℕ → Bool
overdue now expires_at = ltb grace_ns ((now + u64_mod - expires_at) % u64_mod)

-- The first loop: the keys to mark, the keys to erase, and the next expiration.
unfoldable pub to_expire : ℕ → List EntryWrapper → List Key
to_expire now [] = []
to_expire now (item ∷ items) =
    let rest = to_expire now items in
    if not item.expired && leb item.entry.expires_at now then item.key ∷ rest else rest

unfoldable pub to_erase : ℕ → List EntryWrapper → List Key
to_erase now [] = []
to_erase now (item ∷ items) =
    let rest = to_erase now items in
    if item.expired && overdue now item.entry.expires_at then item.key ∷ rest else rest

unfoldable pub next_live : ℕ → List EntryWrapper → ℕ → ℕ
next_live now [] next = next
next_live now (item ∷ items) next = next_live now items (
    if not item.expired && ltb now item.entry.expires_at
    then min next item.entry.expires_at
    else next)

abbrev pub expire : EntryWrapper → EntryWrapper
expire e = record e { expired = true }

-- When an entry wants to be looked at again.
unfoldable pub candidate : ℕ → Bool → ℕ
candidate expires_at true = (expires_at + grace_ns) % u64_mod
candidate expires_at false = expires_at

-- The last loop.
unfoldable pub next_candidate : List EntryWrapper → ℕ → ℕ
next_candidate [] next = next
next_candidate (item ∷ items) next =
    next_candidate items (min next (candidate item.entry.expires_at item.expired))

module _ {S : Type 0} (c : HashedUnique S) where
  unfoldable pub mark_one : S → Key → Option EntryWrapper → S
  mark_one s k none = s
  mark_one s k (some e) = if e.expired then s else c.modify s k expire

  unfoldable pub mark_expired : S → List Key → S
  mark_expired s [] = s
  mark_expired s (k ∷ ks) = mark_expired (mark_one s k (c.find s k)) ks

  unfoldable pub erase_one : S → Key → Option EntryWrapper → S
  erase_one s k none = s
  erase_one s k (some e) = if e.expired then c.erase s k else s

  unfoldable pub erase_expired : S → List Key → S
  erase_expired s [] = s
  erase_expired s (k ∷ ks) = erase_expired (erase_one s k (c.find s k)) ks

  -- The loops of `run` up to the last: what they leave in the storage.
  unfoldable pub collect : ℕ → S → S
  collect now s =
      let items = c.items s in
      erase_expired (mark_expired s (to_expire now items)) (to_erase now items)

  -- `_next_expiration` at the end of `run`.
  unfoldable pub next_expiration : ℕ → S → ℕ
  next_expiration now s =
      next_candidate (c.items (collect now s)) (next_live now (c.items s) u64_max)

-- The thread comes back with a state, or blocks for ever on a mutex that it holds itself. The
-- third case is no behaviour: the list of clock readings was too short.
pub data Outcome (S : Type 0) : Type 0 where
  done : State S → Outcome S
  deadlock : State S → Outcome S
  out_of_readings : Outcome S

abbrev pub unlock : {S : Type 0} → Outcome S → Outcome S
unlock (done st) = done (record st { locked = false })
unlock (deadlock st) = deadlock st
unlock out_of_readings = out_of_readings

module _ {S : Type 0} (c : HashedUnique S) where
  -- `run` under its lock, up to the call of `schedule_timer`.
  abbrev pub collected_state : ℕ → State S → State S
  collected_state now st = record st { storage = collect c now st.storage; locked = true }

  unfoldable mutual
    -- garbage_collector_service::schedule_timer
    pub schedule_timer : State S → ℕ → List ℕ → Outcome S
    schedule_timer st proposed [] = out_of_readings
    schedule_timer st proposed (now ∷ clock) =
        let again = run st clock in
        if leb proposed now then again else done (record st { expiration_timer = some proposed })

    -- garbage_collector_service::run
    pub run : State S → List ℕ → Outcome S
    run st [] = if st.locked then deadlock st else out_of_readings
    run st (now ∷ clock) =
        let next = next_expiration c now st.storage in
        let st' : State S = collected_state now st in
        let scheduled = schedule_timer st' next clock in
        if st.locked
        then deadlock st
        else if next == u64_max
        then unlock (done st')
        else unlock scheduled
