-- ===== src/Update.antt =====
-- src/sources/services/update_service.cpp and src/sources/commands/update_command.cpp.
-- The request is what the protocol library parsed.
pub mod Quota
pub mod Ttl
pub mod Laws
pub mod Throttle
use throttr.Prelude.{
  ℕ, ◌+◌, ◌-◌, ◌*◌, ◌%◌, ◌^◌, Bool, true, false, Option, none, some, leb, if◌then◌else◌, bytes_eq,
}
use throttr.Protocol.{
  TtlTypes, nanoseconds, microseconds, milliseconds, seconds, minutes, hours, AttributeTypes, quota,
  ttl, ChangeTypes, patch, increase, decrease, value_mod, u64_mod,
}
use throttr.Entry.{Key, Entry, EntryWrapper, is_counter, add_write}
use throttr.Storage.{HashedUnique}
use throttr.State.{State, dispatch, status}
use throttr.Finder.{find_or_fail}

-- request_update; `value` is below `value_mod w`.
pub record RequestUpdate : Type 0 where
  pub attribute : AttributeTypes
  pub change : ChangeTypes
  pub value : ℕ
  pub key : Key

-- apply_quota_change. `fetch_add` wraps. A byte that names no change is no case of the `switch`.
unfoldable pub apply_quota_change : ℕ → Entry → ChangeTypes → ℕ → Bool × Entry
apply_quota_change w e patch value = (true, record e { counter = value })
apply_quota_change w e increase value =
    (true, record e { counter = (e.counter + value) % value_mod w })
apply_quota_change w e decrease value =
    if leb value e.counter then (true, record e { counter = e.counter - value }) else (false, e)
apply_quota_change w e (ChangeTypes.other n) value = (true, e)

-- The duration of apply_ttl_change: a `switch` with a case for each unit and no default.
abbrev pub duration_ns : TtlTypes → ℕ → ℕ
duration_ns nanoseconds value = value
duration_ns microseconds value = value * 1_000 % u64_mod
duration_ns milliseconds value = value * 1_000_000 % u64_mod
duration_ns seconds value = value * 1_000_000_000 % u64_mod
duration_ns minutes value = value * 60_000_000_000 % u64_mod
duration_ns hours value = value * 3_600_000_000_000 % u64_mod
duration_ns (TtlTypes.other n) value = 0

-- The expiration point that apply_ttl_change stores; `fetch_add` and `fetch_sub` wrap.
unfoldable pub changed_point : ℕ → Entry → ChangeTypes → ℕ → ℕ
changed_point now e patch value = (now + duration_ns e.ttl_type value) % u64_mod
changed_point now e increase value = (e.expires_at + duration_ns e.ttl_type value) % u64_mod
changed_point now e decrease value =
    (e.expires_at + u64_mod - duration_ns e.ttl_type value) % u64_mod
changed_point now e (ChangeTypes.other n) value = e.expires_at

-- The modification that update_command hands to the storage: whether it took place, the new entry,
-- and whether the timer is dispatched.
unfoldable pub modification : ℕ → ℕ → Key → RequestUpdate → Entry → Bool × Entry × Bool
modification w now scheduled_key request e = elim request.attribute [
  | quota ↦
      if is_counter e.type
      then (let (done, e') = apply_quota_change w e request.change request.value in
          (done, e', false))
      else (false, e, false)
  | ttl ↦ (
    true,
    record e { expires_at = changed_point now e request.change request.value },
    bytes_eq scheduled_key request.key,
  )
  | AttributeTypes.other n ↦ (false, e, false)
]

abbrev pub set_entry : Entry → EntryWrapper → EntryWrapper
set_entry e item = record item { entry = e }

abbrev pub count_write : Bool → EntryWrapper → EntryWrapper
count_write true item = add_write item
count_write false item = item

module _ {S : Type 0} (c : HashedUnique S) where
  -- What update_command does once the entry is found: modify, count the write, dispatch, answer.
  unfoldable pub update_found : ℕ → ℕ → State S → RequestUpdate → Entry → ℕ × State S
  update_found w now st request e =
      let (modified, e', scheduled) = modification w now st.scheduled_key request e in
      let s : S =
        c.modify (c.modify st.storage request.key (set_entry e')) request.key
          (count_write modified) in
      let st' : State S = record st { storage = s } in
      (status modified, if scheduled then dispatch st' e'.expires_at else st')

  unfoldable pub update_or_fail :
      ℕ → ℕ → State S → RequestUpdate → Option EntryWrapper → ℕ × State S
  update_or_fail w now st request none = (status false, st)
  update_or_fail w now st request (some e) = update_found w now st request e.entry

  -- update_command::call
  unfoldable pub update_command : ℕ → ℕ → State S → RequestUpdate → ℕ × State S
  update_command w now st request =
      let (found, st') = find_or_fail c st request.key in update_or_fail w now st' request found
