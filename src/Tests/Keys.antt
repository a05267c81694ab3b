-- ===== src/Tests/Keys.antt =====
-- The commands on a storage of two entries.
use throttr.Prelude.{
  ℕ, ◌≤◌, ◌+◌, ◌-◌, ◌*◌, ◌/◌, List, [], ◌∷◌, ◌++◌, true, false, none, some, ◌≡◌, refl, arith, take,
  bytes_eq,
}
use throttr.Prelude.Bytes.{le_value, le_bytes}
use throttr.Protocol.{TtlTypes, seconds, hours}
use throttr.Time.{get_expiration_point}
use throttr.Entry.{Key, Entry, EntryWrapper, is_counter}
use throttr.Storage.{find_key}
use throttr.Storage.ListStorage.{list_storage}
use throttr.Storage.Views.{view}
use throttr.State.{State, status, success_response}
use throttr.Finder.{find_live}
use throttr.Create.{insert_command, set_command}
use throttr.Create.Laws.{set_command-find_live_expired, holds_counter}
use throttr.Create.Scheduling.{insert_command-dispatched}
use throttr.Update.Throttle.{decrease_commands, decrease_commands_conserve}
use throttr.Query.{query_command}
use throttr.Query.Laws.{query_command-set_command, shown, marked}
use throttr.Tests.Data.{
  ip, page, quota_entry, raw_entry, item, holding, two_items, one_item, view_one, view-ip,
}

-- Bytes of the units; the protocol library chooses them.
abbrev unit_byte : TtlTypes → ℕ
unit_byte hours = 6
unit_byte _ = 4

abbrev st : State (List EntryWrapper)
st = holding two_items

abbrev ten : List ℕ
ten = 10 ∷ 0 ∷ []

ten_value : le_value (take 2 ten) ≡ 10
unfolding le_value
ten_value = refl

decrease_commands_conserve_example :
    let r = decrease_commands list_storage 2 ip st ((1, 4) ∷ (2, 7) ∷ (3, 6) ∷ []) in
    (x : Entry) × (view list_storage r.1.storage ip ≡ some (x, false))
    × (is_counter x.type ≡ true)
    × (r.0 + x.counter ≡ 10)
decrease_commands_conserve_example =
    decrease_commands_conserve list_storage 2 ip st ((1, 4) ∷ (2, 7) ∷ (3, 6) ∷ []) quota_entry
      view-ip refl

find-page : list_storage.find two_items page ≡ some (item page raw_entry true)
unfolding list_storage find_key bytes_eq
find-page = refl

set_command-find_live_expired_example :
    let r = set_command list_storage 2 1_000 st page ten seconds ten in
    (r.0 ≡ status true) × (find_live list_storage r.1 page ≡ none)
set_command-find_live_expired_example =
    set_command-find_live_expired list_storage 2 1_000 st page ten seconds ten
      (item page raw_entry true) find-page refl refl

abbrev fresh : List ℕ
fresh = 102 ∷ []

find-fresh : list_storage.find two_items fresh ≡ none
unfolding list_storage find_key bytes_eq
find-fresh = refl

fresh-holds : holds_counter (list_storage.find two_items fresh) ≡ false
fresh-holds = rw find-fresh refl

fresh-marked : marked (list_storage.find two_items fresh) ≡ false
fresh-marked = rw find-fresh refl

query_command-set_command_example :
    let r =
      query_command list_storage 2
        (1_000 + 3_000_000_001)
        false
        (set_command list_storage 2 1_000 st fresh (7 ∷ 8 ∷ 9 ∷ []) seconds ten).1
        fresh in
    shown unit_byte (view list_storage r.1.storage) r.0
    ≡ some (
        success_response
        ∷ 4
        ∷ (le_bytes 2 ((le_value (take 2 ten) * 1_000_000_000 - 3_000_000_001) / 1_000_000_000)
            ++ (le_bytes 2 3 ++ 7 ∷ 8 ∷ 9 ∷ [])))
query_command-set_command_example =
    query_command-set_command list_storage unit_byte 2 1_000 3_000_000_001 st fresh (7 ∷ 8 ∷ 9 ∷ [])
      seconds ten fresh-holds fresh-marked (omega (arith, ten_value)) (omega (arith, ten_value))
      (omega (arith, ten_value))

-- A page that is live, read in seconds and then set in hours.
abbrev live_page : List EntryWrapper
live_page = item page raw_entry false ∷ []

-- A quota of two seconds, before the one that ends at second 5.
abbrev two : List ℕ
two = 2 ∷ 0 ∷ []

point_two : get_expiration_point 2 1_000 seconds two ≡ 2_000_001_000
unfolding get_expiration_point le_value
point_two = refl

free_two : list_storage.find one_item fresh ≡ none
unfolding list_storage find_key bytes_eq
free_two = refl

first_two :
    (j : Key) (x : Entry)
    → view list_storage one_item j ≡ some (x, false)
    → get_expiration_point 2 1_000 seconds two ≤ x.expires_at
first_two j x h = ground (arith, view_one j, point_two)

insert_command-dispatched_example :
    (insert_command list_storage 2 1_000 (holding one_item) fresh ten seconds two).1.dispatched
    ≡ [] ++ get_expiration_point 2 1_000 seconds two ∷ []
insert_command-dispatched_example =
    insert_command-dispatched list_storage 2 1_000 (holding one_item) fresh ten seconds two free_two
      first_two
