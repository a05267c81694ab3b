-- ===== src/Tests/Restarting.antt =====
-- A dump of two entries and its restore.
use throttr.Prelude.{
  zero, suc, List, [], true, false, some, ◌≡◌, refl, arith, inr, if◌then◌else◌, ℕ, ◌<◌, ◌^◌, ◌∷◌,
  none, take, length, All, bytes_eq,
}
use throttr.Protocol.{seconds, EntryTypes, counter, raw, value_mod}
use throttr.Entry.{Key, EntryWrapper, no_metrics, make_wrapper, make_entry}
use throttr.Storage.{is_some, find_key}
use throttr.Storage.ListStorage.{list_storage, visible, without, insert_new, change}
use throttr.Storage.Views.{view}
use throttr.Serializer.{Codes, dump_to_file, restore_from_file}
use throttr.Serializer.Parsing.{IsMetrics, IsDumpable}
use throttr.Serializer.Restoring.{blank, restore_from_file-dump_to_file}
use throttr.Server.{Reachable, starts, goes_on, inserts}
use throttr.Server.Restart.{FitsDump, after_restart, restart_lem}
use throttr.State.{State}
use throttr.Create.{
  insert_command, use_service, emplace_new, after_insert, read_all, visited, dispatches,
  overwritten,
}
use throttr.Time.{get_expiration_point}
use throttr.Prelude.Bytes.{le_value}
use throttr.Tests.Data.{holding, ip, page, quota_entry, raw_entry, item, two_items}

abbrev pub code_of_type : EntryTypes → ℕ
code_of_type raw = 0
code_of_type counter = 1
code_of_type (EntryTypes.other n) = suc (suc n)

abbrev pub type_of_byte : ℕ → EntryTypes
type_of_byte zero = raw
type_of_byte (suc zero) = counter
type_of_byte (suc (suc n)) = EntryTypes.other n

abbrev pub bytes : Codes
bytes = record {
  entry_code = code_of_type;
  entry_type = type_of_byte;
  ttl_code = λ t. 4;
  ttl_type = λ n. seconds;
}

no_metrics-IsMetrics : IsMetrics no_metrics
no_metrics-IsMetrics = record {
  reads_fit = omega arith;
  writes_fit = omega arith;
  reads_accumulator_fit = omega arith;
  writes_accumulator_fit = omega arith;
  reads_per_minute_fit = omega arith;
  writes_per_minute_fit = omega arith;
}

quota-IsDumpable : IsDumpable 2 bytes (item ip quota_entry false)
quota-IsDumpable = record {
  key_fits = omega arith;
  point_fits = omega arith;
  type_coded = refl;
  type_byte = omega arith;
  unit_coded = refl;
  unit_byte = omega arith;
  metrics_fit = no_metrics-IsMetrics;
  value_fits = (omega arith, refl);
}

raw-IsDumpable : IsDumpable 2 bytes (item page raw_entry true)
raw-IsDumpable = record {
  key_fits = omega arith;
  point_fits = omega arith;
  type_coded = refl;
  type_byte = omega arith;
  unit_coded = refl;
  unit_byte = omega arith;
  metrics_fit = no_metrics-IsMetrics;
  value_fits = (omega arith, refl);
}

restore_from_file-dump_to_file_example :
    (s' : List EntryWrapper) × (restore_from_file 2 bytes list_storage []
        (some (dump_to_file 2 bytes two_items))
      ≡ inr s')
    × ((k : Key)
        → view list_storage s' k ≡ (
            if is_some (list_storage.find [] k)
            then view list_storage [] k
            else blank 2 k two_items))
restore_from_file-dump_to_file_example =
    restore_from_file-dump_to_file list_storage 2 bytes [] two_items
      (quota-IsDumpable, (raw-IsDumpable, tt)) (omega arith) (omega arith)

-- A server that has run one insert of a quota of 10.
abbrev inserted : State (List EntryWrapper)
inserted =
    (insert_command list_storage 2 1_000 (holding []) ip (10 ∷ 0 ∷ []) seconds (4 ∷ 0 ∷ [])).1

nothing_there : (k : Key) → view list_storage [] k ≡ none
unfolding view list_storage find_key
nothing_there k = refl

none_found : (k : Key) → list_storage.find [] k ≡ none
unfolding list_storage find_key
none_found k = refl

ten : le_value (take 2 (10 ∷ 0 ∷ [])) < value_mod 2
unfolding le_value
ten = omega arith

reached : Reachable list_storage 2 inserted
reached =
    goes_on (holding []) inserted (starts (holding []) nothing_there)
      (inserts (holding []) 1_000 ip (10 ∷ 0 ∷ []) seconds (4 ∷ 0 ∷ []) ten)

inserted_fits : All (FitsDump bytes) (list_storage.items inserted.storage)
unfolding list_storage visible without insert_new find_key insert_command use_service overwritten
    emplace_new after_insert read_all visited dispatches make_wrapper make_entry
    get_expiration_point le_value bytes_eq change
inserted_fits = (
  record {
    key_fits = omega arith;
    unit_coded = refl;
    unit_byte = omega arith;
    metrics_fit = record {
      reads_fit = omega arith;
      writes_fit = omega arith;
      reads_accumulator_fit = omega arith;
      writes_accumulator_fit = omega arith;
      reads_per_minute_fit = omega arith;
      writes_per_minute_fit = omega arith;
    };
  },
  tt,
)

inserted_few : length (list_storage.items inserted.storage) < 2 ^ 32
unfolding list_storage visible without insert_new find_key insert_command use_service overwritten
    emplace_new after_insert read_all visited dispatches make_wrapper make_entry
    get_expiration_point le_value bytes_eq change
inserted_few = omega arith

restart_lem_example :
    (s' : List EntryWrapper) × (restore_from_file 2 bytes list_storage []
        (some (dump_to_file 2 bytes (list_storage.items inserted.storage)))
      ≡ inr s')
    × ((k : Key) → view list_storage s' k ≡ after_restart 2 (view list_storage inserted.storage k))
restart_lem_example =
    restart_lem list_storage 2 bytes inserted [] reached
      (record { type_coded = refl; type_byte = omega arith })
      (record { type_coded = refl; type_byte = omega arith }) inserted_fits inserted_few
      (omega arith) none_found
