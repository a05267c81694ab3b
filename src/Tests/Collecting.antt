-- ===== src/Tests/Collecting.antt =====
-- The collector on a storage of one or two entries.
use throttr.Prelude.{
  ◌<◌, ℕ, ◌^◌, ◌-◌, [], ◌∷◌, Bool, false, none, some, ◌≡◌, refl, arith, ◌==◌, if◌then◌else◌,
}
use throttr.Entry.{Key, Entry}
use throttr.Storage.ListStorage.{list_storage}
use throttr.Storage.Views.{view}
use throttr.Collector.{collect, collected_state, run, done, deadlock}
use throttr.Collector.Passes.{swept, view-collect, view-collect-swept}
use throttr.Collector.Locking.{IsLeast, wanted, run-done, run_late-deadlock}
use throttr.Tests.Data.{ip, quota_entry, holding, two_items, view-ip, one_item, view_one}

small_ip :
    (e : Entry) (expired : Bool)
    → view list_storage two_items ip ≡ some (e, expired)
    → e.expires_at < 2 ^ 64
small_ip e expired h = ground (arith, view-ip)

view-collect-swept_example :
    view list_storage (collect list_storage 6_000_000_000 two_items) ip
    ≡ swept 6_000_000_000 (view list_storage two_items ip)
view-collect-swept_example =
    view-collect-swept list_storage 6_000_000_000 two_items ip (omega arith) small_ip

later_one :
    (k : Key) (e : Entry) (expired : Bool)
    → view list_storage (collect list_storage 1_000 one_item) k ≡ some (e, expired)
    → 2_000 < wanted e expired
later_one k e expired h = ground (arith, view-collect list_storage 1_000 one_item k, view_one k)

run-done_example :
    (next : ℕ) × IsLeast list_storage next (collect list_storage 1_000 one_item)
    × (run list_storage (holding one_item) (1_000 ∷ 2_000 ∷ [])
        ≡ done (record (holding one_item) {
          storage = collect list_storage 1_000 one_item;
          expiration_timer = if next == 2 ^ 64 - 1 then none else some next;
          locked = false;
        }))
run-done_example =
    run-done list_storage (holding one_item) 1_000 2_000 [] refl later_one (omega arith)

run_late-deadlock_example :
    run list_storage (holding two_items) (15_000_000_000 ∷ 15_000_000_100 ∷ [])
    ≡ deadlock (collected_state list_storage 15_000_000_000 (holding two_items))
run_late-deadlock_example =
    run_late-deadlock list_storage (holding two_items) 15_000_000_000 15_000_000_100 [] ip
      quota_entry refl view-ip (omega arith) (omega arith) (omega arith)
