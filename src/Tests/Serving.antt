-- ===== src/Tests/Serving.antt =====
-- Requests about two keys, and connections with a table of one command.
use throttr.Prelude.{List, [], ◌∷◌, true, false, ◌≡◌, refl, bytes_eq}
use throttr.Protocol.{seconds, quota, decrease}
use throttr.Storage.{find_key}
use throttr.Storage.ListStorage.{list_storage}
use throttr.Storage.Views.{view}
use throttr.Server.Requests.{
  Request, sets, updates, purges, queries, collects, run, replay, requests_of, answers_of,
}
use throttr.Server.Refinement.{run-replay}
use throttr.Server.Independence.{run-requests_of}
use throttr.Tests.Data.{holding, ip, page, quota_entry, item, two_items}

abbrev requests : List Request
requests =
    updates 5 (record { attribute = quota; change = decrease; value = 3; key = ip })
    ∷ sets 6 page (1 ∷ []) seconds (9 ∷ 0 ∷ [])
    ∷ queries 7 true ip
    ∷ collects 8
    ∷ purges page
    ∷ []

run-replay_example :
    let a = run 2 list_storage requests (holding two_items) in
    let b = replay 2 requests (view list_storage two_items) in
    (a.0 ≡ b.0) × (view list_storage a.1.storage ≡ b.1)
run-replay_example = run-replay 2 list_storage requests (holding two_items)

same_ip : view list_storage two_items ip ≡ view list_storage (item ip quota_entry false ∷ []) ip
unfolding view list_storage find_key bytes_eq
same_ip = refl

run-requests_of_example :
    let alone = holding (item ip quota_entry false ∷ []) in
    let a = run 2 list_storage requests (holding two_items) in
    let b = run 2 list_storage (requests_of ip requests) alone in
    (answers_of ip requests a.0 ≡ b.0)
    × (view list_storage a.1.storage ip ≡ view list_storage b.1.storage ip)
run-requests_of_example =
    run-requests_of 2 list_storage list_storage ip requests (holding two_items)
      (holding (item ip quota_entry false ∷ [])) same_ip
