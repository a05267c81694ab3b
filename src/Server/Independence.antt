-- ===== src/Server/Independence.antt =====
-- Keys do not interfere, and the container of the storage does not show.
use throttr.Prelude.{
  ℕ, List, [], ◌∷◌, true, ◌≡◌, refl, sym, ◌∙◌, ap, bytes_eq_iff, Bool-cases, inl, inr,
  if◌then◌else◌,
}
use mathlib.Core.Path.{fun_ext, ap₂}
use throttr.Entry.{Key}
use throttr.Storage.{HashedUnique}
use throttr.Storage.Views.{view}
use throttr.State.{State}
use throttr.Query.{Byte}
use throttr.Server.Requests.{
  Request, inserts, sets, updates, purges, queries, collects, Cell, cell, run, key_of, concerns,
  requests_of, answers_of, replay,
}
use throttr.Server.Refinement.{run-replay}

module _ (w : ℕ) where
  -- The change that a request makes to a function from keys.
  abbrev change : Request → (Key → Cell) → Key → Cell
  change r m j = if concerns j r then (cell w r (m j)).1 else m j

  -- A pass of the collector answers nothing.
  answer_at :
      (r : Request) (k : Key) (m m' : Key → Cell)
      → concerns k r ≡ true
      → m k ≡ m' k
      → (cell w r (m (key_of r))).0 ≡ (cell w r (m' (key_of r))).0
  unfolding cell
  answer_at (collects now) k m m' h e = refl
  answer_at (inserts now i amount t left) k m m' h e = rw ((bytes_eq_iff i k).0 h, e)
  answer_at (sets now i value t left) k m m' h e = rw ((bytes_eq_iff i k).0 h, e)
  answer_at (updates now r) k m m' h e = rw ((bytes_eq_iff r.key k).0 h, e)
  answer_at (purges i) k m m' h e = rw ((bytes_eq_iff i k).0 h, e)
  answer_at (queries now as_query i) k m m' h e = rw ((bytes_eq_iff i k).0 h, e)

  replay-requests_of :
      (k : Key) (rs : List Request) (m m' : Key → Cell)
      → m k ≡ m' k
      → let a = replay w rs m in
        let b = replay w (requests_of k rs) m' in (answers_of k rs a.0 ≡ b.0) × (a.1 k ≡ b.1 k)
  unfolding replay requests_of answers_of
  replay-requests_of k [] m m' e = (refl, e)
  replay-requests_of k (r ∷ rs) m m' e = elim (Bool-cases (concerns k r)) [
    | inl hit ↦
        let same : change r m k ≡ change r m' k = rw hit (rw e refl) in
        let ih = replay-requests_of k rs (change r m) (change r m') same in
        rw hit (
          ap₂ (λ (x : List Byte) (xs : List (List Byte)). x ∷ xs) (answer_at r k m m' hit e) ih.0,
          ih.1,
        )
    | inr miss ↦
        let same : change r m k ≡ m' k = rw miss e in
        rw miss (replay-requests_of k rs (change r m) m' same)
  ]

  module _ {S S' : Type 0} (c : HashedUnique S) (c' : HashedUnique S') where
    -- Two servers whose storages are any two containers, which may iterate in different orders
    -- and count reads and writes differently, give the same answers to the same inserts, sets,
    -- updates, purges, queries, gets and passes of the collector, and hold the same under every
    -- key at the end; if they do at the start.
    pub run-containers :
        (rs : List Request) (st : State S) (st' : State S')
        → ((j : Key) → view c st.storage j ≡ view c' st'.storage j)
        → let a = run w c rs st in
          let b = run w c' rs st' in
          (a.0 ≡ b.0) × ((j : Key) → view c a.1.storage j ≡ view c' b.1.storage j)
    run-containers rs st st' h =
        let left = run-replay w c rs st in
        let right = run-replay w c' rs st' in
        let same = ap (replay w rs) (fun_ext h) in
        (
          left.0 ∙ ap (λ (p : List (List Byte) × (Key → Cell)). p.0) same ∙ sym right.0,
          λ j.
              ap (λ (m : Key → Cell). m j)
                (left.1 ∙ ap (λ (p : List (List Byte) × (Key → Cell)). p.1) same ∙ sym right.1),
        )

    -- The answers that a run of inserts, sets, updates, purges, queries, gets and passes of the
    -- collector gives about a key, and what the key holds at the end, are those of a server that
    -- was sent only the requests about this key and the passes of the collector, and that held
    -- the same under this key, whatever the two hold under other keys.
    pub run-requests_of :
        (k : Key) (rs : List Request) (st : State S) (st' : State S')
        → view c st.storage k ≡ view c' st'.storage k
        → let a = run w c rs st in
          let b = run w c' (requests_of k rs) st' in
          (answers_of k rs a.0 ≡ b.0) × (view c a.1.storage k ≡ view c' b.1.storage k)
    run-requests_of k rs st st' h =
        let left = run-replay w c rs st in
        let right = run-replay w c' (requests_of k rs) st' in
        let cells = replay-requests_of k rs (view c st.storage) (view c' st'.storage) h in
        (
          ap (answers_of k rs) left.0 ∙ cells.0 ∙ sym right.0,
          ap (λ (m : Key → Cell). m k) left.1
              ∙ cells.1
              ∙ sym (ap (λ (m : Key → Cell). m k) right.1),
        )
