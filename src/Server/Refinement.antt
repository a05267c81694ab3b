-- ===== src/Server/Refinement.antt =====
-- The server against its specification: a function from keys to cells.
use throttr.Prelude.{
  ℕ, List, [], ◌∷◌, true, false, not, ◌&&◌, Option, none, some, ◌≡◌, refl, sym, ◌∙◌, ap, arith,
  bytes_eq, bytes_eq_iff, Bool-cases, inl, inr, if◌then◌else◌,
}
use mathlib.Core.Path.{fun_ext, ap₂}
use throttr.Protocol.{TtlTypes, counter}
use throttr.Time.{get_expiration_point}
use throttr.Entry.{Key, Entry, EntryWrapper, make_entry}
use throttr.Storage.{HashedUnique, is_some}
use throttr.Storage.Views.{view, contents}
use throttr.State.{State, status}
use throttr.Finder.Laws.{live_entry}
use throttr.Create.Laws.{insert_command_lem, set_command_lem, written, holds_counter}
use throttr.Update.{RequestUpdate, modification}
use throttr.Update.Laws.{update_command_lem, update_answer, updated}
use throttr.Purge.Laws.{purge_command_lem, is_live}
use throttr.Query.{Byte, fixed}
use throttr.Query.Laws.{query_command_lem}
use throttr.Collector.Passes.{view-collect}
use throttr.Server.Requests.{
  Request, inserts, sets, updates, purges, queries, collects, Cell, serve_update, cell, serve, run,
  key_of, concerns, replay,
}

module _ (w : ℕ) where
  inserted_answer :
      (now : ℕ) (k : Key) (amount : List ℕ) (t : TtlTypes) (left : List ℕ) (o : Option EntryWrapper)
      → fixed (status (not (is_some o))) ∷ []
        ≡ (cell w (inserts now k amount t left) (contents o)).0
  unfolding cell
  inserted_answer now k amount t left none = refl
  inserted_answer now k amount t left (some e) = refl

  inserted_cell :
      (now : ℕ) (k : Key) (amount : List ℕ) (t : TtlTypes) (left : List ℕ) (o : Option EntryWrapper)
      (j : Key) (v : Cell)
      → (bytes_eq k j ≡ true → v ≡ contents o)
      → let e = make_entry w counter amount t (get_expiration_point w now t left) in
        (if is_some o then v else if bytes_eq k j then some (e, false) else v)
        ≡ (if bytes_eq k j then (cell w (inserts now k amount t left) v).1 else v)
  unfolding cell
  inserted_cell now k amount t left none j v h = elim (Bool-cases (bytes_eq k j)) [
    | inl e ↦ rw (e, h e)
    | inr e ↦ rw e
  ]
  inserted_cell now k amount t left (some x) j v h = elim (Bool-cases (bytes_eq k j)) [
    | inl e ↦ rw (e, h e)
    | inr e ↦ rw e
  ]

  set_answer :
      (now : ℕ) (k : Key) (value : List ℕ) (t : TtlTypes) (left : List ℕ) (o : Option EntryWrapper)
      → fixed (status (not (holds_counter o))) ∷ []
        ≡ (cell w (sets now k value t left) (contents o)).0
  unfolding cell
  set_answer now k value t left none = refl
  set_answer now k value t left (some e) = ground arith

  set_cell :
      (now : ℕ) (k : Key) (value : List ℕ) (t : TtlTypes) (left : List ℕ) (o : Option EntryWrapper)
      (j : Key) (v : Cell)
      → (bytes_eq k j ≡ true → v ≡ contents o)
      → (if holds_counter o
          then v
          else if bytes_eq k j
          then some (written w value t (get_expiration_point w now t left) o)
          else v)
        ≡ (if bytes_eq k j then (cell w (sets now k value t left) v).1 else v)
  unfolding cell
  set_cell now k value t left none j v h = elim (Bool-cases (bytes_eq k j)) [
    | inl e ↦ rw (e, h e)
    | inr e ↦ rw e
  ]
  set_cell now k value t left (some x) j v h = elim (Bool-cases (bytes_eq k j)) [
    | inl e ↦ rw (e, h e) (ground arith)
    | inr e ↦ rw e (ground arith)
  ]

  update_cell_answer :
      (now : ℕ) (sk : Key) (r : RequestUpdate) (v : Cell) (o : Option Entry)
      → fixed (update_answer w now sk r o) ∷ [] ≡ (serve_update w now r v o).0
  unfolding modification
  update_cell_answer now sk r v none = refl
  update_cell_answer now sk r v (some e) = ground arith

  same_change :
      (now : ℕ) (sk : Key) (r : RequestUpdate) (e : Entry)
      → (modification w now sk r e).1 ≡ (modification w now [] r e).1
  unfolding modification
  same_change now sk r e = ground arith

  update_cell :
      (now : ℕ) (sk : Key) (r : RequestUpdate) (o : Option Entry) (j : Key) (v u : Cell)
      → (bytes_eq r.key j ≡ true → v ≡ u)
      → live_entry u ≡ o
      → (if bytes_eq r.key j then (serve_update w now r u o).1 else v)
        ≡ (if bytes_eq r.key j then (cell w (updates now r) v).1 else v)
  unfolding cell
  update_cell now sk r o j v u h e = elim (Bool-cases (bytes_eq r.key j)) [
    | inl hit ↦ rw (hit, h hit, e)
    | inr miss ↦ rw miss
  ]

  module _ {S : Type 0} (c : HashedUnique S) where
    -- What the server does to one key is what the specification does to its cell.
    abbrev pub Serves : Request → State S → Type 0
    Serves r st =
        let a = serve w c r st in
        (a.0 ≡ (cell w r (view c st.storage (key_of r))).0)
        × ((j : Key)
            → view c a.1.storage j
              ≡ (if concerns j r then (cell w r (view c st.storage j)).1 else view c st.storage j))

    same_key : (s : S) (k j : Key) → bytes_eq k j ≡ true → view c s j ≡ view c s k
    same_key s k j h = sym (ap (view c s) ((bytes_eq_iff k j).0 h))

    updated_cell :
        (now : ℕ) (sk : Key) (r : RequestUpdate) (s : S) (o : Option Entry) (j : Key)
        → live_entry (view c s r.key) ≡ o
        → updated c w now sk r s o j
          ≡ (if bytes_eq r.key j then (serve_update w now r (view c s r.key) o).1 else view c s j)
    updated_cell now sk r s none j h = elim (Bool-cases (bytes_eq r.key j)) [
      | inl e ↦ rw e (same_key s r.key j e)
      | inr e ↦ rw e
    ]
    updated_cell now sk r s (some e) j h = rw (same_change now sk r e)

    insert_command-Serves :
        (now : ℕ) (k : Key) (amount : List ℕ) (t : TtlTypes) (left : List ℕ) (st : State S)
        → Serves (inserts now k amount t left) st
    unfolding serve view
    insert_command-Serves now k amount t left st =
        let law = insert_command_lem c w now st k amount t left in
        let found : Option EntryWrapper = c.find st.storage k in
        (
          ap (λ (b : ℕ). fixed b ∷ []) law.0 ∙ inserted_answer now k amount t left found,
          λ j.
              law.1 j
              ∙ inserted_cell now k amount t left found j (view c st.storage j)
                  (same_key st.storage k j),
        )

    set_command-Serves :
        (now : ℕ) (k : Key) (value : List ℕ) (t : TtlTypes) (left : List ℕ) (st : State S)
        → Serves (sets now k value t left) st
    unfolding serve view
    set_command-Serves now k value t left st =
        let law = set_command_lem c w now st k value t left in
        let found : Option EntryWrapper = c.find st.storage k in
        (
          ap (λ (b : ℕ). fixed b ∷ []) law.0 ∙ set_answer now k value t left found,
          λ j.
              law.1 j
              ∙ set_cell now k value t left found j (view c st.storage j) (same_key st.storage k j),
        )

    update_command-Serves : (now : ℕ) (r : RequestUpdate) (st : State S) → Serves (updates now r) st
    unfolding serve cell
    update_command-Serves now r st =
        let law = update_command_lem c w now st r in
        let e : Option Entry = live_entry (view c st.storage r.key) in
        (
          ap (λ (b : ℕ). fixed b ∷ []) law.0
              ∙ update_cell_answer now st.scheduled_key r (view c st.storage r.key) e,
          λ j.
              law.1 j
              ∙ updated_cell now st.scheduled_key r st.storage e j refl
              ∙ update_cell now st.scheduled_key r e j (view c st.storage j)
                  (view c st.storage r.key) (same_key st.storage r.key j) refl,
        )

    purged_cell :
        (k j : Key) (v u : Cell)
        → (bytes_eq k j ≡ true → v ≡ u)
        → (if is_live u && bytes_eq k j then none else v)
          ≡ (if bytes_eq k j then (cell w (purges k) v).1 else v)
    unfolding cell
    purged_cell k j v u h = elim (Bool-cases (bytes_eq k j)) [
      | inl e ↦ rw (e, h e) (ground arith)
      | inr e ↦ rw e (ground arith)
    ]

    pub serve-Serves : (r : Request) (st : State S) → Serves r st
    unfolding serve cell
    serve-Serves (inserts now k amount t left) st = insert_command-Serves now k amount t left st
    serve-Serves (sets now k value t left) st = set_command-Serves now k value t left st
    serve-Serves (updates now r) st = update_command-Serves now r st
    serve-Serves (purges k) st =
        let law = purge_command_lem c st k in
        (
          ap (λ (b : ℕ). fixed b ∷ []) law.0,
          λ j.
              law.1 j
              ∙ purged_cell k j (view c st.storage j) (view c st.storage k)
                  (same_key st.storage k j),
        )
    serve-Serves (queries now as_query k) st =
        let law = query_command_lem c w now as_query st k in (law.0, λ j. law.1 j ∙ ground arith)
    serve-Serves (collects now) st = (refl, λ j. view-collect c now st.storage j)

    -- The answers of the server to a list of inserts, sets, updates, purges, queries, gets and
    -- passes of the collector, and what every key holds then, are those of the specification,
    -- which gives each key a cell of its own, from what the keys hold at first.
    pub run-replay :
        (rs : List Request) (st : State S)
        → let a = run w c rs st in
          let b = replay w rs (view c st.storage) in (a.0 ≡ b.0) × (view c a.1.storage ≡ b.1)
    unfolding run replay
    run-replay [] st = (refl, refl)
    run-replay (r ∷ rs) st =
        let law = serve-Serves r st in
        let ih = run-replay rs (serve w c r st).1 in
        let same = ap (replay w rs) (fun_ext law.1) in
        (
          ap₂ (λ (x : List Byte) (xs : List (List Byte)). x ∷ xs) law.0
              (ih.0 ∙ ap (λ (p : List (List Byte) × (Key → Cell)). p.0) same),
          ih.1 ∙ ap (λ (p : List (List Byte) × (Key → Cell)). p.1) same,
        )
