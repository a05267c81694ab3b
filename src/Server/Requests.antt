-- ===== src/Server/Requests.antt =====
-- A run of the server as a list of requests, and what it promises of each key: a key is a cell of
-- its own, which a request about another key neither reads nor writes. `w` is the size of a
-- `value_type`.
use throttr.Prelude.{
  ℕ, List, [], ◌∷◌, Bool, true, false, Option, none, some, if◌then◌else◌, bytes_eq,
}
use throttr.Protocol.{TtlTypes, counter, raw}
use throttr.Time.{get_expiration_point}
use throttr.Entry.{Key, Entry, make_entry, is_counter}
use throttr.Storage.{HashedUnique}
use throttr.State.{State, status}
use throttr.Finder.Laws.{live_entry}
use throttr.Create.{insert_command, set_command}
use throttr.Update.{RequestUpdate, modification, update_command}
use throttr.Purge.{purge_command}
use throttr.Purge.Laws.{is_live}
use throttr.Query.{Byte, fixed, query_command}
use throttr.Query.Laws.{read_answer}
use throttr.Collector.{collect}
use throttr.Collector.Passes.{collected}

-- A request with the clock at which it is served, or a pass of the collector.
pub data Request : Type 0 where
  inserts : (now : ℕ) (k : Key) (amount : List ℕ) (t : TtlTypes) (left : List ℕ) → Request
  sets : (now : ℕ) (k : Key) (value : List ℕ) (t : TtlTypes) (left : List ℕ) → Request
  updates : (now : ℕ) (r : RequestUpdate) → Request
  purges : (k : Key) → Request
  queries : (now : ℕ) (as_query : Bool) (k : Key) → Request
  collects : (now : ℕ) → Request

-- What a request does to a key that it concerns: the answer, and what the key holds then.
abbrev pub Cell : Type 0
Cell = Option (Entry × Bool)

module _ (w : ℕ) where
  abbrev pub serve_update : ℕ → RequestUpdate → Cell → Option Entry → List Byte × Cell
  serve_update now r v none = (fixed (status false) ∷ [], v)
  serve_update now r v (some e) =
      let m : Bool × Entry × Bool = modification w now [] r e in
      (fixed (status m.0) ∷ [], some (m.1, false))

  unfoldable pub cell : Request → Cell → List Byte × Cell
  cell (inserts now k amount t left) none = (
    fixed (status true) ∷ [],
    some (make_entry w counter amount t (get_expiration_point w now t left), false),
  )
  cell (inserts now k amount t left) (some v) = (fixed (status false) ∷ [], some v)
  cell (sets now k value t left) none = (
    fixed (status true) ∷ [],
    some (make_entry w raw value t (get_expiration_point w now t left), false),
  )
  cell (sets now k value t left) (some (e, expired)) =
      if is_counter e.type then (fixed (status false) ∷ [], some (e, expired)) else (
        fixed (status true) ∷ [],
        some (
          record e { buffer = value; expires_at = get_expiration_point w now t left; ttl_type = t },
          expired,
        ),
      )
  cell (updates now r) v = serve_update now r v (live_entry v)
  cell (purges k) v = (fixed (status (is_live v)) ∷ [], if is_live v then none else v)
  cell (queries now as_query k) v = (read_answer w now as_query k (live_entry v), v)
  cell (collects now) v = ([], collected now v)

  module _ {S : Type 0} (c : HashedUnique S) where
    -- The server's answer to a request, the bytes of a batch, and its state then.
    unfoldable pub serve : Request → State S → List Byte × State S
    serve (inserts now k amount t left) st =
        let (answer, st') = insert_command c w now st k amount t left in (fixed answer ∷ [], st')
    serve (sets now k value t left) st =
        let (answer, st') = set_command c w now st k value t left in (fixed answer ∷ [], st')
    serve (updates now r) st =
        let (answer, st') = update_command c w now st r in (fixed answer ∷ [], st')
    serve (purges k) st = let (answer, st') = purge_command c st k in (fixed answer ∷ [], st')
    serve (queries now as_query k) st = query_command c w now as_query st k
    serve (collects now) st = ([], record st { storage = collect c now st.storage })

    unfoldable pub run : List Request → State S → List (List Byte) × State S
    run [] st = ([], st)
    run (r ∷ rs) st =
        let (answer, st') = serve r st in
        let (answers, last) = run rs st' in (answer ∷ answers, last)

-- The key that a request names; a pass of the collector names none.
abbrev pub key_of : Request → Key
key_of (inserts now k amount t left) = k
key_of (sets now k value t left) = k
key_of (updates now r) = r.key
key_of (purges k) = k
key_of (queries now as_query k) = k
key_of (collects now) = []

-- Whether a request concerns a key: a pass of the collector concerns all.
abbrev pub concerns : Key → Request → Bool
concerns j (collects now) = true
concerns j r = bytes_eq (key_of r) j

-- The requests of a run that concern a key, and their answers.
unfoldable pub requests_of : Key → List Request → List Request
requests_of k [] = []
requests_of k (r ∷ rs) = let rest = requests_of k rs in if concerns k r then r ∷ rest else rest

unfoldable pub answers_of : Key → List Request → List (List Byte) → List (List Byte)
answers_of k [] answers = []
answers_of k (r ∷ rs) [] = []
answers_of k (r ∷ rs) (answer ∷ answers) =
    let rest = answers_of k rs answers in if concerns k r then answer ∷ rest else rest

-- The same run on a function from keys.
unfoldable pub replay : ℕ → List Request → (Key → Cell) → List (List Byte) × (Key → Cell)
replay w [] m = ([], m)
replay w (r ∷ rs) m =
    let answer = (cell w r (m (key_of r))).0 in
    let m' : Key → Cell = λ j. if concerns j r then (cell w r (m j)).1 else m j in
    let (answers, last) = replay w rs m' in (answer ∷ answers, last)
