-- ===== src/Query/Laws.antt =====
-- What a client reads back of what it wrote.
use mathlib.Core.Option
use mathlib.Core.Path.{ap₂}
use throttr.Prelude.{
  ℕ, ◌+◌, ◌-◌, ◌*◌, ◌/◌, ◌<◌, List, [], ◌∷◌, ◌++◌, Bool, false, Option, none, some, ◌≡◌, refl, ◌∙◌,
  ap, ◌^◌, bytes_eq_refl, length, take,
}
use throttr.Prelude.Bytes.{le_value, le_bytes}
use throttr.Protocol.{TtlTypes, value_mod, u64_mod}
use throttr.Time.{unit_ns, get_expiration_point, get_ttl}
use throttr.Time.Laws.{get_ttl-get_expiration_point}
use throttr.Entry.{Key, Entry, EntryWrapper, make_entry}
use throttr.Storage.{HashedUnique}
use throttr.Storage.Views.{view}
use throttr.State.{State, success_response, failed_response}
use throttr.Finder.{find_or_fail}
use throttr.Finder.Laws.{live_entry, entry_of, view-find_or_fail, find_or_fail_lem}
use throttr.Create.{set_command}
use throttr.Create.Laws.{written, holds_counter, set_command_lem}
use throttr.Query.{Byte, fixed, unit_of, fixed_bytes, query_response, query_found, query_command}

-- The mark of expiry of what a key holds.
abbrev pub marked : Option EntryWrapper → Bool
marked none = false
marked (some e) = e.expired

-- What the socket is given of a batch when it writes it while the keys hold what is given, as long as
-- no entry that the batch points to was erased since. `ttl_code` gives the byte of a unit, which the
-- protocol library chooses.
abbrev pub shown_unit : (TtlTypes → ℕ) → Option (Entry × Bool) → Option (List ℕ) → Option (List ℕ)
shown_unit ttl_code none rest = none
shown_unit ttl_code (some (e, expired)) rest = Option.map (λ bs. ttl_code e.ttl_type ∷ bs) rest

unfoldable pub shown : (TtlTypes → ℕ) → (Key → Option (Entry × Bool)) → List Byte → Option (List ℕ)
shown ttl_code m [] = some []
shown ttl_code m (fixed b ∷ bs) = Option.map (λ rest. b ∷ rest) (shown ttl_code m bs)
shown ttl_code m (unit_of k ∷ bs) = shown_unit ttl_code (m k) (shown ttl_code m bs)

shown-fixed_bytes :
    (ttl_code : TtlTypes → ℕ) (m : Key → Option (Entry × Bool)) (bs : List ℕ) (rest : List Byte)
    → shown ttl_code m (fixed_bytes bs ++ rest)
      ≡ Option.map (λ more. bs ++ more) (shown ttl_code m rest)
unfolding shown
shown-fixed_bytes ttl_code m [] rest = map_nothing (shown ttl_code m rest)
  where
    map_nothing : (o : Option (List ℕ)) → o ≡ Option.map (λ more. [] ++ more) o
    map_nothing none = refl
    map_nothing (some x) = refl
shown-fixed_bytes ttl_code m (b ∷ bs) rest =
    ap (Option.map (λ more. b ∷ more)) (shown-fixed_bytes ttl_code m bs rest)
    ∙ map_map (shown ttl_code m rest)
  where
    map_map :
        (o : Option (List ℕ))
        → Option.map (λ more. b ∷ more) (Option.map (λ more. bs ++ more) o)
          ≡ Option.map (λ more. b ∷ (bs ++ more)) o
    map_map none = refl
    map_map (some x) = refl

shown_all :
    (ttl_code : TtlTypes → ℕ) (m : Key → Option (Entry × Bool)) (bs : List ℕ)
    → shown ttl_code m (fixed_bytes bs) ≡ some bs
unfolding shown
shown_all ttl_code m [] = refl
shown_all ttl_code m (b ∷ bs) = rw (shown_all ttl_code m bs) refl

abbrev pub read_answer : ℕ → ℕ → Bool → Key → Option Entry → List Byte
read_answer w now as_query k none = fixed failed_response ∷ []
read_answer w now as_query k (some e) = query_response w now as_query k e

query_found-read_answer :
    (w now : ℕ) (as_query : Bool) (k : Key) (o : Option EntryWrapper)
    → query_found w now as_query k o ≡ read_answer w now as_query k (entry_of o)
unfolding query_found
query_found-read_answer w now as_query k none = refl
query_found-read_answer w now as_query k (some e) = refl

-- What is shown of a `get` that is written while the key holds an entry with a unit.
shown-get :
    (ttl_code : TtlTypes → ℕ) (m : Key → Option (Entry × Bool)) (k : Key) (e : Entry)
    (expired : Bool) (xs ys zs : List ℕ)
    → m k ≡ some (e, expired)
    → shown ttl_code m (
        fixed success_response ∷ unit_of k ∷ (fixed_bytes xs ++ (fixed_bytes ys ++ fixed_bytes zs)))
      ≡ some (success_response ∷ ttl_code e.ttl_type ∷ (xs ++ (ys ++ zs)))
unfolding shown
shown-get ttl_code m k e expired xs ys zs h =
    let tail : shown ttl_code m (fixed_bytes zs) ≡ some zs = shown_all ttl_code m zs in
    rw
      (
        h,
        shown-fixed_bytes ttl_code m xs (fixed_bytes ys ++ fixed_bytes zs),
        shown-fixed_bytes ttl_code m ys (fixed_bytes zs),
        tail,
      )
      refl

module _ {S : Type 0} (c : HashedUnique S) where
  -- query and get answer by the live entry of their key, or fail, and change no contents.
  pub query_command_lem :
      (w now : ℕ) (as_query : Bool) (st : State S) (k : Key)
      → let r = query_command c w now as_query st k in
        (r.0 ≡ read_answer w now as_query k (live_entry (view c st.storage k)))
        × ((j : Key) → view c r.1.storage j ≡ view c st.storage j)
  unfolding query_command
  query_command_lem w now as_query st k = (
    query_found-read_answer w now as_query k (find_or_fail c st k).0
        ∙ ap (read_answer w now as_query k) (find_or_fail_lem c st k),
    view-find_or_fail c st k,
  )

  get_written :
      (w now : ℕ) (k : Key) (value : List ℕ) (t : TtlTypes) (at : ℕ) (found : Option EntryWrapper)
      → marked found ≡ false
      → read_answer w now false k (live_entry (some (written w value t at found)))
        ≡ fixed success_response
          ∷ unit_of k
          ∷ (fixed_bytes (le_bytes w (get_ttl w now at t))
              ++ (fixed_bytes (le_bytes w (length value)) ++ fixed_bytes value))
  unfolding query_response make_entry
  get_written w now k value t at none h = refl
  get_written w now k value t at (some e) h = rw h

  written_unit :
      (w : ℕ) (value : List ℕ) (t : TtlTypes) (at : ℕ) (found : Option EntryWrapper)
      → (written w value t at found).0.ttl_type ≡ t
  unfolding make_entry
  written_unit w value t at none = refl
  written_unit w value t at (some e) = refl

  -- A get e nanoseconds after an accepted set of a key that holds no counter and no entry marked
  -- as expired answers, as the socket would write it at once, the unit, the whole units that are
  -- left of the time to live, the size and the bytes of the value; where the count of the time to
  -- live fits a value, it is below 2^63 nanoseconds, and the expiration point fits 64 bits.
  pub query_command-set_command :
      (ttl_code : TtlTypes → ℕ) (w now e : ℕ) (st : State S) (k : Key) (value : List ℕ)
      (t : TtlTypes) (ttl : List ℕ)
      → holds_counter (c.find st.storage k) ≡ false
      → marked (c.find st.storage k) ≡ false
      → now + le_value (take w ttl) * unit_ns t < u64_mod
      → le_value (take w ttl) < value_mod w
      → le_value (take w ttl) * unit_ns t < 2 ^ 63
      → let r = query_command c w (now + e) false (set_command c w now st k value t ttl).1 k in
        shown ttl_code (view c r.1.storage) r.0
        ≡ some (
            success_response
            ∷ ttl_code t
            ∷ (le_bytes w ((le_value (take w ttl) * unit_ns t - e) / unit_ns t)
                ++ (le_bytes w (length value) ++ value)))
  query_command-set_command ttl_code w now e st k value t ttl free alive small fits short =
      let st' : State S = (set_command c w now st k value t ttl).1 in
      let at : ℕ = get_expiration_point w now t ttl in
      let entry : Entry × Bool = written w value t at (c.find st.storage k) in
      let after = query_command c w (now + e) false st' k in
      let held : view c st'.storage k ≡ some entry =
        (set_command_lem c w now st k value t ttl).1 k ∙ rw (free, bytes_eq_refl k) in
      let answer =
        (query_command_lem w (now + e) false st' k).0
        ∙ ap (λ v. read_answer w (now + e) false k (live_entry v)) held
        ∙ get_written w (now + e) k value t at (c.find st.storage k) alive in
      ap (shown ttl_code (view c after.1.storage)) answer
      ∙ shown-get ttl_code (view c after.1.storage) k entry.0 entry.1
          (le_bytes w (get_ttl w (now + e) at t)) (le_bytes w (length value)) value
          ((query_command_lem w (now + e) false st' k).1 k ∙ held)
      ∙ ap₂
          (λ (unit left : ℕ).
            some
              (success_response ∷ unit ∷ (le_bytes w left ++ (le_bytes w (length value) ++ value))))
          (ap ttl_code (written_unit w value t at (c.find st.storage k)))
          (get_ttl-get_expiration_point w now t ttl e small fits short)
