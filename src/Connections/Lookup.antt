-- ===== src/Connections/Lookup.antt =====
-- What connection and whoami answer.
use mathlib.Core.List.{flatten}
use throttr.Prelude.{
  ℕ, ◌+◌, List, [], ◌∷◌, ◌++◌, true, not, ◌&&◌, Option, none, some, ◌≡◌, ◌⊎◌, inl, inr, refl, ◌∙◌,
  ap, arith, length, bytes_eq, bytes_eq_iff, Bool-cases, if◌then◌else◌,
}
use throttr.Protocol.{RequestTypes}
use throttr.State.{success_response, failed_response}
use throttr.Subscriptions.{ConnectionMap, tcp, unix, agent_tcp, agent_unix}
use throttr.Reports.{Output, grow, point, put}
use throttr.Reports.Adds.{point-Adds, put-Adds, then_Adds}
use throttr.Connections.{
  ConnectionData, connection_bytes, write_connections_entry_to_buffer, find_connection, is_found,
  write_found, connection_command,
}
use throttr.Connections.Entries.{length-connection_bytes}

abbrev pub or_else : Option ConnectionData → Option ConnectionData → Option ConnectionData
or_else none b = b
or_else (some x) b = some x

-- The first connection with an id.
abbrev pub first_found : List ℕ → (ConnectionMap → List ConnectionData) → Option ConnectionData
first_found id maps = or_else (find_connection id (maps tcp)) (
    or_else (find_connection id (maps unix))
      (or_else (find_connection id (maps agent_unix)) (find_connection id (maps agent_tcp))))

-- What a client is shown for it.
abbrev pub shown : (RequestTypes → ℕ) → Option ConnectionData → List ℕ
shown code none = failed_response ∷ []
shown code (some x) = success_response ∷ connection_bytes code x

abbrev pub respond : (RequestTypes → ℕ) → Option ConnectionData → Output → Output
respond code none o = point (failed_response ∷ []) (record o { reserved = length o.batch + 1 })
respond code (some x) o = write_found code (some x) o

connection_command-first_found :
    (code : RequestTypes → ℕ) (maps : ConnectionMap → List ConnectionData) (id : List ℕ)
    (o : Output)
    → connection_command code maps id o ≡ respond code (first_found id maps) o
unfolding connection_command
connection_command-first_found code maps id o =
    cases (find_connection id (maps tcp)) (find_connection id (maps unix))
      (find_connection id (maps agent_unix)) (find_connection id (maps agent_tcp))
  where
    cases :
        (a b u t : Option ConnectionData)
        → (let found_in_tcp = is_found a in
            let found_in_unix = not found_in_tcp && is_found b in
            let found_in_agent_unix = not found_in_unix && is_found u in
            let found_in_agent_tcp = not found_in_agent_unix && is_found t in
            if not found_in_tcp
              && not found_in_unix
              && not found_in_agent_unix
              && not found_in_agent_tcp
            then point (failed_response ∷ []) (record o { reserved = length o.batch + 1 })
            else if found_in_tcp
            then write_found code a o
            else if found_in_unix
            then write_found code b o
            else if found_in_agent_unix
            then write_found code u o
            else write_found code t o)
          ≡ respond code (or_else a (or_else b (or_else u t))) o
    cases (some x) b u t = refl
    cases none (some x) u t = refl
    cases none none (some x) t = refl
    cases none none none (some x) = refl
    cases none none none none = refl

find_connection-id :
    (id : List ℕ) (xs : List ConnectionData) (x : ConnectionData)
    → find_connection id xs ≡ some x
    → bytes_eq x.id id ≡ true
unfolding find_connection
find_connection-id id [] x e = absurd (cc)
find_connection-id id (y ∷ ys) x e = elim (Bool-cases (bytes_eq y.id id)) [
  | inl hit ↦ ground (arith, hit, e)
  | inr miss ↦ find_connection-id id ys x (rw miss at e)
]

or_else_cases :
    (a b : Option ConnectionData) (x : ConnectionData)
    → or_else a b ≡ some x
    → (a ≡ some x) ⊎ (b ≡ some x)
or_else_cases none b x e = inr e
or_else_cases (some y) b x e = inl e

first_found-id :
    (id : List ℕ) (maps : ConnectionMap → List ConnectionData) (x : ConnectionData)
    → first_found id maps ≡ some x
    → bytes_eq x.id id ≡ true
first_found-id id maps x e = elim (or_else_cases (find_connection id (maps tcp)) _ x e) [
  | inl h ↦ find_connection-id id (maps tcp) x h
  | inr h ↦ elim (or_else_cases (find_connection id (maps unix)) _ x h) [
    | inl h1 ↦ find_connection-id id (maps unix) x h1
    | inr h1 ↦ elim (or_else_cases (find_connection id (maps agent_unix)) _ x h1) [
      | inl h2 ↦ find_connection-id id (maps agent_unix) x h2
      | inr h2 ↦ find_connection-id id (maps agent_tcp) x h2
    ]
  ]
]

respond_lem :
    (code : RequestTypes → ℕ) (found : Option ConnectionData) (o : Output)
    → o.batch ≡ []
    → o.offset ≡ o.size
    → ((x : ConnectionData) → found ≡ some x → length x.id ≡ 16)
    → (flatten (respond code found o).batch ≡ shown code found)
      × ((respond code found o).offset ≡ (respond code found o).size)
unfolding write_found write_connections_entry_to_buffer grow point put flatten
respond_lem code none o fresh behind uuid = (rw fresh refl, behind)
respond_lem code (some x) o fresh behind uuid =
    let start = grow 32 237 o in
    let all =
      then_Adds {s'' = 2} {a'' = 237} (point-Adds (success_response ∷ []) start)
        (put-Adds (connection_bytes code x) _) refl
        (omega (arith, length-connection_bytes code x (uuid x refl))) in
    (
      all.shows
          ∙ ap (λ (b : List (List ℕ)). flatten b ++ (success_response ∷ connection_bytes code x))
              fresh,
      omega (arith, all.offset_eq, all.size_eq),
    )

-- connection answers failure when no map has the id, and otherwise the status and the bytes of a
-- connection with that id, of clients before agents; write_buffer is filled to its end; for an id
-- of 16 bytes, and a batch and an offset as a new message has them.
pub connection_command_lem :
    (code : RequestTypes → ℕ) (maps : ConnectionMap → List ConnectionData) (id : List ℕ)
    (o : Output)
    → o.batch ≡ []
    → o.offset ≡ o.size
    → length id ≡ 16
    → let o' = connection_command code maps id o in
      (flatten o'.batch ≡ shown code (first_found id maps))
      × (o'.offset ≡ o'.size)
      × ((x : ConnectionData) → first_found id maps ≡ some x → x.id ≡ id)
connection_command_lem code maps id o fresh behind uuid =
    let same : (x : ConnectionData) → first_found id maps ≡ some x → x.id ≡ id =
      λ x e. (bytes_eq_iff x.id id).0 (first_found-id id maps x e) in
    let (bytes, room) =
      respond_lem code (first_found id maps) o fresh behind
        (λ x e. ap (λ (l : List ℕ). length l) (same x e) ∙ uuid) in
    (
      ap (λ (o' : Output). flatten o'.batch) (connection_command-first_found code maps id o)
          ∙ bytes,
      rw (connection_command-first_found code maps id o) room,
      same,
    )
