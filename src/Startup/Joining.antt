-- ===== src/Startup/Joining.antt =====
-- Which connections the state knows after accepts and connects.
use mathlib.Core.List.{append-nil}
use throttr.Prelude.{
  ℕ, zero, suc, ◌+◌, ◌*◌, List, [], ◌∷◌, ◌++◌, Bool, true, false, not, ◌&&◌, ◌||◌, none, some, ◌≡◌,
  refl, sym, ◌∙◌, ap, Bool-cases, inl, inr, arith, ◌==◌, replicate,
}
use throttr.Subscriptions.{SubscriptionContainer, ConnectionMap, tcp, unix}
use throttr.Members.{
  Transport, tcp_socket, unix_socket, client, agent, map_of, Members, has_id, try_emplace,
  update_map, join,
}
use throttr.Startup.Accepting.{
  Accept, pause_seconds, on_accept, accept_all, for_transport, try_to_connect,
}

abbrev same_transport : Transport → Transport → Bool
same_transport tcp_socket tcp_socket = true
same_transport unix_socket unix_socket = true
same_transport tcp_socket unix_socket = false
same_transport unix_socket tcp_socket = false

-- Whether a connection with an id was accepted over a transport.
unfoldable pub accepted : Transport → ℕ → List Accept → Bool
accepted t i [] = false
accepted t i (a ∷ rest) =
    (not a.failed && same_transport a.transport t && a.id == i) || accepted t i rest

has_id-try_emplace_or :
    (i id : ℕ) (xs : List ℕ) → has_id i (try_emplace id xs) ≡ (has_id i xs || id == i)
unfolding try_emplace has_id
has_id-try_emplace_or i id xs = ground arith

or_assoc : (a b c : Bool) → ((a || b) || c) ≡ (a || (b || c))
or_assoc true b c = refl
or_assoc false b c = refl

or_false : (b : Bool) → (b || false) ≡ b
or_false true = refl
or_false false = refl

has_id-update_map :
    (t' t : Transport) (i id : ℕ) (maps : ConnectionMap → List ℕ)
    → has_id i (update_map (map_of t' client) (try_emplace id) maps (map_of t client))
      ≡ (has_id i (maps (map_of t client)) || (same_transport t' t && id == i))
unfolding map_of
has_id-update_map tcp_socket tcp_socket i id maps = has_id-try_emplace_or i id (maps tcp)
has_id-update_map tcp_socket unix_socket i id maps = ground (arith, or_false (has_id i (maps unix)))
has_id-update_map unix_socket tcp_socket i id maps = ground (arith, or_false (has_id i (maps tcp)))
has_id-update_map unix_socket unix_socket i id maps = has_id-try_emplace_or i id (maps unix)

module _ {S : Type 0} (c : SubscriptionContainer S) (uuid : ℕ → List ℕ) where
  has_id-on_accept :
      (st : Members S) (a : Accept) (t : Transport) (i : ℕ)
      → has_id i ((on_accept c uuid st a).maps (map_of t client)) ≡ (
          has_id i (st.maps (map_of t client))
          || (not a.failed && same_transport a.transport t && a.id == i))
  unfolding on_accept join
  has_id-on_accept st a t i = elim (Bool-cases a.failed) [
    | inl e ↦ rw e (sym (or_false (has_id i (st.maps (map_of t client)))))
    | inr e ↦ rw e (has_id-update_map a.transport t i a.id st.maps)
  ]

  -- After accepts the state knows a client of a transport exactly when it knew it before or an
  -- accept over this transport that did not fail gave it.
  pub has_id-accept_all :
      (st : Members S) (accepts : List Accept) (t : Transport) (i : ℕ)
      → has_id i ((accept_all c uuid st accepts).maps (map_of t client))
        ≡ (has_id i (st.maps (map_of t client)) || accepted t i accepts)
  unfolding accept_all accepted
  has_id-accept_all st [] t i = sym (or_false (has_id i (st.maps (map_of t client))))
  has_id-accept_all st (a ∷ rest) t i =
      has_id-accept_all (on_accept c uuid st a) rest t i
      ∙ ap (λ (b : Bool). b || accepted t i rest) (has_id-on_accept st a t i)
      ∙ or_assoc (has_id i (st.maps (map_of t client)))
          (not a.failed && same_transport a.transport t && a.id == i) (accepted t i rest)

  retries :
      (t : Transport) (now then_now id n : ℕ) (rest : List Bool) (slept : ℕ) (st : Members S)
      → try_to_connect c uuid t now then_now id (replicate n false ++ rest) slept st
        ≡ try_to_connect c uuid t now then_now id rest (slept + n * pause_seconds) st
  unfolding try_to_connect for_transport
  retries t now then_now id zero rest slept st =
      ap (λ (k : ℕ). try_to_connect c uuid t now then_now id rest k st) (omega arith)
  retries t now then_now id (suc n) rest slept st =
      retries t now then_now id n rest (slept + pause_seconds) st
      ∙ ap (λ (k : ℕ). try_to_connect c uuid t now then_now id rest k st) (omega arith)

  -- An agent whose attempts fail is still trying; it joins the state as an agent at the first
  -- attempt that succeeds, after five seconds for each one before.
  pub try_to_connect_lem :
      (t : Transport) (now then_now id n : ℕ) (rest : List Bool) (st : Members S)
      → (try_to_connect c uuid t now then_now id (replicate n false) 0 st ≡ none)
        × (try_to_connect c uuid t now then_now id (replicate n false ++ true ∷ rest) 0 st
            ≡ some (n * pause_seconds, join c uuid now then_now t agent id st))
  unfolding try_to_connect for_transport
  try_to_connect_lem t now then_now id n rest st = (
    ap (λ (os : List Bool). try_to_connect c uuid t now then_now id os 0 st)
          (sym (append-nil (replicate n false)))
        ∙ retries t now then_now id n [] 0 st,
    retries t now then_now id n (true ∷ rest) 0 st
        ∙ ap some (ap (λ (k : ℕ). (k, join c uuid now then_now t agent id st)) (omega arith)),
  )
