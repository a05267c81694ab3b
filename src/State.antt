-- ===== src/State.antt =====
-- src/include/throttr/state.hpp: the part of the shared state that the storage's commands and the
-- garbage collector use. `S` is the type of the storage's states.
use throttr.Prelude.{ℕ, List, [], ◌∷◌, ◌++◌, Bool, true, false, Option}
use throttr.Entry.{Key}

pub record State (S : Type 0) : Type 0 where
  pub storage : S
  -- `scheduled_key_`, a member that no code assigns
  pub scheduled_key : Key
  -- the calls of `schedule_timer` that were dispatched to the strand, oldest first
  pub dispatched : List ℕ
  -- the time at which `expiration_timer_` fires, if it is armed
  pub expiration_timer : Option ℕ
  -- whether `mutex_` is held
  pub locked : Bool

-- The first byte of a response: `success_response_` and `failed_response_`.
abbrev pub success_response : ℕ
success_response = 0x01

abbrev pub failed_response : ℕ
failed_response = 0x00

abbrev pub status : Bool → ℕ
status true = success_response
status false = failed_response

abbrev pub dispatch : {S : Type 0} → State S → ℕ → State S
dispatch st proposed = record st { dispatched = st.dispatched ++ proposed ∷ [] }
