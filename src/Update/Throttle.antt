-- ===== src/Update/Throttle.antt =====
-- update_command as a rate limiter: requests that decrease a quota, one after another.
use throttr.Prelude.{
  ℕ, ◌+◌, List, [], ◌∷◌, Bool, true, false, some, ◌≡◌, refl, ◌∙◌, ap, arith, bytes_eq_refl, ◌==◌,
}
use throttr.Protocol.{quota, decrease}
use throttr.Entry.{Key, Entry, is_counter}
use throttr.Storage.{HashedUnique}
use throttr.Storage.Views.{view}
use throttr.State.{State, status, success_response}
use throttr.Update.{RequestUpdate, apply_quota_change, modification, update_command}
use throttr.Update.Quota.{taken, decrease_lem, type-decrease}
use throttr.Update.Laws.{update_command_lem}

module _ {S : Type 0} (c : HashedUnique S) where
  -- Requests that decrease the quota of one key, one after another at any times: the sum of the
  -- values that were answered with success, and the state.
  unfoldable pub decrease_commands : ℕ → Key → State S → List (ℕ × ℕ) → ℕ × State S
  decrease_commands w k st [] = (0, st)
  decrease_commands w k st ((now, v) ∷ rs) =
      let r : RequestUpdate = record { attribute = quota; change = decrease; value = v; key = k } in
      let (answer, st') = update_command c w now st r in
      let (total, last) = decrease_commands w k st' rs in
      (taken (answer == success_response) v + total, last)

  -- One such request to a live counter.
  decrease_step :
      (w now v : ℕ) (k : Key) (st : State S) (e : Entry)
      → view c st.storage k ≡ some (e, false)
      → is_counter e.type ≡ true
      → let r : RequestUpdate = record {
        attribute = quota;
        change = decrease;
        value = v;
        key = k;
      } in
        let u = update_command c w now st r in
        let m = apply_quota_change w e decrease v in
        (u.0 ≡ status m.0) × (view c u.1.storage k ≡ some (m.1, false)) × (m.1.type ≡ e.type)
  unfolding modification
  decrease_step w now v k st e h counts =
      let r : RequestUpdate = record { attribute = quota; change = decrease; value = v; key = k } in
      let law = update_command_lem c w now st r in
      (
        law.0 ∙ rw (h, counts) refl,
        law.1 k ∙ rw (h, counts, bytes_eq_refl k) refl,
        type-decrease w e v,
      )

  taken-status : (done : Bool) (v : ℕ) → taken (status done == success_response) v ≡ taken done v
  taken-status true v = refl
  taken-status false v = refl

  -- Update requests that decrease the quota of one live counter, in any number, with any values
  -- and at any times: the values that were answered with success and the counter that is left add
  -- up to the counter that was there, and the key still holds a live counter.
  pub decrease_commands_conserve :
      (w : ℕ) (k : Key) (st : State S) (rs : List (ℕ × ℕ)) (e : Entry)
      → view c st.storage k ≡ some (e, false)
      → is_counter e.type ≡ true
      → let r = decrease_commands w k st rs in
        (x : Entry) × (view c r.1.storage k ≡ some (x, false))
        × (is_counter x.type ≡ true)
        × (r.0 + x.counter ≡ e.counter)
  unfolding decrease_commands
  decrease_commands_conserve w k st [] e h counts = (e, h, counts, omega arith)
  decrease_commands_conserve w k st ((now, v) ∷ rs) e h counts =
      let r : RequestUpdate = record { attribute = quota; change = decrease; value = v; key = k } in
      let u : ℕ × State S = update_command c w now st r in
      let m : Bool × Entry = apply_quota_change w e decrease v in
      let one = decrease_step w now v k st e h counts in
      let (x, held, still, total) =
        decrease_commands_conserve w k u.1 rs m.1 one.1 (ap is_counter one.2 ∙ counts) in
      let granted : taken (u.0 == success_response) v ≡ taken m.0 v =
        ap (λ (a : ℕ). taken (a == success_response) v) one.0 ∙ taken-status m.0 v in
      (x, held, still, omega (arith, granted, (decrease_lem w e v).1, total))
