-- ===== src/Mail/Safety.antt =====
-- The pool never hands out a message that a connection holds.
use mathlib.Core.Path.{subst}
use throttr.Prelude.{
  ℕ, suc, ◌<◌, [], true, ◌≡◌, refl, sym, ◌∙◌, arith, ap, inl, inr, Bool-cases, ◌==◌, none, some,
  Option, false, List, ◌∷◌,
}
use throttr.Circular.{CircularBuffer}
use throttr.Pools.{Pool, default_count, Taken, took, back_of_empty, no_fuel}
use throttr.Pools.Count.{count_of}
use throttr.Pools.Taking.{IsTaken, take_one_lem}
use throttr.Session.{pick}
use throttr.Mail.{
  Mail, Gives, Step, sends, drops, runs, writes, Reachable, starts, goes_on, fill, post, take_off,
  enqueue, give_back,
}
use throttr.Mail.Holding.{held, IsMail}
use throttr.Mail.Moves.{
  fill-IsMail, assign_other, take_off-IsMail, taken-IsMail, post-IsMail, enqueue-IsMail,
}

-- What is known of an object that take_one gave.
abbrev IsGiven : Pool → Taken → Type 0
IsGiven p (took m p') = IsTaken p m p'
IsGiven p (back_of_empty p') = Unit
IsGiven p no_fuel = Unit

write_buffer-take_off :
    (b : Mail) (id : ℕ) (ms : List ℕ)
    → (take_off b id ms).pool.heap.write_buffer ≡ b.pool.heap.write_buffer
unfolding take_off give_back
write_buffer-take_off b id [] = refl
write_buffer-take_off b id (m ∷ ms) = elim (Bool-cases (b.pool.heap.recyclable m)) [
  | inl e ↦ rw e refl
  | inr e ↦ rw e refl
]

module _ (q : CircularBuffer ℕ) where
  pool-enqueue : (b : Mail) (id : ℕ) (o : Option (ℕ × List ℕ)) → (enqueue q b id o).pool ≡ b.pool
  unfolding enqueue
  pool-enqueue b id none = refl
  pool-enqueue b id (some (m, ms)) = refl

  -- A message of the pool is always to be had, and no connection holds it.
  taking : (b : Mail) → IsMail b → (m : ℕ) × (p' : Pool) × Gives q b.pool m p' × IsTaken b.pool m p'
  taking b ok =
      take_one_lem q (suc default_count) default_count b.pool ok.pool (omega arith) ok.wide
        (omega arith)

  given : (b : Mail) (m : ℕ) (p' : Pool) → IsMail b → Gives q b.pool m p' → IsTaken b.pool m p'
  given b m p' ok gives =
      let (n, p1, took_it, taken) = taking b ok in
      subst (IsGiven b.pool) (sym took_it ∙ gives) taken

  step-IsMail : (b b' : Mail) → Step q b b' → IsMail b → IsMail b'
  unfolding fill
  step-IsMail _ _ (sends b id m p' bytes gives) ok =
      let taken = given b m p' ok gives in
      let (ok', unheld) = taken-IsMail b m p' ok taken in
      let b' : Mail = record b { pool = p' } in
      post-IsMail (fill b' m bytes) id m (fill-IsMail b' m bytes ok' taken.busy) unheld taken.known
        taken.busy
  step-IsMail _ _ (drops b m p' bytes gives) ok =
      let taken = given b m p' ok gives in
      fill-IsMail (record b { pool = p' }) m bytes (taken-IsMail b m p' ok taken).0 taken.busy
  step-IsMail _ _ (runs b id i) ok = enqueue-IsMail q b id i (pick i (b.posted id)) refl ok
  step-IsMail _ _ (writes b id) ok = take_off-IsMail b id (b.pending id) refl ok

  Reachable-IsMail : (b : Mail) → Reachable q b → IsMail b
  Reachable-IsMail _ (starts p ok wide) = record {
    pool = ok;
    wide = wide;
    once = λ id m. (unfold count_of in omega arith);
    apart = λ id id' m h h'. absurd (unfold count_of in omega arith);
    known = λ id m h. absurd (unfold count_of in omega arith);
    busy = λ id m h. absurd (unfold count_of in omega arith);
    fits = λ id. omega arith;
  }
  Reachable-IsMail _ (goes_on b b' before step) = step-IsMail b b' step (Reachable-IsMail b before)

  -- Whatever messages are filled and sent to any number of connections, dropped, queued and
  -- written by one thread, from a prepared pool of messages, take_one comes back with an empty
  -- message that no connection holds, posted or pending, and every message that a connection
  -- holds is in use.
  pub take_one-Reachable :
      (b : Mail)
      → Reachable q b
      → (m : ℕ) × (p' : Pool) × Gives q b.pool m p'
        × (p'.heap.write_buffer m ≡ [])
        × ((id : ℕ) → held b id m ≡ 0)
        × ((id i : ℕ) → 0 < held b id i → p'.heap.in_use i ≡ true)
  take_one-Reachable b reached =
      let ok = Reachable-IsMail b reached in
      let (m, p', gives, taken) = taking b ok in
      let (ok', unheld) = taken-IsMail b m p' ok taken in
      (m, p', gives, taken.clean, unheld, ok'.busy)

  -- Whatever messages are filled and sent to any number of connections, dropped, queued and
  -- written by one thread, from a prepared pool of messages, a message that two connections hold,
  -- posted or pending, is held by the same connection, and once.
  pub held-Reachable :
      (b : Mail)
      → Reachable q b
      → (id id' m : ℕ) → 0 < held b id m
      → 0 < held b id' m
      → (id ≡ id') × (held b id m ≡ 1)
  held-Reachable b reached id id' m h h' =
      let ok = Reachable-IsMail b reached in (ok.apart id id' m h h', omega (arith, ok.once id m))

  -- A message that was given is not one that is held.
  other_than_given :
      (b : Mail) (m : ℕ) (p' : Pool) (id i : ℕ)
      → IsMail b
      → IsTaken b.pool m p'
      → 0 < held b id i
      → (i == m) ≡ false
  other_than_given b m p' id i ok taken some_held = elim (Bool-cases (i == m)) [
    | inl same ↦
        let e : i ≡ m = ground arith in
        let none_held = (taken-IsMail b m p' ok taken).1 id in
        absurd (omega (arith, some_held, none_held, ap (held b id) e))
    | inr other ↦ other
  ]

  filled_other :
      (b : Mail) (m : ℕ) (p' : Pool) (bytes : List ℕ) (id i : ℕ)
      → IsMail b
      → IsTaken b.pool m p'
      → 0 < held b id i
      → (fill (record b { pool = p' }) m bytes).pool.heap.write_buffer i
        ≡ b.pool.heap.write_buffer i
  unfolding fill
  filled_other b m p' bytes id i ok taken some_held =
      assign_other p'.heap.write_buffer m bytes i (other_than_given b m p' id i ok taken some_held)
      ∙ taken.others_content i (ok.known id i some_held) (ok.busy id i some_held)

  -- Whatever messages are filled and sent to any number of connections, dropped, queued and
  -- written by one thread, from a prepared pool of messages, no step changes write_buffer_ of a
  -- message that a connection holds, posted or pending; the memory outside it to which its
  -- segments may point is not meant.
  pub write_buffer-Step :
      (b b' : Mail)
      → Reachable q b
      → Step q b b'
      → (id i : ℕ) → 0 < held b id i
      → b'.pool.heap.write_buffer i ≡ b.pool.heap.write_buffer i
  unfolding post take_off enqueue give_back
  write_buffer-Step _ _ reached (sends b id m p' bytes gives) j i some_held =
      let ok = Reachable-IsMail b reached in
      filled_other b m p' bytes j i ok (given b m p' ok gives) some_held
  write_buffer-Step _ _ reached (drops b m p' bytes gives) j i some_held =
      let ok = Reachable-IsMail b reached in
      filled_other b m p' bytes j i ok (given b m p' ok gives) some_held
  write_buffer-Step _ _ reached (runs b id n) j i some_held =
      ap (λ (p : Pool). p.heap.write_buffer i) (pool-enqueue b id (pick n (b.posted id)))
  write_buffer-Step _ _ reached (writes b id) j i some_held =
      ap (λ (f : ℕ → List ℕ). f i) (write_buffer-take_off b id (b.pending id))
