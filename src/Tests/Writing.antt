-- ===== src/Tests/Writing.antt =====
-- A queue of numbers.
use throttr.Prelude.{
  ℕ, ◌+◌, [], ◌∷◌, ◌++◌, true, false, ◌≡◌, refl, length, replicate, length-replicate, ap,
}
use throttr.Circular.{CircularBuffer}
use throttr.Circular.ListBuffer.{list_buffer}
use throttr.Writes.{capacity, Writer, sends, writes, step}
use throttr.Writes.Order.{on_write-full}

abbrev queue : CircularBuffer ℕ
queue = list_buffer

abbrev full : Writer ℕ
full = record {
  pending = 1 ∷ 2 ∷ 3 ∷ replicate 1_021 0;
  started = 1 ∷ [];
  writing = true;
  closed = false;
}

length-pending_full : length {A = ℕ} (1 ∷ 2 ∷ 3 ∷ replicate 1_021 0) ≡ capacity
length-pending_full = ap (λ (n : ℕ). 3 + n) (length-replicate {A = ℕ} 1_021 0)

on_write-full_example :
    let after = step queue (step queue full (sends 4)) writes in
    (after.pending ≡ 3 ∷ (replicate 1_021 0 ++ 4 ∷ [])) × (after.started ≡ (1 ∷ []) ++ 3 ∷ [])
on_write-full_example =
    on_write-full queue full 4 1 2 3 (replicate 1_021 0) refl length-pending_full
