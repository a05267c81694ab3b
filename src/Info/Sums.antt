-- ===== src/Info/Sums.antt =====
-- The totals of info as sums, without the loops of info_command.cpp and without their accumulators.
use throttr.Prelude.{
  ℕ, ◌+◌, ◌%◌, ◌^◌, ◌<◌, List, [], ◌∷◌, ◌++◌, ◌≡◌, arith, length, Bool-cases, inl, inr,
  if◌then◌else◌,
}
use throttr.Entry.{EntryWrapper, is_counter}
use throttr.Metrics.{Metric, ConnectionMetrics}
use throttr.Info.{
  total_requests, total_requests_per_minute, Traffic, accumulate_metrics, Stored, count_one,
  count_stored,
}

abbrev pub total {ℓ} : {A : Type ℓ} → (A → ℕ) → List A → ℕ
total f [] = 0
total f (x ∷ xs) = f x + total f xs

pub total-append {ℓ} :
    {A : Type ℓ} (f : A → ℕ) (xs ys : List A) → total f (xs ++ ys) ≡ total f xs + total f ys
total-append f [] ys = omega arith
total-append f (x ∷ xs) ys = omega (arith, total-append f xs ys)

pub total_requests_lem :
    (ms : List Metric) (sum : ℕ)
    → sum < 2 ^ 64
    → total_requests ms sum ≡ (sum + total (λ m. m.accumulator) ms) % 2 ^ 64
unfolding total_requests
total_requests_lem [] sum h = omega arith
total_requests_lem (m ∷ ms) sum h =
    omega (arith, total_requests_lem ms ((sum + m.accumulator) % 2 ^ 64) (omega arith))

pub total_requests_per_minute_lem :
    (ms : List Metric) (sum : ℕ)
    → sum < 2 ^ 64
    → total_requests_per_minute ms sum ≡ (sum + total (λ m. m.per_minute) ms) % 2 ^ 64
unfolding total_requests_per_minute
total_requests_per_minute_lem [] sum h = omega arith
total_requests_per_minute_lem (m ∷ ms) sum h =
    omega (arith, total_requests_per_minute_lem ms ((sum + m.per_minute) % 2 ^ 64) (omega arith))

-- The traffic of connections, added to another.
pub record HasTraffic (t : Traffic) (xs : List ConnectionMetrics) (u : Traffic) : Type 0 where
  pub read_eq : u.read ≡ (t.read + total (λ x. x.network.read_bytes.accumulator) xs) % 2 ^ 64
  pub write_eq : u.write ≡ (t.write + total (λ x. x.network.write_bytes.accumulator) xs) % 2 ^ 64
  pub read_per_minute_eq :
      u.read_per_minute
      ≡ (t.read_per_minute + total (λ x. x.network.read_bytes.per_minute) xs) % 2 ^ 64
  pub write_per_minute_eq :
      u.write_per_minute
      ≡ (t.write_per_minute + total (λ x. x.network.write_bytes.per_minute) xs) % 2 ^ 64

pub record FitsTraffic (t : Traffic) : Type 0 where
  pub read_lt : t.read < 2 ^ 64
  pub write_lt : t.write < 2 ^ 64
  pub read_per_minute_lt : t.read_per_minute < 2 ^ 64
  pub write_per_minute_lt : t.write_per_minute < 2 ^ 64

pub HasTraffic-Fits :
    (t : Traffic) (xs : List ConnectionMetrics) (u : Traffic) → HasTraffic t xs u → FitsTraffic u
HasTraffic-Fits t xs u a = record {
  read_lt = omega (arith, a.read_eq);
  write_lt = omega (arith, a.write_eq);
  read_per_minute_lt = omega (arith, a.read_per_minute_eq);
  write_per_minute_lt = omega (arith, a.write_per_minute_eq);
}

pub accumulate_metrics-HasTraffic :
    (xs : List ConnectionMetrics) (t : Traffic)
    → FitsTraffic t
    → HasTraffic t xs (accumulate_metrics xs t)
unfolding accumulate_metrics
accumulate_metrics-HasTraffic [] t h = record {
  read_eq = omega (arith, h.read_lt);
  write_eq = omega (arith, h.write_lt);
  read_per_minute_eq = omega (arith, h.read_per_minute_lt);
  write_per_minute_eq = omega (arith, h.write_per_minute_lt);
}
accumulate_metrics-HasTraffic (x ∷ xs) t h =
    let t' : Traffic = record {
      read = (t.read + x.network.read_bytes.accumulator) % 2 ^ 64;
      write = (t.write + x.network.write_bytes.accumulator) % 2 ^ 64;
      read_per_minute = (t.read_per_minute + x.network.read_bytes.per_minute) % 2 ^ 64;
      write_per_minute = (t.write_per_minute + x.network.write_bytes.per_minute) % 2 ^ 64;
    } in
    let ih = accumulate_metrics-HasTraffic xs t' (record {
      read_lt = omega arith;
      write_lt = omega arith;
      read_per_minute_lt = omega arith;
      write_per_minute_lt = omega arith;
    }) in
    record {
      read_eq = omega (arith, ih.read_eq);
      write_eq = omega (arith, ih.write_eq);
      read_per_minute_eq = omega (arith, ih.read_per_minute_eq);
      write_per_minute_eq = omega (arith, ih.write_per_minute_eq);
    }

-- What entries take, added to other counts.
pub record HasStored (w : ℕ) (t : Stored) (es : List EntryWrapper) (u : Stored) : Type 0 where
  pub keys_eq : u.keys ≡ (t.keys + total (λ e. 1) es) % 2 ^ 64
  pub counters_eq :
      u.counters ≡ (t.counters + total (λ e. if is_counter e.entry.type then 1 else 0) es) % 2 ^ 64
  pub buffers_eq :
      u.buffers ≡ (t.buffers + total (λ e. if is_counter e.entry.type then 0 else 1) es) % 2 ^ 64
  pub allocated_on_counters_eq :
      u.allocated_on_counters
      ≡ (t.allocated_on_counters + total (λ e. if is_counter e.entry.type then w else 0) es)
        % 2 ^ 64
  pub allocated_on_buffers_eq :
      u.allocated_on_buffers
      ≡ (t.allocated_on_buffers
          + total (λ e. if is_counter e.entry.type then 0 else length e.entry.buffer) es)
        % 2 ^ 64

pub record FitsStored (t : Stored) : Type 0 where
  pub keys_lt : t.keys < 2 ^ 64
  pub counters_lt : t.counters < 2 ^ 64
  pub buffers_lt : t.buffers < 2 ^ 64
  pub allocated_on_counters_lt : t.allocated_on_counters < 2 ^ 64
  pub allocated_on_buffers_lt : t.allocated_on_buffers < 2 ^ 64

count_one-HasStored :
    (w : ℕ) (e : EntryWrapper) (t : Stored)
    → FitsStored t
    → HasStored w t (e ∷ []) (count_one w e t)
unfolding count_one
count_one-HasStored w e t h = elim (Bool-cases (is_counter e.entry.type)) [
  | inl yes_counter ↦ record {
    keys_eq = omega arith;
    counters_eq = rw yes_counter (omega (arith, h.counters_lt));
    buffers_eq = rw yes_counter (omega (arith, h.buffers_lt));
    allocated_on_counters_eq = rw yes_counter (omega (arith, h.allocated_on_counters_lt));
    allocated_on_buffers_eq = rw yes_counter (omega (arith, h.allocated_on_buffers_lt));
  }
  | inr other ↦ record {
    keys_eq = omega arith;
    counters_eq = rw other (omega (arith, h.counters_lt));
    buffers_eq = rw other (omega (arith, h.buffers_lt));
    allocated_on_counters_eq = rw other (omega (arith, h.allocated_on_counters_lt));
    allocated_on_buffers_eq = rw other (omega (arith, h.allocated_on_buffers_lt));
  }
]

pub count_stored-HasStored :
    (w : ℕ) (es : List EntryWrapper) (t : Stored)
    → FitsStored t
    → HasStored w t es (count_stored w es t)
unfolding count_stored
count_stored-HasStored w [] t h = record {
  keys_eq = omega (arith, h.keys_lt);
  counters_eq = omega (arith, h.counters_lt);
  buffers_eq = omega (arith, h.buffers_lt);
  allocated_on_counters_eq = omega (arith, h.allocated_on_counters_lt);
  allocated_on_buffers_eq = omega (arith, h.allocated_on_buffers_lt);
}
count_stored-HasStored w (e ∷ es) t h =
    let one = count_one-HasStored w e t h in
    let ih = count_stored-HasStored w es (count_one w e t) (record {
      keys_lt = omega (arith, one.keys_eq);
      counters_lt = omega (arith, one.counters_eq);
      buffers_lt = omega (arith, one.buffers_eq);
      allocated_on_counters_lt = omega (arith, one.allocated_on_counters_eq);
      allocated_on_buffers_lt = omega (arith, one.allocated_on_buffers_eq);
    }) in
    record {
      keys_eq = omega (arith, one.keys_eq, ih.keys_eq);
      counters_eq = omega (arith, one.counters_eq, ih.counters_eq);
      buffers_eq = omega (arith, one.buffers_eq, ih.buffers_eq);
      allocated_on_counters_eq =
          omega (arith, one.allocated_on_counters_eq, ih.allocated_on_counters_eq);
      allocated_on_buffers_eq =
          omega (arith, one.allocated_on_buffers_eq, ih.allocated_on_buffers_eq);
    }
