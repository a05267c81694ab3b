-- ===== src/Startup/Order.antt =====
-- The order of restoring and of preparing the pools.
use throttr.Prelude.{ℕ, zero, suc, ◌*◌, ◌<◌, [], true, ◌≡◌, refl, ap, arith}
use throttr.Circular.{CircularBuffer}
use throttr.Pools.{Heap, Pool, default_count}
use throttr.Pools.Count.{count_of}
use throttr.Pools.Recycling.{IsPool}
use throttr.Pools.Taking.{take_one_unprepared}
use throttr.Startup.{looping, after_take, take_buffers, serve}

-- The pool of a thread before `prepares`.
abbrev pub unprepared : Heap → Pool
unprepared h = record { available = []; used = []; capacity = 0; heap = h }

pub unprepared-IsPool : (h : Heap) → IsPool (unprepared h)
unfolding count_of
unprepared-IsPool h = record {
  once = λ i. omega arith;
  known = λ i pos. absurd (omega arith);
  free = λ i pos. absurd (omega arith);
  available_fits = omega arith;
  used_fits = omega arith;
}

module _ (q : CircularBuffer ℕ) where
  take_buffers-looping :
      (fuel n : ℕ) (h : Heap) → 0 < n → take_buffers q fuel n (unprepared h) ≡ looping
  unfolding take_buffers
  take_buffers-looping fuel zero h pos = absurd (omega arith)
  take_buffers-looping fuel (suc n) h pos =
      ap (λ t. after_take t (take_buffers q fuel n))
        (take_one_unprepared q fuel default_count (unprepared h) (unprepared-IsPool h) refl
          (omega arith))

  -- A persistent server whose dump holds an entry does not get to its run, whatever the fuel: its
  -- main thread asks a pool that it has not prepared for buffers, and is still in the loop of
  -- take_one when the fuel ends.
  pub serve_persistent-looping :
      (fuel entries : ℕ) (h : Heap)
      → 0 < entries
      → serve q fuel true entries (unprepared h) ≡ looping
  unfolding serve
  serve_persistent-looping fuel entries h pos =
      take_buffers-looping fuel (entries * 2) h (omega arith)
