-- ===== src/Startup.antt =====
-- src/sources/app.cpp and src/sources/state/shutdown.cpp: what the main thread of app::serve does
-- between the start of the other threads and its own `run`, as far as its pool of buffers is
-- concerned. Each entry that is restored takes two buffers, one for `_new_entry` and one for the
-- entry that is emplaced.
pub mod Order
pub mod Options
pub mod Dumping
pub mod Accepting
pub mod Joining
use throttr.Prelude.{ℕ, zero, suc, ◌*◌, Bool, true, false, if◌then◌else◌}
use throttr.Circular.{CircularBuffer}
use throttr.Pools.{Pool, Taken, took, back_of_empty, no_fuel, default_count, take_one, prepares}

-- The thread reaches `run` with a pool, meets undefined behaviour, or is still in a loop of
-- take_one when the fuel ends.
pub data Started : Type 0 where
  running : Pool → Started
  undefined : Started
  looping : Started

abbrev pub after_take : Taken → (Pool → Started) → Started
after_take (took m p) rest = rest p
after_take (back_of_empty p) rest = undefined
after_take no_fuel rest = looping

module _ (q : CircularBuffer ℕ) where
  -- app::boot, up to `run`.
  unfoldable pub boot : Pool → Started
  boot p = running (prepares q default_count p)

  -- The buffers that a restore takes, before the thread goes on to boot.
  unfoldable pub take_buffers : ℕ → ℕ → Pool → Started
  take_buffers fuel zero p = boot p
  take_buffers fuel (suc n) p = after_take (take_one q fuel default_count p) (take_buffers fuel n)

  -- state::prepare_for_startup with a dump of so many entries, and then app::boot.
  unfoldable pub serve : ℕ → Bool → ℕ → Pool → Started
  serve fuel persistent entries p = if persistent then take_buffers fuel (entries * 2) p else boot p
