-- ===== src/Circular.antt =====
-- boost::circular_buffer, which the queues of connections and the pools are. It is not part of the
-- repository: a parameter, with the laws that its documentation gives of push_back.
pub mod ListBuffer
use throttr.Prelude.{ℕ, ◌<◌, List, ◌∷◌, [], ◌++◌, ◌≡◌, length, drop}

pub record CircularBuffer (M : Type 0) : Type 0 where
  -- push_back on a buffer of a capacity
  pub push_back : ℕ → List M → M → List M
  pub push_back_free :
      (capacity : ℕ) (ms : List M) (m : M)
      → length ms < capacity
      → push_back capacity ms m ≡ ms ++ m ∷ []
  -- A full buffer gives up its first element.
  pub push_back_full :
      (capacity : ℕ) (ms : List M) (m : M)
      → length ms ≡ capacity
      → 0 < capacity
      → push_back capacity ms m ≡ drop 1 ms ++ m ∷ []
  -- A buffer without capacity takes nothing.
  pub push_back_none : (m : M) → push_back 0 [] m ≡ []
