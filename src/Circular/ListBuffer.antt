-- ===== src/Circular/ListBuffer.antt =====
-- A buffer that meets the laws of boost::circular_buffer: a list.
use throttr.Prelude.{
  ℕ, ◌<◌, ◌∷◌, [], ◌++◌, List, ◌==◌, ◌≡◌, refl, arith, length, drop, if◌then◌else◌,
}
use throttr.Circular.{CircularBuffer}

module _ {M : Type 0} where
  unfoldable pub push : ℕ → List M → M → List M
  push capacity ms m =
      if capacity == 0 then ms else (if length ms == capacity then drop 1 ms else ms) ++ m ∷ []

  pub push_free :
      (capacity : ℕ) (ms : List M) (m : M)
      → length ms < capacity
      → push capacity ms m ≡ ms ++ m ∷ []
  unfolding push
  push_free capacity ms m h = ground arith

  pub push_full :
      (capacity : ℕ) (ms : List M) (m : M)
      → length ms ≡ capacity
      → 0 < capacity
      → push capacity ms m ≡ drop 1 ms ++ m ∷ []
  unfolding push
  push_full capacity ms m h pos = ground arith

  pub push_none : (m : M) → push 0 [] m ≡ []
  unfolding push
  push_none m = refl

  abbrev pub list_buffer : CircularBuffer M
  list_buffer = record {
    push_back = push;
    push_back_free = push_free;
    push_back_full = push_full;
    push_back_none = push_none;
  }
