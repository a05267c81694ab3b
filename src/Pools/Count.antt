-- ===== src/Pools/Count.antt =====
-- How often an object is in a list, and what the operations on circular buffers do to it.
use throttr.Prelude.{
  ℕ, zero, suc, ◌+◌, ◌≤◌, List, [], ◌∷◌, ◌++◌, Bool, true, false, ◌==◌, ◌≡◌, inl, inr, refl, ap,
  arith, length, length-append, length-drop, take, drop, ltb, Bool-cases,
}
use throttr.Circular.{CircularBuffer}
use throttr.Pools.{last_of}

abbrev pub one_if : Bool → ℕ
one_if true = 1
one_if false = 0

unfoldable pub count_of : ℕ → List ℕ → ℕ
count_of i [] = 0
count_of i (x ∷ xs) = one_if (x == i) + count_of i xs

pub count_of-append :
    (i : ℕ) (xs ys : List ℕ) → count_of i (xs ++ ys) ≡ count_of i xs + count_of i ys
unfolding count_of
count_of-append i [] ys = omega arith
count_of-append i (x ∷ xs) ys = omega (arith, count_of-append i xs ys)

pub count_of-one : (i m : ℕ) → count_of i (m ∷ []) ≡ one_if (m == i)
unfolding count_of
count_of-one i m = omega arith

pub count_of-cons : (i m : ℕ) (ms : List ℕ) → count_of i (m ∷ ms) ≡ one_if (m == i) + count_of i ms
unfolding count_of
count_of-cons i m ms = refl

pub count_of-take : (i n : ℕ) (xs : List ℕ) → count_of i (take n xs) ≤ count_of i xs
unfolding count_of
count_of-take i zero xs = omega arith
count_of-take i (suc n) [] = omega arith
count_of-take i (suc n) (x ∷ xs) = omega (arith, count_of-take i n xs)

pub count_of-drop_one : (i : ℕ) (xs : List ℕ) → count_of i (drop 1 xs) ≤ count_of i xs
unfolding count_of
count_of-drop_one i [] = omega arith
count_of-drop_one i (x ∷ xs) = omega arith

pub count_of-last_of :
    (i x : ℕ) (xs : List ℕ)
    → let l = last_of x xs in count_of i (x ∷ xs) ≡ count_of i l.0 + one_if (l.1 == i)
unfolding count_of last_of
count_of-last_of i x [] = omega arith
count_of-last_of i x (y ∷ ys) = omega (arith, count_of-last_of i y ys)

pub length-last_of : (x : ℕ) (xs : List ℕ) → length (last_of x xs).0 ≡ length xs
unfolding last_of
length-last_of x [] = refl
length-last_of x (y ∷ ys) = ap suc (length-last_of y ys)

length_zero : (ms : List ℕ) → length ms ≡ 0 → ms ≡ []
length_zero [] h = refl
length_zero (m ∷ ms) h = absurd (omega arith)

module _ (q : CircularBuffer ℕ) where
  -- What push_back does to a buffer within its capacity.
  pub record IsPush (capacity : ℕ) (ms : List ℕ) (m : ℕ) (after : List ℕ) : Type 0 where
    pub counted : (i : ℕ) → count_of i after ≤ count_of i ms + one_if (m == i)
    pub fits : length after ≤ capacity

  pub push_back-IsPush :
      (capacity : ℕ) (ms : List ℕ) (m : ℕ)
      → length ms ≤ capacity
      → IsPush capacity ms m (q.push_back capacity ms m)
  push_back-IsPush capacity ms m h = elim (Bool-cases (ltb (length ms) capacity)) [
    | inl free ↦ rw (q.push_back_free capacity ms m (ground arith)) (record {
      counted = λ i. omega (arith, count_of-append i ms (m ∷ []), count_of-one i m);
      fits = ground (arith, length-append ms (m ∷ []));
    })
    | inr full ↦ at_end capacity ms (ground arith)
  ]
    where
      at_end : (n : ℕ) (xs : List ℕ) → length xs ≡ n → IsPush n xs m (q.push_back n xs m)
      at_end zero xs e =
          rw (length_zero xs e, q.push_back_none m)
            (record { counted = λ i. omega arith; fits = omega arith })
      at_end (suc n) xs e = rw (q.push_back_full (suc n) xs m e (omega arith)) (record {
        counted = λ i. omega (
          arith,
          count_of-append i (drop 1 xs) (m ∷ []),
          count_of-one i m,
          count_of-drop_one i xs,
        );
        fits = omega (arith, length-append (drop 1 xs) (m ∷ []), length-drop 1 xs);
      })
