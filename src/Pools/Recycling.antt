-- ===== src/Pools/Recycling.antt =====
-- What recycle does to a pool.
use throttr.Prelude.{
  ℕ, ◌+◌, ◌≤◌, ◌<◌, List, [], ◌∷◌, true, false, ◌==◌, ◌≡◌, ◌⊎◌, inl, inr, refl, sym, ◌∙◌, ap, arith,
  length, Bool-cases,
}
use throttr.Circular.{CircularBuffer}
use throttr.Pools.{Heap, Pool, clear, release, remove_if, recycle}
use throttr.Pools.Count.{one_if, count_of, IsPush, push_back-IsPush}

-- An object that nobody holds, with nothing in it.
abbrev pub IsFree : Heap → ℕ → Type 0
IsFree h i = (h.in_use i ≡ false) × (h.write_buffer i ≡ [])

-- The objects of available_ are free, no object is in the pool twice, and nothing is over capacity.
pub record IsPool (p : Pool) : Type 0 where
  pub once : (i : ℕ) → count_of i p.available + count_of i p.used ≤ 1
  pub known : (i : ℕ) → 0 < count_of i p.available + count_of i p.used → i < p.heap.next
  pub free : (i : ℕ) → 0 < count_of i p.available → IsFree p.heap i
  pub available_fits : length p.available ≤ p.capacity
  pub used_fits : length p.used ≤ p.capacity

-- What the loop of recycle leaves of a pool and a list of used objects.
pub record IsRecycled (p : Pool) (ms : List ℕ) (r : Pool × List ℕ) : Type 0 where
  pub counted :
      (i : ℕ) → count_of i r.0.available + count_of i r.1 ≤ count_of i p.available + count_of i ms
  pub same_use : r.0.heap.in_use ≡ p.heap.in_use
  pub same_next : r.0.heap.next ≡ p.heap.next
  pub same_capacity : r.0.capacity ≡ p.capacity
  pub fits : length r.0.available ≤ p.capacity
  pub kept_fits : length r.1 ≤ length ms
  pub free : (i : ℕ) → 0 < count_of i r.0.available → IsFree r.0.heap i
  pub kept_in_use : (i : ℕ) → 0 < count_of i r.1 → p.heap.in_use i ≡ true
  pub same_content :
      (i : ℕ) → p.heap.in_use i ≡ true → r.0.heap.write_buffer i ≡ p.heap.write_buffer i

-- Clearing an object that is not in use keeps what is in those that are.
write_buffer-clear :
    (h : Heap) (m i : ℕ)
    → h.in_use m ≡ false
    → h.in_use i ≡ true
    → (clear h m).write_buffer i ≡ h.write_buffer i
write_buffer-clear h m i idle busy = elim (Bool-cases (i == m)) [
  | inl same ↦ let e : i ≡ m = ground arith in absurd (cc (ap h.in_use e, idle, busy))
  | inr other ↦ rw other
]

module _ (q : CircularBuffer ℕ) where
  -- An object that is not in use, put back.
  release-IsFree :
      (p : Pool) (m : ℕ)
      → length p.available ≤ p.capacity
      → p.heap.in_use m ≡ false
      → ((i : ℕ) → 0 < count_of i p.available → IsFree p.heap i)
      → (i : ℕ) → 0 < count_of i (release q p m).available
      → IsFree (release q p m).heap i
  unfolding release
  release-IsFree p m fits idle all i pos = elim (Bool-cases (m == i)) [
    | inl same ↦ cleared (ground arith)
    | inr other ↦ kept other (all i (ground (arith, push.counted i)))
  ]
    where
      push : IsPush q p.capacity p.available m (q.push_back p.capacity p.available m)
      push = push_back-IsPush q p.capacity p.available m fits

      cleared : m ≡ i → IsFree (clear p.heap m) i
      cleared e = (ap p.heap.in_use (sym e) ∙ idle, ground arith)

      kept : (m == i) ≡ false → IsFree p.heap i → IsFree (clear p.heap m) i
      kept other h = (h.0, ground (arith, h.1))

  remove_if-IsRecycled :
      (p : Pool) (ms : List ℕ)
      → length p.available ≤ p.capacity
      → ((i : ℕ) → 0 < count_of i p.available → IsFree p.heap i)
      → IsRecycled p ms (remove_if q p ms)
  unfolding remove_if release count_of
  remove_if-IsRecycled p [] fits all = record {
    counted = λ i. omega arith;
    same_use = refl;
    same_next = refl;
    same_capacity = refl;
    fits = fits;
    kept_fits = omega arith;
    free = all;
    kept_in_use = λ i pos. absurd (omega arith);
    same_content = λ i busy. refl;
  }
  remove_if-IsRecycled p (m ∷ ms) fits all = elim (Bool-cases (p.heap.in_use m)) [
    | inl busy ↦ rw busy (stays busy (remove_if-IsRecycled p ms fits all))
    | inr idle ↦ rw idle (
        goes idle (
          remove_if-IsRecycled (release q p m) ms (pushed.fits) (release-IsFree p m fits idle all)))
  ]
    where
      pushed : IsPush q p.capacity p.available m (q.push_back p.capacity p.available m)
      pushed = push_back-IsPush q p.capacity p.available m fits

      in_use_of :
          p.heap.in_use m ≡ true
          → IsRecycled p ms (remove_if q p ms)
          → (i : ℕ) → 0 < one_if (m == i) + count_of i (remove_if q p ms).1
          → ((m == i) ≡ true) ⊎ ((m == i) ≡ false)
          → p.heap.in_use i ≡ true
      in_use_of busy r i pos (inl same) = ap p.heap.in_use (ground arith) ∙ busy
      in_use_of busy r i pos (inr other) = r.kept_in_use i (ground arith)

      stays :
          p.heap.in_use m ≡ true
          → IsRecycled p ms (remove_if q p ms)
          → IsRecycled p (m ∷ ms) ((remove_if q p ms).0, m ∷ (remove_if q p ms).1)
      stays busy r = record {
        counted = λ i. omega (arith, r.counted i);
        same_use = r.same_use;
        same_next = r.same_next;
        same_capacity = r.same_capacity;
        fits = r.fits;
        kept_fits = omega (arith, r.kept_fits);
        free = r.free;
        kept_in_use = λ i pos. in_use_of busy r i pos (Bool-cases (m == i));
        same_content = r.same_content;
      }

      goes :
          p.heap.in_use m ≡ false
          → IsRecycled (release q p m) ms (remove_if q (release q p m) ms)
          → IsRecycled p (m ∷ ms) (remove_if q (release q p m) ms)
      goes idle r = record {
        counted = λ i. omega (arith, r.counted i, pushed.counted i);
        same_use = r.same_use;
        same_next = r.same_next;
        same_capacity = r.same_capacity;
        fits = r.fits;
        kept_fits = omega (arith, r.kept_fits);
        free = r.free;
        kept_in_use = r.kept_in_use;
        same_content = λ i busy. r.same_content i busy ∙ write_buffer-clear p.heap m i idle busy;
      }

  pub recycle-IsPool : (p : Pool) → IsPool p → IsPool (recycle q p)
  unfolding recycle
  recycle-IsPool p ok =
      let r = remove_if-IsRecycled p p.used ok.available_fits ok.free in
      record {
        once = λ i. omega (arith, r.counted i, ok.once i);
        known = λ i pos.
            let before : i < p.heap.next = ok.known i (omega (arith, r.counted i)) in
            omega (arith, r.same_next);
        free = r.free;
        available_fits = omega (arith, r.fits, r.same_capacity);
        used_fits = omega (arith, r.kept_fits, r.same_capacity, ok.used_fits);
      }

  -- What stays in used_ is in use, and no flag and no object in use is touched.
  pub recycle_lem :
      (p : Pool)
      → IsPool p
      → ((recycle q p).heap.in_use ≡ p.heap.in_use)
        × ((recycle q p).heap.next ≡ p.heap.next)
        × ((recycle q p).capacity ≡ p.capacity)
        × ((i : ℕ) → 0 < count_of i (recycle q p).used → p.heap.in_use i ≡ true)
        × ((i : ℕ)
            → p.heap.in_use i ≡ true
            → (recycle q p).heap.write_buffer i ≡ p.heap.write_buffer i)
  unfolding recycle
  recycle_lem p ok =
      let r = remove_if-IsRecycled p p.used ok.available_fits ok.free in
      (r.same_use, r.same_next, r.same_capacity, r.kept_in_use, r.same_content)
