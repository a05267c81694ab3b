-- ===== src/Pools/Taking.antt =====
-- What take_one hands out, and when it comes back.
use throttr.Prelude.{
  ℕ, ◌+◌, ◌≤◌, ◌<◌, List, [], ◌∷◌, Bool, true, false, ◌==◌, ◌≡◌, ◌⊎◌, inl, inr, refl, sym, ◌∙◌, ap,
  arith, length, ltb, Bool-cases,
}
use throttr.Circular.{CircularBuffer}
use throttr.Pools.{
  Heap, Pool, set_in_use, took, no_fuel, default_count, last_of, recycle, fit, take_last,
  take_filled, is_empty, take_one,
}
use throttr.Pools.Count.{
  one_if, count_of, count_of-last_of, length-last_of, IsPush, push_back-IsPush,
}
use throttr.Pools.Recycling.{IsFree, IsPool, recycle-IsPool, recycle_lem}
use throttr.Pools.Filling.{SameOld, SameOld-trans, fit-IsPool, refill_ends, refill-never_ends}

-- An object that a pool gave: it was not in use, is empty, and is in use from now on; the flags of
-- the others stay, and so does what is in those that are in use.
pub record IsTaken (p : Pool) (m : ℕ) (p' : Pool) : Type 0 where
  pub pool : IsPool p'
  pub idle : (p.heap.next ≤ m) ⊎ (p.heap.in_use m ≡ false)
  pub busy : p'.heap.in_use m ≡ true
  pub clean : p'.heap.write_buffer m ≡ []
  pub known : m < p'.heap.next
  pub next_le : p.heap.next ≤ p'.heap.next
  pub others : (i : ℕ) → i < p.heap.next → (m == i) ≡ false → p'.heap.in_use i ≡ p.heap.in_use i
  pub others_content :
      (i : ℕ)
      → i < p.heap.next
      → p.heap.in_use i ≡ true
      → p'.heap.write_buffer i ≡ p.heap.write_buffer i
  pub same_capacity : p'.capacity ≡ p.capacity

module _ (q : CircularBuffer ℕ) where
  -- Marking the last available object.
  take_last_lem :
      (p : Pool) (xs : List ℕ)
      → p.available ≡ xs
      → 0 < length xs
      → IsPool p
      → (m : ℕ) × (p' : Pool) × (take_last q p xs ≡ took m p')
        × IsTaken p m p'
        × (p.heap.in_use m ≡ false)
  unfolding take_last
  take_last_lem p [] e pos ok = absurd (omega arith)
  take_last_lem p (x ∷ xs) e pos ok = (
    m,
    taken,
    refl,
    record {
      pool = taken-IsPool;
      idle = inr (ok.free m here).0;
      busy = ground arith;
      clean = (ok.free m here).1;
      known = ok.known m (omega (arith, here));
      next_le = omega arith;
      others = λ i before other. ground arith;
      others_content = λ i before busy. refl;
      same_capacity = refl;
    },
    (ok.free m here).0,
  )
    where
      m : ℕ
      m = (last_of x xs).1

      front : List ℕ
      front = (last_of x xs).0

      taken : Pool
      taken = record p {
        available = front;
        used = q.push_back p.capacity p.used m;
        heap = set_in_use p.heap m true;
      }

      total : (i : ℕ) → count_of i p.available ≡ count_of i front + one_if (m == i)
      total i = ap (count_of i) e ∙ count_of-last_of i x xs

      push : IsPush q p.capacity p.used m (q.push_back p.capacity p.used m)
      push = push_back-IsPush q p.capacity p.used m ok.used_fits

      self : one_if (m == m) ≡ 1
      self = ground arith

      here : 0 < count_of m p.available
      here = omega (arith, total m, self)

      frees :
          (i : ℕ)
          → 0 < count_of i front
          → ((m == i) ≡ true) ⊎ ((m == i) ≡ false)
          → IsFree (set_in_use p.heap m true) i
      frees i some_left (inl same) = absurd (ground (arith, total i, ok.once i))
      frees i some_left (inr other) = ground (arith, total i, ok.free i)

      taken-IsPool : IsPool taken
      taken-IsPool = record {
        once = λ i. omega (arith, total i, push.counted i, ok.once i);
        known = λ i some_left. ok.known i (omega (arith, total i, push.counted i));
        free = λ i some_left. frees i some_left (Bool-cases (m == i));
        available_fits =
            omega (arith, length-last_of x xs, ok.available_fits, ap (λ (l : List ℕ). length l) e);
        used_fits = push.fits;
      }

  -- The pool after recycle and fit.
  abbrev ready : Pool → Pool
  ready p = fit default_count (recycle q p)

  ready_lem :
      (p : Pool)
      → IsPool p
      → IsPool (ready p)
        × ((ready p).heap.in_use ≡ p.heap.in_use)
        × ((ready p).heap.next ≡ p.heap.next)
        × ((ready p).capacity ≡ p.capacity)
        × ((i : ℕ) → p.heap.in_use i ≡ true → (ready p).heap.write_buffer i ≡ p.heap.write_buffer i)
  unfolding fit
  ready_lem p ok = (
    fit-IsPool default_count (recycle q p) (recycle-IsPool q p ok),
    ground (arith, (recycle_lem q p ok).0),
    ground (arith, (recycle_lem q p ok).1),
    ground (arith, (recycle_lem q p ok).2),
    λ i busy. ground (arith, (recycle_lem q p ok).4 i busy),
  )

  -- What is not in use later, and old, was not in use before.
  was_idle :
      (h h' : Heap) (m : ℕ)
      → SameOld h h'
      → h'.in_use m ≡ false
      → (h.next ≤ m) ⊎ (h.in_use m ≡ false)
  was_idle h h' m old idle = elim (Bool-cases (ltb m h.next)) [
    | inl before ↦ inr (sym (old.same m (ground arith)) ∙ idle)
    | inr after ↦ inl (ground arith)
  ]

  empty_length : (xs : List ℕ) → is_empty xs ≡ false → 0 < length xs
  empty_length [] h = cc
  empty_length (x ∷ xs) h = omega arith

  empty_nil : (xs : List ℕ) → length xs ≤ 0 → xs ≡ []
  empty_nil [] h = refl
  empty_nil (x ∷ xs) h = absurd (omega arith)

  ready-SameOld : (p : Pool) → IsPool p → SameOld p.heap (ready p).heap
  ready-SameOld p ok = record {
    next_le = omega (arith, (ready_lem p ok).2);
    same = λ i h. ap (λ (f : ℕ → Bool). f i) (ready_lem p ok).1;
    same_content = λ i h busy. (ready_lem p ok).4 i busy;
  }

  -- What recycle, fit and refill leave before an object is taken.
  after-IsTaken :
      (p p1 : Pool) (m : ℕ) (p' : Pool)
      → SameOld p.heap p1.heap
      → p1.capacity ≡ p.capacity
      → IsTaken p1 m p'
      → p1.heap.in_use m ≡ false
      → IsTaken p m p'
  after-IsTaken p p1 m p' old room t unused = record {
    pool = t.pool;
    idle = was_idle p.heap p1.heap m old unused;
    busy = t.busy;
    clean = t.clean;
    known = t.known;
    next_le = omega (arith, old.next_le, t.next_le);
    others = λ i before other. t.others i (omega (arith, old.next_le)) other ∙ old.same i before;
    others_content = λ i before busy.
        t.others_content i (omega (arith, old.next_le)) (old.same i before ∙ busy)
        ∙ old.same_content i before busy;
    same_capacity = t.same_capacity ∙ room;
  }

  -- From a well-formed pool with room for what it is asked to hold, take_one comes back with an
  -- object that is new or was not in use, is empty and is in use from now on, and the pool stays
  -- well formed; for a count above 0, and fuel above the count.
  pub take_one_lem :
      (fuel count : ℕ) (p : Pool)
      → IsPool p
      → 0 < count
      → count ≤ p.capacity
      → count < fuel
      → (m : ℕ) × (p' : Pool) × (take_one q fuel count p ≡ took m p') × IsTaken p m p'
  unfolding take_one take_filled
  take_one_lem fuel count p ok pos room enough = elim (Bool-cases (is_empty (ready p).available)) [
    | inl empty ↦
        let (p1, filled, ok1, many, old, wide) =
          refill_ends q fuel count (ready p) (ready_lem p ok).0 (omega (arith, (ready_lem p ok).3))
            (omega arith) in
        let (m, p', took_it, taken, unused) =
          take_last_lem p1 p1.available refl (omega arith) ok1 in
        (
          m,
          p',
          rw (empty, filled) took_it,
          after-IsTaken p p1 m p' (SameOld-trans q (ready-SameOld p ok) old)
              (wide ∙ (ready_lem p ok).3) taken unused,
        )
    | inr some_there ↦
        let (m, p', took_it, taken, unused) =
          take_last_lem (ready p) (ready p).available refl
            (empty_length (ready p).available some_there) (ready_lem p ok).0 in
        (
          m,
          p',
          rw some_there took_it,
          after-IsTaken p (ready p) m p' (ready-SameOld p ok) (ready_lem p ok).3 taken unused,
        )
  ]

  -- A pool that was never prepared has no capacity: on it take_one never comes back.
  pub take_one_unprepared :
      (fuel count : ℕ) (p : Pool)
      → IsPool p
      → p.capacity ≡ 0
      → 0 < count
      → take_one q fuel count p ≡ no_fuel
  unfolding take_one take_filled
  take_one_unprepared fuel count p ok none_fit pos =
      let none_there : (ready p).available ≡ [] =
        empty_nil (ready p).available
          (omega (arith, (ready_lem p ok).0.available_fits, (ready_lem p ok).3, none_fit)) in
      let loop =
        refill-never_ends q fuel count (ready p) ((ready_lem p ok).3 ∙ none_fit) none_there pos in
      rw (loop, ap is_empty none_there) refl
