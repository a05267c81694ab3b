-- ===== src/Pools/Filling.antt =====
-- New objects for a pool: prepares, and the loop of take_one.
use throttr.Prelude.{
  ℕ, zero, suc, ◌+◌, ◌-◌, ◌*◌, ◌≤◌, ◌<◌, [], ◌∷◌, true, false, none, some, ◌==◌, ◌≡◌, ◌⊎◌, inl, inr,
  refl, ◌∙◌, arith, length, length-append, length-take, take, ltb, Bool-cases,
}
use throttr.Circular.{CircularBuffer}
use throttr.Pools.{Heap, Pool, make_object, add_new, add_many, prepares, fit, refill}
use throttr.Pools.Count.{one_if, count_of, count_of-take, IsPush, push_back-IsPush}
use throttr.Pools.Recycling.{IsFree, IsPool}

-- Of the objects that were there, the same are in use, with what was in them; others may be new.
pub record SameOld (h h' : Heap) : Type 0 where
  pub next_le : h.next ≤ h'.next
  pub same : (i : ℕ) → i < h.next → h'.in_use i ≡ h.in_use i
  pub same_content : (i : ℕ) → i < h.next → h.in_use i ≡ true → h'.write_buffer i ≡ h.write_buffer i

pub fit-IsPool : (count : ℕ) (p : Pool) → IsPool p → IsPool (fit count p)
unfolding fit
fit-IsPool count p ok = elim (Bool-cases (ltb count (length p.available))) [
  | inl more ↦ rw more (cut count)
  | inr few ↦ rw few ok
]
  where
    cut : (n : ℕ) → IsPool (record p { available = take n p.available })
    cut n = record {
      once = λ i. omega (arith, count_of-take i n p.available, ok.once i);
      known = λ i pos. ok.known i (omega (arith, count_of-take i n p.available));
      free = λ i pos. ok.free i (omega (arith, count_of-take i n p.available));
      available_fits = omega (arith, length-take n p.available, ok.available_fits);
      used_fits = ok.used_fits;
    }

module _ (q : CircularBuffer ℕ) where
  add_new-IsPool : (p : Pool) → IsPool p → IsPool (add_new q p)
  unfolding add_new
  add_new-IsPool p ok =
      let push : IsPush q p.capacity p.available p.heap.next
          (q.push_back p.capacity p.available p.heap.next) =
        push_back-IsPush q p.capacity p.available p.heap.next ok.available_fits in
      record {
        once = λ i. counted i (push.counted i) (Bool-cases (p.heap.next == i));
        known = λ i pos. knows i pos (push.counted i) (Bool-cases (p.heap.next == i));
        free = λ i pos. frees i pos (push.counted i) (Bool-cases (p.heap.next == i));
        available_fits = push.fits;
        used_fits = ok.used_fits;
      }
    where
      -- The new object was not there.
      absent : (i : ℕ) → p.heap.next ≡ i → count_of i p.available + count_of i p.used ≡ 0
      absent i e = ground (arith, ok.known i)

      counted :
          (i : ℕ) {n : ℕ}
          → n ≤ count_of i p.available + one_if (p.heap.next == i)
          → ((p.heap.next == i) ≡ true) ⊎ ((p.heap.next == i) ≡ false)
          → n + count_of i p.used ≤ 1
      counted i h (inl same) = ground (arith, absent i (ground arith))
      counted i h (inr other) = ground (arith, ok.once i)

      knows :
          (i : ℕ) {n : ℕ}
          → 0 < n + count_of i p.used
          → n ≤ count_of i p.available + one_if (p.heap.next == i)
          → ((p.heap.next == i) ≡ true) ⊎ ((p.heap.next == i) ≡ false)
          → i < p.heap.next + 1
      knows i pos h (inl same) = ground arith
      knows i pos h (inr other) = ground (arith, ok.known i)

      frees :
          (i : ℕ) {n : ℕ}
          → 0 < n
          → n ≤ count_of i p.available + one_if (p.heap.next == i)
          → ((p.heap.next == i) ≡ true) ⊎ ((p.heap.next == i) ≡ false)
          → IsFree (make_object p.heap) i
      frees i pos h (inl same) = ground arith
      frees i pos h (inr other) = ground (arith, ok.free i)

  pub add_new-SameOld : (p : Pool) → SameOld p.heap (add_new q p).heap
  unfolding add_new
  add_new-SameOld p = record {
    next_le = omega arith;
    same = λ i h. ground arith;
    same_content = λ i h busy. ground arith;
  }

  pub SameOld-trans : {a b c : Heap} → SameOld a b → SameOld b c → SameOld a c
  SameOld-trans ab bc = record {
    next_le = omega (arith, ab.next_le, bc.next_le);
    same = λ i h. bc.same i (omega (arith, ab.next_le)) ∙ ab.same i h;
    same_content = λ i h busy.
        bc.same_content i (omega (arith, ab.next_le)) (ab.same i h ∙ busy)
        ∙ ab.same_content i h busy;
  }

  add_many-IsPool : (n : ℕ) (p : Pool) → IsPool p → IsPool (add_many q n p)
  unfolding add_many
  add_many-IsPool zero p ok = ok
  add_many-IsPool (suc n) p ok = add_many-IsPool n (add_new q p) (add_new-IsPool p ok)

  capacity-add_new : (p : Pool) → (add_new q p).capacity ≡ p.capacity
  unfolding add_new
  capacity-add_new p = refl

  length-add_new :
      (p : Pool)
      → length p.available < p.capacity
      → length (add_new q p).available ≡ length p.available + 1
  unfolding add_new
  length-add_new p h =
      rw (q.push_back_free p.capacity p.available p.heap.next h)
        (omega (arith, length-append p.available (p.heap.next ∷ [])))

  -- The loop of take_one ends when the buffer has room for `count` objects.
  pub refill_ends :
      (fuel count : ℕ) (p : Pool)
      → IsPool p
      → count ≤ p.capacity
      → count - length p.available < fuel
      → (p' : Pool) × (refill q fuel count p ≡ some p')
        × IsPool p'
        × (count ≤ length p'.available)
        × SameOld p.heap p'.heap
        × (p'.capacity ≡ p.capacity)
  unfolding refill
  refill_ends zero count p ok room h = absurd (omega arith)
  refill_ends (suc fuel) count p ok room h = elim (Bool-cases (ltb (length p.available) count)) [
    | inl more ↦
        let longer = length-add_new p (ground arith) in
        let (p', e, ok', enough, old, wide) =
          refill_ends fuel count (add_new q p) (add_new-IsPool p ok) (rw (capacity-add_new p) room)
            (ground (arith, longer)) in
        (
          p',
          rw more e,
          ok',
          enough,
          SameOld-trans (add_new-SameOld p) old,
          wide ∙ capacity-add_new p,
        )
    | inr enough ↦ (
      p,
      rw enough refl,
      ok,
      ground arith,
      record { next_le = omega arith; same = λ i k. refl; same_content = λ i k busy. refl },
      refl,
    )
  ]

  available-add_new : (p : Pool) → p.capacity ≡ 0 → p.available ≡ [] → (add_new q p).available ≡ []
  unfolding add_new
  available-add_new p cap e = rw (cap, e) (q.push_back_none p.heap.next)

  -- Without capacity it does not end: no object that it makes is kept.
  pub refill-never_ends :
      (fuel count : ℕ) (p : Pool)
      → p.capacity ≡ 0
      → p.available ≡ []
      → 0 < count
      → refill q fuel count p ≡ none
  unfolding refill
  refill-never_ends zero count p cap e pos = refl
  refill-never_ends (suc fuel) count p cap e pos =
      let still : (add_new q p).available ≡ [] = available-add_new p cap e in
      ground
        (arith, refill-never_ends fuel count (add_new q p) (capacity-add_new p ∙ cap) still pos)

  capacity-add_many : (n : ℕ) (p : Pool) → (add_many q n p).capacity ≡ p.capacity
  unfolding add_many
  capacity-add_many zero p = refl
  capacity-add_many (suc n) p = capacity-add_many n (add_new q p) ∙ capacity-add_new p

  -- prepares gives a pool room for twice its argument, and keeps it well formed.
  pub prepares-IsPool :
      (initial : ℕ) (p : Pool)
      → IsPool p
      → IsPool (prepares q initial p) × ((prepares q initial p).capacity ≡ initial * 2)
  unfolding prepares
  prepares-IsPool initial p ok = (add_many-IsPool initial _ resized, capacity-add_many initial _)
    where
      resized : IsPool (record p {
        capacity = initial * 2;
        available = take (initial * 2) p.available;
        used = take (initial * 2) p.used;
      })
      resized = record {
        once = λ i. omega (
          arith,
          count_of-take i (initial * 2) p.available,
          count_of-take i (initial * 2) p.used,
          ok.once i,
        );
        known = λ i some_there. ok.known i (
            omega (
              arith,
              count_of-take i (initial * 2) p.available,
              count_of-take i (initial * 2) p.used,
            ));
        free = λ i some_there. ok.free i (omega (arith, count_of-take i (initial * 2) p.available));
        available_fits = omega (arith, length-take (initial * 2) p.available);
        used_fits = omega (arith, length-take (initial * 2) p.used);
      }
