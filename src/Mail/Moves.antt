-- ===== src/Mail/Moves.antt =====
-- What a step does to who holds which message.
use throttr.Prelude.{
  ℕ, ◌≤◌, ◌<◌, List, [], ◌∷◌, true, false, Option, none, some, ◌==◌, ◌≡◌, ◌⊎◌, inl, inr, refl, sym,
  ◌∙◌, ap, arith, length, ltb, Bool-cases, if◌then◌else◌,
}
use throttr.Circular.{CircularBuffer}
use throttr.Pools.{Heap, Pool, assign}
use throttr.Pools.Count.{one_if, push_back-IsPush}
use throttr.Pools.Recycling.{IsPool}
use throttr.Pools.Taking.{IsTaken}
use throttr.Writes.{capacity}
use throttr.Session.{pick}
use throttr.Mail.{fill, Mail, give_back, post, take_off, enqueue}
use throttr.Mail.Holding.{held, IsMail, held-take_off, held-post, held-enqueue}

-- What a step leaves that hands out no message.
fewer-IsMail :
    (b b' : Mail)
    → IsMail b
    → b'.pool ≡ b.pool
    → ((id m : ℕ) → held b' id m ≤ held b id m)
    → ((id : ℕ) → length (b'.pending id) ≤ capacity)
    → IsMail b'
fewer-IsMail b b' ok same less fit = record {
  pool = rw same ok.pool;
  wide = rw same ok.wide;
  once = λ id m. omega (arith, less id m, ok.once id m);
  apart = λ id id' m h h'. ok.apart id id' m (omega (arith, less id m)) (omega (arith, less id' m));
  known = λ id m h. rw same (ok.known id m (omega (arith, less id m)));
  busy = λ id m h. rw same (ok.busy id m (omega (arith, less id m)));
  fits = fit;
}

-- A message that no connection holds can be given back.
give_back-IsPool : (p : Pool) (m : ℕ) → IsPool p → IsPool (record p { heap = give_back p.heap m })
unfolding give_back
give_back-IsPool p m ok = elim (Bool-cases (p.heap.recyclable m)) [
  | inl e ↦ rw e (record {
    once = ok.once;
    known = ok.known;
    free = λ i h. (ground (arith, (ok.free i h).0), (ok.free i h).1);
    available_fits = ok.available_fits;
    used_fits = ok.used_fits;
  })
  | inr e ↦ rw e ok
]

give_back_lem :
    (h : Heap) (m : ℕ)
    → ((give_back h m).next ≡ h.next)
      × ((i : ℕ) → (m == i) ≡ false → (give_back h m).in_use i ≡ h.in_use i)
unfolding give_back
give_back_lem h m = elim (Bool-cases (h.recyclable m)) [
  | inl e ↦ rw e (refl, λ i other. ground arith)
  | inr e ↦ rw e (refl, λ i other. refl)
]

-- What is held after a message was taken off is another message.
take_off_other :
    (b : Mail) (id m : ℕ) (ms : List ℕ)
    → b.pending id ≡ m ∷ ms
    → IsMail b
    → (j i : ℕ) → 0 < held (take_off b id (m ∷ ms)) j i
    → (m == i) ≡ false
take_off_other b id m ms front ok j i some_held = elim (Bool-cases (m == i)) [
  | inl same ↦
      let b' : Mail = take_off b id (m ∷ ms) in
      let there = held-take_off b id m ms front id i in
      let one : (if id == id then one_if (m == i) else 0) ≡ 1 = ground arith in
      let here = held-take_off b id m ms front j i in
      let who : j ≡ id = ok.apart j id i (omega (arith, here)) (omega (arith, there, one)) in
      let moved : held b' j i ≡ held b' id i = ap (λ (x : ℕ). held b' x i) who in
      absurd (omega (arith, moved, there, one, ok.once id i))
  | inr other ↦ other
]

pub take_off-IsMail :
    (b : Mail) (id : ℕ) (ms : List ℕ) → b.pending id ≡ ms → IsMail b → IsMail (take_off b id ms)
unfolding take_off
take_off-IsMail b id [] front ok = ok
take_off-IsMail b id (m ∷ ms) front ok =
    let b' : Mail = take_off b id (m ∷ ms) in
    let less = held-take_off b id m ms front in
    let flags = give_back_lem b.pool.heap m in
    let other = take_off_other b id m ms front ok in
    record {
      pool = give_back-IsPool b.pool m ok.pool;
      wide = ok.wide;
      once = λ j i. omega (arith, less j i, ok.once j i);
      apart = λ j j' i h h'. ok.apart j j' i (omega (arith, less j i)) (omega (arith, less j' i));
      known = λ j i h.
          let before : i < b.pool.heap.next = ok.known j i (omega (arith, less j i)) in
          omega (arith, flags.0);
      busy = λ j i h. flags.1 i (other j i h) ∙ ok.busy j i (omega (arith, less j i));
      fits = λ j. shorter j;
    }
  where
    shorter : (j : ℕ) → length ((take_off b id (m ∷ ms)).pending j) ≤ capacity
    shorter j = elim (Bool-cases (j == id)) [
      | inl e ↦ rw e (omega (arith, ok.fits id, ap (λ (xs : List ℕ). length xs) front))
      | inr e ↦ rw e (ok.fits j)
    ]

pub assign_other :
    (f : ℕ → List ℕ) (m : ℕ) (bytes : List ℕ) (i : ℕ) → (i == m) ≡ false → assign f m bytes i ≡ f i
assign_other f m bytes i other = rw other

-- A message that a pool gave is held by nobody, and what is held stays as it was.
pub taken-IsMail :
    (b : Mail) (m : ℕ) (p' : Pool)
    → IsMail b
    → IsTaken b.pool m p'
    → IsMail (record b { pool = p' }) × ((id : ℕ) → held b id m ≡ 0)
taken-IsMail b m p' ok t = (
  record {
    pool = t.pool;
    wide = omega (arith, ok.wide, t.same_capacity);
    once = ok.once;
    apart = ok.apart;
    known = λ id i h. omega (arith, ok.known id i h, t.next_le);
    busy = λ id i h.
        t.others i (ok.known id i h) (differs id i h (Bool-cases (m == i))) ∙ ok.busy id i h;
    fits = ok.fits;
  },
  λ id. unheld id (Bool-cases (ltb 0 (held b id m))),
)
  where
    free : (id : ℕ) → 0 < held b id m → ⊥
    free id h = elim t.idle [
      | inl beyond ↦ omega (arith, ok.known id m h)
      | inr idle ↦ cc (idle, ok.busy id m h)
    ]

    unheld :
        (id : ℕ) → (ltb 0 (held b id m) ≡ true) ⊎ (ltb 0 (held b id m) ≡ false) → held b id m ≡ 0
    unheld id (inl h) = absurd (free id (ground arith))
    unheld id (inr h) = ground arith

    differs :
        (id i : ℕ) → 0 < held b id i → ((m == i) ≡ true) ⊎ ((m == i) ≡ false) → (m == i) ≡ false
    differs id i h (inl same) =
        let e : i ≡ m = ground arith in
        absurd (free id (omega (arith, h, ap (λ (x : ℕ). held b id x) e)))
    differs id i h (inr other) = other

-- What is written into a message that is in use.
pub fill-IsMail :
    (b : Mail) (m : ℕ) (bytes : List ℕ)
    → IsMail b
    → b.pool.heap.in_use m ≡ true
    → IsMail (fill b m bytes)
unfolding fill
fill-IsMail b m bytes ok busy = record {
  pool = record {
    once = ok.pool.once;
    known = ok.pool.known;
    free = λ i h. (
      (ok.pool.free i h).0,
      assign_other b.pool.heap.write_buffer m bytes i
            (differs i (ok.pool.free i h).0 (Bool-cases (i == m)))
          ∙ (ok.pool.free i h).1,
    );
    available_fits = ok.pool.available_fits;
    used_fits = ok.pool.used_fits;
  };
  wide = ok.wide;
  once = ok.once;
  apart = ok.apart;
  known = ok.known;
  busy = ok.busy;
  fits = ok.fits;
}
  where
    differs :
        (i : ℕ)
        → b.pool.heap.in_use i ≡ false
        → ((i == m) ≡ true) ⊎ ((i == m) ≡ false)
        → (i == m) ≡ false
    differs i idle (inl same) =
        let e : i ≡ m = ground arith in absurd (cc (ap b.pool.heap.in_use e, idle, busy))
    differs i idle (inr other) = other

-- After a post a message is held as before, or it is the posted one at its receiver.
holder :
    (b : Mail) (id m : ℕ)
    → ((j : ℕ) → held b j m ≡ 0)
    → (j i : ℕ) → 0 < held (post b id m) j i
    → ((m ≡ i) × (j ≡ id)) ⊎ (((m == i) ≡ false) × (0 < held b j i))
holder b id m unheld j i h = elim (Bool-cases (m == i)) [
  | inl same ↦
      let e : m ≡ i = ground arith in
      let nothing : held b j i ≡ 0 = sym (ap (held b j) e) ∙ unheld j in
      inl (e, ground (arith, held-post b id m j i))
  | inr other ↦ inr (other, ground (arith, held-post b id m j i))
]

pub post-IsMail :
    (b : Mail) (id m : ℕ)
    → IsMail b
    → ((j : ℕ) → held b j m ≡ 0)
    → m < b.pool.heap.next
    → b.pool.heap.in_use m ≡ true
    → IsMail (post b id m)
post-IsMail b id m ok unheld before busy = record {
  pool = (unfold post in ok.pool);
  wide = (unfold post in ok.wide);
  once = λ j i. at_once j i (Bool-cases (m == i));
  apart =
      λ j j' i h h'. one_place j j' i (holder b id m unheld j i h) (holder b id m unheld j' i h');
  known = λ j i h. elim (holder b id m unheld j i h) [
    | inl here ↦ (unfold post in omega (arith, before, here.0))
    | inr there ↦ (unfold post in ok.known j i there.1)
  ];
  busy = λ j i h. elim (holder b id m unheld j i h) [
    | inl here ↦ (unfold post in sym (ap b.pool.heap.in_use here.0) ∙ busy)
    | inr there ↦ (unfold post in ok.busy j i there.1)
  ];
  fits = (unfold post in ok.fits);
}
  where
    at_once : (j i : ℕ) → ((m == i) ≡ true) ⊎ ((m == i) ≡ false) → held (post b id m) j i ≤ 1
    at_once j i (inl same) =
        let e : m ≡ i = ground arith in
        let nothing : held b j i ≡ 0 = sym (ap (held b j) e) ∙ unheld j in
        ground (arith, held-post b id m j i)
    at_once j i (inr other) = ground (arith, held-post b id m j i, ok.once j i)

    one_place :
        (j j' i : ℕ)
        → ((m ≡ i) × (j ≡ id)) ⊎ (((m == i) ≡ false) × (0 < held b j i))
        → ((m ≡ i) × (j' ≡ id)) ⊎ (((m == i) ≡ false) × (0 < held b j' i))
        → j ≡ j'
    one_place j j' i (inl (e, a)) (inl (e', a')) = a ∙ sym a'
    one_place j j' i (inr (e, a)) (inr (e', a')) = ok.apart j j' i a a'
    one_place j j' i (inl (e, a)) (inr (e', a')) = absurd (ground arith)
    one_place j j' i (inr (e, a)) (inl (e', a')) = absurd (ground arith)

module _ (q : CircularBuffer ℕ) where
  pub enqueue-IsMail :
      (b : Mail) (id n : ℕ) (picked : Option (ℕ × List ℕ))
      → pick n (b.posted id) ≡ picked
      → IsMail b
      → IsMail (enqueue q b id picked)
  enqueue-IsMail b id n none e ok = (unfold enqueue in ok)
  enqueue-IsMail b id n (some (m, ms)) e ok =
      fewer-IsMail b (enqueue q b id (some (m, ms))) ok (unfold enqueue in refl)
        (held-enqueue q b id m ms n e (ok.fits id)) shorter
    where
      shorter : (j : ℕ) → length ((enqueue q b id (some (m, ms))).pending j) ≤ capacity
      shorter j =
          (unfold enqueue in
            elim (Bool-cases (j == id)) [
              | inl e ↦ rw e ((push_back-IsPush q capacity (b.pending id) m (ok.fits id)).fits)
              | inr e ↦ rw e (ok.fits j)
            ])
