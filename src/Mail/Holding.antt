-- ===== src/Mail/Holding.antt =====
-- Who holds a message, and that the pool does not hand out what is held.
use throttr.Prelude.{
  ℕ, zero, suc, ◌+◌, ◌≤◌, ◌<◌, List, [], ◌∷◌, ◌++◌, true, some, ◌==◌, ◌≡◌, inl, inr, sym, ◌∙◌, ap,
  arith, length, Bool-cases, Option-cases, if◌then◌else◌,
}
use throttr.Circular.{CircularBuffer}
use throttr.Pools.{default_count}
use throttr.Pools.Count.{
  one_if, count_of, count_of-append, count_of-one, count_of-cons, push_back-IsPush,
}
use throttr.Pools.Recycling.{IsPool}
use throttr.Writes.{capacity}
use throttr.Session.{pick}
use throttr.Mail.{Mail, post, take_off, enqueue}

-- How often a connection holds a message.
abbrev pub held : Mail → ℕ → ℕ → ℕ
held b id m = count_of m (b.posted id) + count_of m (b.pending id)

-- A message that a connection holds is held once, by that connection alone, and is in use.
pub record IsMail (b : Mail) : Type 0 where
  pub pool : IsPool b.pool
  pub wide : default_count ≤ b.pool.capacity
  pub once : (id m : ℕ) → held b id m ≤ 1
  pub apart : (id id' m : ℕ) → 0 < held b id m → 0 < held b id' m → id ≡ id'
  pub known : (id m : ℕ) → 0 < held b id m → m < b.pool.heap.next
  pub busy : (id m : ℕ) → 0 < held b id m → b.pool.heap.in_use m ≡ true
  pub fits : (id : ℕ) → length (b.pending id) ≤ capacity

count_of-pick :
    (i n : ℕ) (xs : List ℕ) (m : ℕ) (rest : List ℕ)
    → pick n xs ≡ some (m, rest)
    → count_of i xs ≡ one_if (m == i) + count_of i rest
unfolding pick count_of
count_of-pick i zero [] m rest e = cc
count_of-pick i (suc n) [] m rest e = cc
count_of-pick i zero (x ∷ xs) m rest e = ground arith
count_of-pick i (suc n) (x ∷ xs) m rest e = elim (Option-cases (pick n xs)) [
  | inl gone ↦ cc (rw gone at e)
  | inr ((y, ys), found) ↦
      let same = rw found at e in ground (arith, count_of-pick i n xs y ys found)
]

-- The front of a queue is taken off.
pub held-take_off :
    (b : Mail) (id m : ℕ) (ms : List ℕ)
    → b.pending id ≡ m ∷ ms
    → (j i : ℕ)
    → held (take_off b id (m ∷ ms)) j i + (if j == id then one_if (m == i) else 0) ≡ held b j i
unfolding take_off
held-take_off b id m ms front j i = elim (Bool-cases (j == id)) [
  | inl e ↦
      let same : j ≡ id = ground arith in
      let all : count_of i (b.pending j) ≡ one_if (m == i) + count_of i ms =
        ap (λ (x : ℕ). count_of i (b.pending x)) same
        ∙ ap (count_of i) front
        ∙ count_of-cons i m ms in
      rw e (omega (arith, all))
  | inr e ↦ rw e (omega arith)
]

-- A message is posted that nobody held.
pub held-post :
    (b : Mail) (id m j i : ℕ)
    → held (post b id m) j i ≡ held b j i + (if j == id then one_if (m == i) else 0)
unfolding post
held-post b id m j i = elim (Bool-cases (j == id)) [
  | inl e ↦
      let same : j ≡ id = ground arith in
      let all : count_of i (b.posted id ++ m ∷ []) ≡ count_of i (b.posted j) + one_if (m == i) =
        count_of-append i (b.posted id) (m ∷ [])
        ∙ ap (λ (n : ℕ). count_of i (b.posted id) + n) (count_of-one i m)
        ∙ ap (λ (x : ℕ). count_of i (b.posted x) + one_if (m == i)) (sym same) in
      rw e (omega (arith, all))
  | inr e ↦ rw e (omega arith)
]

module _ (q : CircularBuffer ℕ) where
  pub held-enqueue :
      (b : Mail) (id m : ℕ) (ms : List ℕ) (n : ℕ)
      → pick n (b.posted id) ≡ some (m, ms)
      → length (b.pending id) ≤ capacity
      → (j i : ℕ) → held (enqueue q b id (some (m, ms))) j i ≤ held b j i
  unfolding enqueue
  held-enqueue b id m ms n picked fits j i = elim (Bool-cases (j == id)) [
    | inl e ↦
        let same : j ≡ id = ground arith in
        let push = push_back-IsPush q capacity (b.pending id) m fits in
        let posted = count_of-pick i n (b.posted id) m ms picked in
        let at = ap (λ (x : ℕ). held b x i) same in rw e (omega (arith, push.counted i, posted, at))
    | inr e ↦ rw e (omega arith)
  ]
