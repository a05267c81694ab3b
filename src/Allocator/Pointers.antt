-- ===== src/Allocator/Pointers.antt =====
-- No memory is handed out twice before it is given back.
use throttr.Prelude.{
  ℕ, ◌+◌, ◌*◌, ◌≤◌, ◌<◌, List, [], ◌∷◌, ◌++◌, Bool, true, false, not, ◌&&◌, ◌==◌, leb, ◌≡◌, inl,
  inr, refl, arith, Bool-cases, if◌then◌else◌,
}
use throttr.Allocator.{
  Pointer, storage, heap, HandlerMemory, storage_size, allocate, deallocate, allocate_elements,
}

abbrev pub same_pointer : Pointer → Pointer → Bool
same_pointer storage storage = true
same_pointer (heap p) (heap q) = p == q
same_pointer p q = false

-- How often a pointer is held.
unfoldable pub count : Pointer → List Pointer → ℕ
count p [] = 0
count p (q ∷ qs) = (if same_pointer q p then 1 else 0) + count p qs

count-middle :
    (p q : Pointer) (before after : List Pointer)
    → count p (before ++ q ∷ after)
      ≡ (if same_pointer q p then 1 else 0) + count p (before ++ after)
unfolding count
count-middle p q [] after = refl
count-middle p q (x ∷ before) after = omega (arith, count-middle p q before after)

-- Memory, and the pointers that handlers hold: they ask for memory, and give back what they hold.
pub data Step : HandlerMemory × List Pointer → HandlerMemory × List Pointer → Type 0 where
  allocates :
      (m : HandlerMemory) (held : List Pointer) (size n : ℕ)
      → Step (m, held) ((allocate_elements size n m).1, (allocate_elements size n m).0 ∷ held)
  deallocates :
      (m : HandlerMemory) (before after : List Pointer) (p : Pointer)
      → Step (m, before ++ p ∷ after) (deallocate p m, before ++ after)

pub data Reachable : HandlerMemory × List Pointer → Type 0 where
  starts : Reachable (record { in_use = false; next = 0 }, [])
  goes_on : (s t : HandlerMemory × List Pointer) → Reachable s → Step s t → Reachable t

record IsConsistent (m : HandlerMemory) (held : List Pointer) : Type 0 where
  storage_count : count storage held ≡ (if m.in_use then 1 else 0)
  heap_old : (p : ℕ) → 0 < count (heap p) held → p < m.next
  heap_once : (p : ℕ) → count (heap p) held ≤ 1

allocate-IsConsistent :
    (m : HandlerMemory) (held : List Pointer) (size : ℕ)
    → IsConsistent m held
    → IsConsistent (allocate size m).1 ((allocate size m).0 ∷ held)
unfolding allocate count
allocate-IsConsistent m held size ok = elim (Bool-cases (not m.in_use && leb size storage_size)) [
  | inl mine ↦ rw mine (record {
    storage_count = ground (arith, mine, ok.storage_count);
    heap_old = λ p h. ok.heap_old p (omega (arith, h));
    heap_once = λ p. omega (arith, ok.heap_once p);
  })
  | inr theirs ↦ rw theirs (record {
    storage_count = omega (arith, ok.storage_count);
    heap_old = λ p h. ground (arith, h, ok.heap_old p);
    heap_once = λ p. ground (arith, ok.heap_once p, ok.heap_old p);
  })
]

deallocate-IsConsistent :
    (m : HandlerMemory) (before after : List Pointer) (p : Pointer)
    → IsConsistent m (before ++ p ∷ after)
    → IsConsistent (deallocate p m) (before ++ after)
unfolding deallocate
deallocate-IsConsistent m before after storage ok = record {
  storage_count = ground (arith, count-middle storage storage before after, ok.storage_count);
  heap_old = λ q h. ok.heap_old q (omega (arith, h, count-middle (heap q) storage before after));
  heap_once = λ q. omega (arith, ok.heap_once q, count-middle (heap q) storage before after);
}
deallocate-IsConsistent m before after (heap p) ok = record {
  storage_count = ground (arith, count-middle storage (heap p) before after, ok.storage_count);
  heap_old = λ q h. ok.heap_old q (omega (arith, h, count-middle (heap q) (heap p) before after));
  heap_once = λ q. omega (arith, ok.heap_once q, count-middle (heap q) (heap p) before after);
}

Reachable-IsConsistent : (s : HandlerMemory × List Pointer) → Reachable s → IsConsistent s.0 s.1
unfolding count allocate_elements
Reachable-IsConsistent _ starts = record {
  storage_count = refl;
  heap_old = λ p h. absurd (omega (arith, h));
  heap_once = λ p. omega arith;
}
Reachable-IsConsistent _ (goes_on _ _ before (allocates m held size n)) =
    allocate-IsConsistent m held (size * n) (Reachable-IsConsistent _ before)
Reachable-IsConsistent _ (goes_on _ _ before (deallocates m xs ys p)) =
    deallocate-IsConsistent m xs ys p (Reachable-IsConsistent _ before)

-- However handlers take memory and give back what they hold, no pointer is held twice, that of
-- the storage in the object included; for a memory that started unused.
pub count-Reachable :
    (s : HandlerMemory × List Pointer) → Reachable s → (p : Pointer) → count p s.1 ≤ 1
count-Reachable s reached storage =
    let ok = Reachable-IsConsistent s reached in ground (arith, ok.storage_count)
count-Reachable s reached (heap p) = (Reachable-IsConsistent s reached).heap_once p
