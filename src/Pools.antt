-- ===== src/Pools.antt =====
-- src/sources/messages_pool.cpp, src/sources/buffers_pool.cpp, src/include/throttr/messages_pool.hpp,
-- buffers_pool.hpp, message.hpp and reusable_buffer.hpp: the pools of messages and of buffers, which
-- are the same code for two types of objects. Each thread has its own. An object is known by a
-- number, and its fields are in a heap. The two circular buffers of boost are a parameter.
pub mod Count
pub mod Recycling
pub mod Filling
pub mod Taking
use throttr.Prelude.{
  ℕ, zero, suc, ◌+◌, ◌*◌, List, [], ◌∷◌, ◌++◌, Bool, true, false, Option, none, some, ◌==◌, length,
  take, ltb, if◌then◌else◌,
}
use throttr.Circular.{CircularBuffer}

-- The fields of the objects by their numbers, and the next number that `make_shared` gives.
pub record Heap : Type 0 where
  pub recyclable : ℕ → Bool
  pub in_use : ℕ → Bool
  -- `write_buffer_` of a message, `buffer_` of a buffer
  pub write_buffer : ℕ → List ℕ
  pub next : ℕ

pub record Pool : Type 0 where
  pub available : List ℕ
  pub used : List ℕ
  -- the capacity of both circular buffers, 0 until `prepares` sets it
  pub capacity : ℕ
  pub heap : Heap

abbrev pub assign {ℓ} : {A : Type ℓ} → (ℕ → A) → ℕ → A → ℕ → A
assign f m a i = if i == m then a else f i

-- `std::make_shared`, and `recyclable_ = true`.
abbrev pub make_object : Heap → Heap
make_object h = record h {
  recyclable = assign h.recyclable h.next true;
  in_use = assign h.in_use h.next false;
  write_buffer = assign h.write_buffer h.next [];
  next = h.next + 1;
}

abbrev pub set_in_use : Heap → ℕ → Bool → Heap
set_in_use h m b = record h { in_use = assign h.in_use m b }

abbrev pub clear : Heap → ℕ → Heap
clear h m = record h { write_buffer = assign h.write_buffer m [] }

-- take_one with an object, `back()` of an empty buffer, or a loop that the fuel did not see end.
pub data Taken : Type 0 where
  took : ℕ → Pool → Taken
  back_of_empty : Pool → Taken
  no_fuel : Taken

-- The default argument of `fit` and `take_one`, and of `prepares`.
abbrev pub default_count : ℕ
default_count = 20_480

-- The last element and those before it.
unfoldable pub last_of : ℕ → List ℕ → List ℕ × ℕ
last_of x [] = ([], x)
last_of x (y ∷ ys) = let (front, z) = last_of y ys in (x ∷ front, z)

unfoldable pub fit : ℕ → Pool → Pool
fit count p =
    if ltb count (length p.available) then record p { available = take count p.available } else p

abbrev pub is_empty : List ℕ → Bool
is_empty [] = true
is_empty (x ∷ xs) = false

module _ (q : CircularBuffer ℕ) where
  -- A new object at the end of available_.
  unfoldable pub add_new : Pool → Pool
  add_new p = record p {
    available = q.push_back p.capacity p.available p.heap.next;
    heap = make_object p.heap;
  }

  unfoldable pub add_many : ℕ → Pool → Pool
  add_many zero p = p
  add_many (suc n) p = add_many n (add_new p)

  -- messages_pool::prepares and buffers_pool::prepares
  unfoldable pub prepares : ℕ → Pool → Pool
  prepares initial p = add_many initial (record p {
    capacity = initial * 2;
    available = take (initial * 2) p.available;
    used = take (initial * 2) p.used;
  })

  -- What the predicate of remove_if does to an object that is not in use.
  unfoldable pub release : Pool → ℕ → Pool
  release p m = record p { available = q.push_back p.capacity p.available m; heap = clear p.heap m }

  -- remove_if on used_: the pool, and the objects that stay.
  unfoldable pub remove_if : Pool → List ℕ → Pool × List ℕ
  remove_if p [] = (p, [])
  remove_if p (m ∷ ms) =
      let (kept_pool, kept) = remove_if p ms in
      let released = remove_if (release p m) ms in
      if p.heap.in_use m then (kept_pool, m ∷ kept) else released

  unfoldable pub recycle : Pool → Pool
  recycle p = let (p', kept) = remove_if p p.used in record p' { used = kept }

  -- The loop of take_one, while there are fewer than `count` objects.
  unfoldable pub refill : ℕ → ℕ → Pool → Option Pool
  refill zero count p = none
  refill (suc fuel) count p =
      let more = refill fuel count (add_new p) in
      if ltb (length p.available) count then more else some p

  -- The end of take_one: the last available object is marked and moved to used_.
  unfoldable pub take_last : Pool → List ℕ → Taken
  take_last p [] = back_of_empty p
  take_last p (x ∷ xs) =
      let (front, m) = last_of x xs in
      took m (record p {
        available = front;
        used = q.push_back p.capacity p.used m;
        heap = set_in_use p.heap m true;
      })

  unfoldable pub take_filled : Option Pool → Taken
  take_filled none = no_fuel
  take_filled (some p) = take_last p p.available

  -- messages_pool::take_one and buffers_pool::take_one; the fuel is for the loop.
  unfoldable pub take_one : ℕ → ℕ → Pool → Taken
  take_one fuel count p =
      let ready = fit default_count (recycle p) in
      let filled = refill fuel count ready in
      if is_empty ready.available then take_filled filled else take_last ready ready.available
