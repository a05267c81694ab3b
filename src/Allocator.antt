-- ===== src/Allocator.antt =====
-- src/include/throttr/custom_allocator.hpp: the memory of the handlers of a connection. The storage
-- of the object serves one handler at a time, `operator new` the others. A pointer that operator new
-- gives is a number, a new one each time.
pub mod Pointers
use throttr.Prelude.{ℕ, ◌+◌, ◌*◌, Bool, true, false, not, ◌&&◌, leb, if◌then◌else◌}

pub data Pointer : Type 0 where
  storage : Pointer
  heap : ℕ → Pointer

pub record HandlerMemory : Type 0 where
  pub in_use : Bool
  -- the next pointer of operator new
  pub next : ℕ

abbrev pub storage_size : ℕ
storage_size = 81_920

-- custom_handler_memory::allocate
unfoldable pub allocate : ℕ → HandlerMemory → Pointer × HandlerMemory
allocate size m =
    if not m.in_use && leb size storage_size
    then (storage, record m { in_use = true })
    else (heap m.next, record m { next = m.next + 1 })

-- custom_handler_memory::deallocate
unfoldable pub deallocate : Pointer → HandlerMemory → HandlerMemory
deallocate storage m = record m { in_use = false }
deallocate (heap p) m = m

-- custom_allocator::allocate, for so many elements of a size.
unfoldable pub allocate_elements : ℕ → ℕ → HandlerMemory → Pointer × HandlerMemory
allocate_elements size n m = allocate (size * n) m
