-- ===== src/Entry/Copies.antt =====
-- The copies and moves of src/include/throttr/entry.hpp: an entry points to its buffer, and what is made
-- from an entry points to the same one. A buffer is known by a number.
use throttr.Prelude.{ℕ, List, Bool, true, false, ◌≡◌, refl, ◌==◌, if◌then◌else◌, arith}
use throttr.Protocol.{TtlTypes, EntryTypes}
use throttr.Entry.{Entry, update_buffer}

pub record StoredEntry : Type 0 where
  pub type : EntryTypes
  pub counter : ℕ
  pub buffer_storage : ℕ
  pub ttl_type : TtlTypes
  pub expires_at : ℕ

abbrev pub Buffers : Type 0
Buffers = ℕ → List ℕ

-- What an entry is without its pointer.
abbrev pub value_of : Buffers → StoredEntry → Entry
value_of buffers e = record {
  type = e.type;
  counter = e.counter;
  buffer = buffers e.buffer_storage;
  ttl_type = e.ttl_type;
  expires_at = e.expires_at;
}

-- The move constructor, which leaves the other as it is.
unfoldable pub move_entry : StoredEntry → StoredEntry
move_entry other = record {
  type = other.type;
  counter = other.counter;
  buffer_storage = other.buffer_storage;
  ttl_type = other.ttl_type;
  expires_at = other.expires_at;
}

-- The move assignment; the flag is `this == &other`.
unfoldable pub move_assign_entry : Bool → StoredEntry → StoredEntry → StoredEntry
move_assign_entry same e other = if same then e else record {
  type = other.type;
  counter = other.counter;
  buffer_storage = other.buffer_storage;
  ttl_type = other.ttl_type;
  expires_at = other.expires_at;
}

-- The copy constructor.
unfoldable pub copy_entry : StoredEntry → StoredEntry
copy_entry other = record {
  type = other.type;
  counter = other.counter;
  buffer_storage = other.buffer_storage;
  ttl_type = other.ttl_type;
  expires_at = other.expires_at;
}

-- The copy assignment.
unfoldable pub assign_entry : Bool → StoredEntry → StoredEntry → StoredEntry
assign_entry same e other = if same then e else record {
  type = other.type;
  counter = other.counter;
  buffer_storage = other.buffer_storage;
  ttl_type = other.ttl_type;
  expires_at = other.expires_at;
}

-- entry::update_buffer
unfoldable pub update_stored : Buffers → StoredEntry → List ℕ → Buffers
update_stored buffers e value i = if i == e.buffer_storage then value else buffers i

-- A change of a buffer through an entry changes this entry as if it owned its buffer, every entry
-- that was copied from it, and no entry with another buffer.
pub update_stored-copy_entry :
    (buffers : Buffers) (e x : StoredEntry) (value : List ℕ)
    → let after = update_stored buffers e value in
      (value_of after e ≡ update_buffer (value_of buffers e) value)
      × (value_of after (copy_entry e) ≡ update_buffer (value_of buffers (copy_entry e)) value)
      × ((x.buffer_storage == e.buffer_storage) ≡ false → value_of after x ≡ value_of buffers x)
unfolding update_stored copy_entry
update_stored-copy_entry buffers e x value =
    let same : (e.buffer_storage == e.buffer_storage) ≡ true = ground arith in
    (rw same refl, rw same refl, λ other. rw other refl)

-- A copy, a move and an assignment give the same entry, also where an entry is assigned to itself.
pub assign_entry-copy_entry :
    (e other : StoredEntry)
    → (assign_entry false e other ≡ copy_entry other)
      × (assign_entry true e e ≡ copy_entry e)
      × (move_assign_entry false e other ≡ move_entry other)
      × (move_assign_entry true e e ≡ move_entry e)
      × (move_entry other ≡ copy_entry other)
unfolding assign_entry copy_entry move_assign_entry move_entry
assign_entry-copy_entry e other = (refl, refl, refl, refl, refl)
