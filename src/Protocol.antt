-- ===== src/Protocol.antt =====
-- The enumerations of the wire protocol. They are declared by the protocol library, which is
-- fetched at build time; their enumerators are the ones that the code names
-- (src/sources/services/update_service.cpp, src/include/throttr/utils.hpp,
-- src/sources/services/commands_service.cpp). Their numeric codes are not known here.
-- A byte of the wire is cast to an enumeration without a check, so each of them has a value
-- `other` for the bytes that name no enumerator.
use throttr.Prelude.{ℕ, ◌^◌}

pub data TtlTypes : Type 0 where
  nanoseconds microseconds milliseconds seconds minutes hours : TtlTypes
  other : ℕ → TtlTypes

pub data EntryTypes : Type 0 where
  counter raw : EntryTypes
  other : ℕ → EntryTypes

pub data AttributeTypes : Type 0 where
  quota ttl : AttributeTypes
  other : ℕ → AttributeTypes

pub data ChangeTypes : Type 0 where
  patch increase decrease : ChangeTypes
  other : ℕ → ChangeTypes

-- The types that commands_service and messages_service name.
pub data RequestTypes : Type 0 where
  insert query update set get purge stat list stats connections connection whoami : RequestTypes
  subscribe unsubscribe publish channels channel info event : RequestTypes

-- `value_type` is one of uint8_t, uint16_t, uint32_t and uint64_t, by the build's
-- THROTTR_VALUE_SIZE; here it is known by `w`, its size in bytes.
abbrev pub value_mod : ℕ → ℕ
value_mod w = 256 ^ w

-- uint64_t.
abbrev pub u64_mod : ℕ
u64_mod = 2 ^ 64
