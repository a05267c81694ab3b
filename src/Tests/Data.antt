-- ===== src/Tests/Data.antt =====
-- The inputs of the concrete runs: a storage that is a list, and one counter and one raw entry.
use throttr.Prelude.{
  ℕ, ◌<◌, List, [], ◌∷◌, Bool, true, false, none, some, ◌≡◌, refl, ◌∙◌, sym, ap, arith,
  if◌then◌else◌, get_or, bytes_eq,
}
use throttr.Protocol.{
  TtlTypes, seconds, counter, raw, RequestTypes, insert, query, update, set, get, purge, stat, list,
  stats, connections, connection, whoami, subscribe, unsubscribe, publish, channels, channel, info,
  event,
}
use throttr.Storage.{find_key}
use throttr.Storage.ListStorage.{list_storage}
use throttr.Storage.Views.{view}
use throttr.Messages.{Headers}
use throttr.Messages.Stable.{IsLayout}
use throttr.Messages.Table.{IsCoding}
use throttr.Entry.{Key, Entry, EntryWrapper, no_metrics}
use throttr.State.{State}

abbrev pub ip : Key
ip = 49 ∷ 50 ∷ []

abbrev pub page : Key
page = 112 ∷ []

-- A quota of 10 that ends at second 5.
abbrev pub quota_entry : Entry
quota_entry = record {
  type = counter;
  counter = 10;
  buffer = [];
  ttl_type = seconds;
  expires_at = 5_000_000_000;
}

abbrev pub raw_entry : Entry
raw_entry = record {
  type = raw;
  counter = 0;
  buffer = 7 ∷ 8 ∷ [];
  ttl_type = seconds;
  expires_at = 5_000_000_000;
}

abbrev pub item : Key → Entry → Bool → EntryWrapper
item k e expired = record { key = k; entry = e; expired = expired; metrics = no_metrics }

abbrev pub holding : List EntryWrapper → State (List EntryWrapper)
holding s = record {
  storage = s;
  scheduled_key = [];
  dispatched = [];
  expiration_timer = none;
  locked = false;
}

-- A live quota and a raw entry whose mark of expiry is set.
abbrev pub two_items : List EntryWrapper
two_items = item ip quota_entry false ∷ item page raw_entry true ∷ []

-- Bytes of the units; the protocol library chooses them.
abbrev pub unit_code : TtlTypes → ℕ
unit_code t = 4

pub view-ip : view list_storage two_items ip ≡ some (quota_entry, false)
unfolding view list_storage find_key bytes_eq
view-ip = refl

-- Codes and headers that the protocol library could have, for values of two bytes.
abbrev pub codes : RequestTypes → ℕ
codes insert = 1
codes query = 2
codes update = 3
codes set = 4
codes get = 5
codes purge = 6
codes stat = 7
codes list = 8
codes stats = 9
codes connections = 10
codes connection = 11
codes whoami = 12
codes subscribe = 13
codes unsubscribe = 14
codes publish = 15
codes channels = 16
codes channel = 17
codes info = 18
codes event = 19

abbrev by_code : List RequestTypes
by_code =
    event ∷ insert ∷ query ∷ update ∷ set ∷ get ∷ purge ∷ stat ∷ list ∷ stats ∷ connections
    ∷ connection ∷ whoami ∷ subscribe ∷ unsubscribe ∷ publish ∷ channels ∷ channel ∷ info ∷ event
    ∷ []

abbrev type_of : ℕ → RequestTypes
type_of n = get_or by_code n event

type_of-codes : (t : RequestTypes) → type_of (codes t) ≡ t
type_of-codes insert = refl
type_of-codes query = refl
type_of-codes update = refl
type_of-codes set = refl
type_of-codes get = refl
type_of-codes purge = refl
type_of-codes stat = refl
type_of-codes list = refl
type_of-codes stats = refl
type_of-codes connections = refl
type_of-codes connection = refl
type_of-codes whoami = refl
type_of-codes subscribe = refl
type_of-codes unsubscribe = refl
type_of-codes publish = refl
type_of-codes channels = refl
type_of-codes channel = refl
type_of-codes info = refl
type_of-codes event = refl

codes-lt : (t : RequestTypes) → codes t < 32
codes-lt insert = omega arith
codes-lt query = omega arith
codes-lt update = omega arith
codes-lt set = omega arith
codes-lt get = omega arith
codes-lt purge = omega arith
codes-lt stat = omega arith
codes-lt list = omega arith
codes-lt stats = omega arith
codes-lt connections = omega arith
codes-lt connection = omega arith
codes-lt whoami = omega arith
codes-lt subscribe = omega arith
codes-lt unsubscribe = omega arith
codes-lt publish = omega arith
codes-lt channels = omega arith
codes-lt channel = omega arith
codes-lt info = omega arith
codes-lt event = omega arith

pub codes-IsCoding : IsCoding codes
codes-IsCoding = record {
  injective = λ s t e. sym (type_of-codes s) ∙ ap type_of e ∙ type_of-codes t;
  small = codes-lt;
}

abbrev pub headers : Headers
headers = record {
  insert_size = 7;
  query_size = 2;
  update_size = 6;
  set_size = 7;
  get_size = 2;
  purge_size = 2;
  stat_size = 2;
  list_size = 1;
  stats_size = 1;
  connections_size = 1;
  connection_size = 17;
  whoami_size = 1;
  subscribe_size = 2;
  unsubscribe_size = 2;
  publish_size = 4;
  channels_size = 1;
  channel_size = 2;
  event_size = 4;
}

pub headers-IsLayout : IsLayout 2 headers
headers-IsLayout = record {
  insert_count = omega arith;
  query_count = omega arith;
  update_count = omega arith;
  set_counts = (omega arith, omega arith);
  get_count = omega arith;
  purge_count = omega arith;
  stat_count = omega arith;
  subscribe_count = omega arith;
  unsubscribe_count = omega arith;
  publish_counts = (omega arith, omega arith);
  channel_count = omega arith;
  event_counts = (omega arith, omega arith);
}

abbrev pub one_item : List EntryWrapper
one_item = item ip quota_entry false ∷ []

pub view_one :
    (k : Key)
    → view list_storage one_item k ≡ (if bytes_eq ip k then some (quota_entry, false) else none)
unfolding view list_storage find_key
view_one k = ground arith
