-- ===== src/Lib.antt =====
-- Verification of throttr, an in-memory server of quotas (counters) and values with a time to live.
--
-- A connection reads bytes of a socket into a fixed buffer, cuts whole messages off it and hands each
-- to the command of its type. The commands of the storage work on one container of entries, unique by
-- key: `insert` and `set` create an entry or write over it, `query` and `get` read it, `update` changes
-- its quota or its time to live, `purge` erases it. A collector, run by a timer that the creation of
-- entries schedules, marks entries as expired at their expiration point and erases them ten seconds
-- later. Connections also subscribe to channels and publish to them, and ask for reports: of the
-- entries, of the connections, of the channels and of totals that a collector of metrics keeps.
--
-- Files and the code that they model (paths from the root of the repository):
-- - Protocol: the enumerations of the protocol library, as far as the code names their enumerators.
-- - Time: src/include/throttr/time.hpp, get_expiration_point and get_ttl.
-- - Entry: src/include/throttr/entry.hpp, entry_wrapper.hpp, entry_metrics.hpp and
--   src/sources/entry.cpp; Entry/Copies has its copies and moves, which share a buffer.
-- - Storage: src/include/throttr/storage.hpp. The container of boost::multi_index is a parameter, the
--   record HashedUnique of its operations and documented laws; Storage/ListStorage is a container
--   that meets them, Storage/Views is what a key holds without its counters.
-- - State: src/include/throttr/state.hpp, the members that the files below use. Handlers dispatched to
--   the strand are a list.
-- - Finder: src/sources/services/find_service.cpp.
-- - Create: src/sources/services/create_service.cpp, src/sources/commands/insert_command.cpp and
--   set_command.cpp.
-- - Update: src/sources/services/update_service.cpp and src/sources/commands/update_command.cpp.
-- - Purge and Query: src/sources/commands/purge_command.cpp and query_command.cpp.
-- - Collector: src/sources/services/garbage_collector_service.cpp.
-- - Connection: the read side of src/include/throttr/connection.ipp; Connection/Split is the
--   specification, the stream as a sequence of messages.
-- - Writes: the write side of src/include/throttr/connection.ipp; the queue of boost is a parameter.
-- - Messages: src/sources/services/messages_service.cpp and connection::get_message_size.
-- - Commands: src/sources/services/commands_service.cpp.
-- - Subscriptions: src/sources/services/subscriptions_service.cpp, its container
--   src/include/throttr/services/subscriptions_service.hpp, src/include/throttr/subscription.hpp, and
--   src/sources/commands/subscribe_command.cpp, unsubscribe_command.cpp and publish_command.cpp. The
--   container is a parameter again; Subscriptions/ListSubscriptions meets its laws.
-- - Serializer: src/sources/storage_serializer.cpp, with a file as a list of bytes.
-- - Circular: boost::circular_buffer, a parameter with the laws of its push_back;
--   Circular/ListBuffer meets them.
-- - Pools: src/sources/messages_pool.cpp and buffers_pool.cpp, src/include/throttr/messages_pool.hpp,
--   buffers_pool.hpp, message.hpp and reusable_buffer.hpp. Pools/Recycling has the invariant of a pool.
-- - Startup: app::serve of src/sources/app.cpp and src/sources/state/shutdown.cpp, as far as the main
--   thread uses its pool of buffers.
-- - Reports: src/sources/services/response_builder_service.cpp with src/sources/commands/list_command.cpp
--   and stats_command.cpp; Reports/Adds and Reports/Room are about the room of a response,
--   Reports/Decoding and Reports/Responses are a client that reads it.
-- - Connections: src/sources/commands/connections_command.cpp, connection_command.cpp and
--   whoami_command.cpp, with src/include/throttr/services/response_builder_service.hpp.
-- - Channels: src/sources/commands/channels_command.cpp and channel_command.cpp.
-- - Statistics: src/sources/commands/stat_command.cpp and event_command.cpp.
-- - Info: src/sources/commands/info_command.cpp; Info/Sums and Info/Report are its specification, sums over
--   the entries, the connections and the metrics.
-- - Metrics: src/include/throttr/metric.hpp, connection_metrics.hpp and
--   src/sources/services/metrics_collector_service.cpp.
-- - Members: join and leave of src/include/throttr/state.hpp, which src/include/throttr/connection.ipp
--   calls.
-- - Allocator: src/include/throttr/custom_allocator.hpp.
-- - Server: the commands of the storage and the collector as steps on one state; Server/Requests is
--   their specification, a cell for each key, on which a list of requests is replayed.
-- - Session: a whole connection of src/include/throttr/connection.ipp, from the read to the write, as
--   the handlers that its executor runs; Session/Sharing and Session/History put it among other
--   connections, with one history of requests for all.
-- - Mail: the messages of the pool on their way from take_one to on_write, for any number of
--   connections.
-- - Startup/Options and Startup/Dumping: main.cpp, src/include/throttr/program_parameters.hpp and
--   src/sources/state/shutdown.cpp; Startup/Accepting and Startup/Joining:
--   src/include/throttr/server.hpp and agent.hpp.
-- - Logs: src/include/throttr/utils.hpp and version.hpp.
-- - Tests: concrete runs.
--
-- The build is the one with metrics (ENABLED_FEATURE_METRICS) and without debug output (NDEBUG), on a
-- little-endian host. `w` is the size of a value_type in bytes (THROTTR_VALUE_SIZE). Atomic operations
-- happen one after another, in the order of the code. Every reading of the clock is an argument.
-- Integers of 64 bits and value_types wrap; durations of std::chrono are of 64 signed bits.
--
-- Fuel: the loop of try_process_next has one unit more than the buffer has unread bytes, and each
-- round cuts at least one byte. `run` and `schedule_timer` take a list of readings of the clock, one
-- for each call of now(); with a free mutex two readings decide the outcome. The loop of take_one makes
-- one object a round, so a fuel above the count that it fills up to is enough if the buffer has room.
--
-- The batch of a query or a get points to the unit in the live entry, and the socket reads it when it
-- writes: in the model it is a byte that names the key, next to bytes that are fixed, and the batches of
-- Server and Session keep it so. What such a byte shows, as long as its entry is not erased, is `shown` of
-- Query/Laws. In the other responses a segment is known by the bytes that it shows when it is made; that
-- a field may change, or its entry be erased, before the batch is written is left out there. A message of
-- Mail is known by its write_buffer_ alone.
--
-- Handlers of one connection are taken from a list of those that are posted, by any place in it: the
-- executor is no strand. A handler runs as a whole, with the commands of all messages of a read, so
-- that what two threads do at the same moment to one connection or one entry is left out.
--
-- Not modelled: the protocol library (parsing of requests, header sizes and codes are parameters),
-- boost, the endpoints of the sockets, how accepts and connects come about, and the log lines of the
-- debug build but for their texts of bytes and of enumerators.
pub mod Prelude
pub mod Protocol
pub mod Time
pub mod Entry
pub mod Storage
pub mod State
pub mod Finder
pub mod Create
pub mod Update
pub mod Purge
pub mod Query
pub mod Collector
pub mod Messages
pub mod Connection
pub mod Commands
pub mod Allocator
pub mod Channels
pub mod Circular
pub mod Connections
pub mod Info
pub mod Logs
pub mod Mail
pub mod Members
pub mod Metrics
pub mod Pools
pub mod Reports
pub mod Serializer
pub mod Server
pub mod Session
pub mod Startup
pub mod Statistics
pub mod Subscriptions
pub mod Writes
pub mod Tests
