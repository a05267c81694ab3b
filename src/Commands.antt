-- ===== src/Commands.antt =====
-- src/sources/services/commands_service.cpp: the table of commands, by the code of a request type.
pub mod Agreement
use throttr.Prelude.{ℕ, List, [], ◌∷◌, replicate}
use throttr.Protocol.{
  RequestTypes, insert, query, update, set, get, purge, stat, list, stats, connections, connection,
  whoami, subscribe, unsubscribe, publish, channels, channel, info, event,
}
use throttr.State.{failed_response}
use throttr.Messages.{install, request_types}

-- The functions `*_command::call` that the table points to.
pub data Command : Type 0 where
  base_command insert_command set_command query_command update_command purge_command : Command
  list_command stat_command stats_command connections_command connection_command : Command
  whoami_command subscribe_command unsubscribe_command publish_command : Command
  channels_command channel_command info_command event_command : Command

-- `get` is served by query_command.
unfoldable pub command_of : RequestTypes → Command
command_of insert = insert_command
command_of set = set_command
command_of query = query_command
command_of get = query_command
command_of update = update_command
command_of purge = purge_command
command_of list = list_command
command_of stat = stat_command
command_of stats = stats_command
command_of connections = connections_command
command_of connection = connection_command
command_of whoami = whoami_command
command_of subscribe = subscribe_command
command_of unsubscribe = unsubscribe_command
command_of publish = publish_command
command_of channels = channels_command
command_of channel = channel_command
command_of info = info_command
command_of event = event_command

-- The table of commands_service, of 256 slots, as its constructor leaves it.
unfoldable pub commands : (RequestTypes → ℕ) → List Command
commands code = install code command_of request_types (replicate 256 base_command)

-- base_command::call: the response of every code that names no request type.
abbrev pub base_response : List ℕ
base_response = failed_response ∷ []
