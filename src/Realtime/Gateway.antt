-- ===== src/Realtime/Gateway.antt =====
-- apps/api/src/realtime/realtime.gateway.ts (with personal-event-channel.service.ts): the socket
-- gateway, between the sockets, the services and their stores.
pub mod Effects
pub mod Handling
pub mod Timing
pub mod Connecting
pub mod Guards
use Prim.Native.String
use mafia_casefile.Prelude.{ℕ, String, Bool, Option, none, some, List, [], ◌∷◌, ◌++◌}
use mafia_casefile.Shared.{Env}
use mafia_casefile.World.{World}
use mafia_casefile.Commands.{
  CommandRejectReason, GameCommandUser, ServerEvent, ChatMessageEvent, GameCommandResult, accepted,
  rejected,
}
use mafia_casefile.Realtime.Redis.{Redis}
use mafia_casefile.Realtime.Requests.{RequestIdempotencyRecord}
use mafia_casefile.Realtime.Locks.{LockSettings}
use mafia_casefile.Realtime.Connections.{RealtimeConnectionState, ConnectionStore}
use mafia_casefile.Realtime.ChatCache.{RedisList}
use mafia_casefile.Realtime.Timers.{SortedSet, Dates}
use mafia_casefile.Realtime.Envelope.{CommandRejectedEvent}
use mafia_casefile.Realtime.ReconnectState.{ReconnectStateEvent}

-- What one client alone is told.
pub data Reply : Type 0 where
  command_accepted : String → String → Reply
  command_rejected : CommandRejectedEvent → Reply
  reconnect_state : String → ReconnectStateEvent → Reply

-- What the gateway does with sockets: a socket joins or leaves a room, and events are sent to a room,
-- to a user's own room, or to one socket.
pub data Emission : Type 0 where
  joins : String → String → Emission
  leaves : String → String → Emission
  to_room : String → ServerEvent → Emission
  player_disconnected : String → String → ℕ → ℕ → Emission
  to_user : String → ServerEvent → Emission
  to_socket : String → Reply → Emission

-- `PersonalEventChannelService.userRoom`
abbrev pub user_room : String → String
user_room user_id = String.◌++◌ "user:" user_id

-- The socket of a client, with the user that it was authenticated for.
pub record Client : Type 0 where
  pub socket_id : String
  pub user : Option GameCommandUser

-- The environment that the gateway runs in: its settings, and the functions and servers it calls.
pub record Platform : Type 1 where
  pub env : Env
  pub dates : Dates
  pub requests : Redis RequestIdempotencyRecord
  pub request_ttl : Option ℕ
  pub locks : Redis String
  pub lock_settings : LockSettings
  pub connections : Redis RealtimeConnectionState
  pub connection_ttl : Option ℕ
  pub chats : RedisList ChatMessageEvent
  pub chat_limit : Option ℕ
  pub timers : SortedSet
  pub grace_period : Option ℕ
  pub server_instance_id : String

-- The stores, and what was sent, the first first.
pub record Server (p : Platform) : Type 0 where
  pub world : World
  pub requests : Redis.Store p.requests
  pub locks : Redis.Store p.locks
  pub connections : ConnectionStore p.connections p.connection_ttl
  pub chats : RedisList.Store p.chats
  pub timers : SortedSet.Store p.timers
  pub sent : List Emission
