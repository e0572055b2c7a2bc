-- ===== src/Realtime/Gateway/Effects.antt =====
-- apps/api/src/realtime/realtime.gateway.ts: what is done for each effect of a command, in order.
pub mod Untouched
use Prim.Native.String
use mafia_casefile.Prelude.{
  ℕ, String, Bool, true, false, Option, none, some, List, [], ◌∷◌, ◌++◌, any, ◌==◌, if◌then◌else◌,
}
use mafia_casefile.Commands.{
  CommandRejectReason, GameCommandUser, ServerEvent, game_started, phase_changed, chat_message,
  ChatMessageEvent, GameCommandEffect, join_room, leave_room, broadcast, private_event,
}
use mafia_casefile.Realtime.Connections.{set_room, clear_room}
use mafia_casefile.Realtime.ChatCache.{append, channel_name}
use mafia_casefile.Realtime.Timers.{Dates, schedule, clear_game}
use mafia_casefile.Realtime.Gateway.{
  Reply, command_accepted, command_rejected, Emission, joins, leaves, to_room, to_user, to_socket,
  Client, Platform, Server,
}

-- `${gameId}:${channel}:${senderUserId}:${sentAt}:${message}`
unfoldable pub cache_key : Dates → ChatMessageEvent → String
cache_key dates m = String.◌++◌ m.game_id (
    String.◌++◌ ":" (
      String.◌++◌ (channel_name m.channel) (
        String.◌++◌ ":" (
          String.◌++◌ m.sender_user_id
            (String.◌++◌ ":" (String.◌++◌ (dates.to_iso m.sent_at) (String.◌++◌ ":" m.message)))))))

module _ (p : Platform) where
  unfoldable pub emit : Emission → Server p → Server p
  emit e s = record s { sent = s.sent ++ e ∷ [] }

  -- `emitAccepted`
  abbrev pub emit_accepted : Client → String → String → Server p → Server p
  emit_accepted client request_id received_type s =
      emit (to_socket client.socket_id (command_accepted request_id received_type)) s

  -- `emitRoomRejected`
  abbrev pub emit_room_rejected :
      Client → String → CommandRejectReason → String → Server p → Server p
  emit_room_rejected client request_id reason message s =
      emit
        (to_socket client.socket_id (
          command_rejected
            (record { request_id = some request_id; reason = reason; message = message })))
        s

  -- The end of a phase, or none, is written down for a game.
  unfoldable pub schedule_deadline : String → Option ℕ → Server p → Server p
  schedule_deadline game_id none s = record s {
    timers = clear_game p.timers p.dates game_id s.timers;
  }
  schedule_deadline game_id (some ends) s =
      let dates = p.dates in
      record s {
        timers =
            schedule p.timers p.dates
              (record { game_id = game_id; phase_ends_at = dates.to_iso ends }) s.timers;
      }

  unfoldable pub schedule_phase_timer_from_effect : String → ServerEvent → Server p → Server p
  schedule_phase_timer_from_effect game_id (game_started by at ends) s =
      schedule_deadline game_id ends s
  schedule_phase_timer_from_effect game_id (phase_changed from to turn by ends at) s =
      schedule_deadline game_id ends s
  schedule_phase_timer_from_effect game_id event s = s

  -- A message is put into the cache unless it was seen among these effects before.
  unfoldable pub cache_chat_message_effect :
      ServerEvent → List String → Server p → List String × Server p
  cache_chat_message_effect (chat_message m) seen s =
      let key = cache_key p.dates m in
      if any (λ k. k == key) seen
      then (seen, s)
      else (key ∷ seen, record s { chats = append p.chats p.chat_limit m s.chats })
  cache_chat_message_effect event seen s = (seen, s)

  unfoldable pub set_client_room :
      Client → Option GameCommandUser → String → ℕ → Server p → Server p
  set_client_room client none room_id now s = s
  set_client_room client (some user) room_id now s = record s {
    connections =
        (set_room p.connections p.connection_ttl user.id client.socket_id room_id now
          s.connections).1;
  }

  unfoldable pub clear_client_room :
      Client → Option GameCommandUser → String → ℕ → Server p → Server p
  clear_client_room client none room_id now s = s
  clear_client_room client (some user) room_id now s = record s {
    connections =
        (clear_room p.connections p.connection_ttl user.id client.socket_id room_id now
          s.connections).1;
  }

  -- The effects from some point on; `seen` are the messages cached before it.
  unfoldable pub apply_effects :
      Client
      → Option GameCommandUser
      → ℕ
      → List GameCommandEffect
      → List String
      → Server p
      → Server p
  apply_effects client user now [] seen s = s
  apply_effects client user now (join_room room_id ∷ effects) seen s =
      apply_effects client user now effects seen
        (set_client_room client user room_id now (emit (joins client.socket_id room_id) s))
  apply_effects client user now (leave_room room_id ∷ effects) seen s =
      apply_effects client user now effects seen
        (clear_client_room client user room_id now (emit (leaves client.socket_id room_id) s))
  apply_effects client user now (broadcast room_id event ∷ effects) seen s =
      let (seen', s') =
        cache_chat_message_effect event seen
          (schedule_phase_timer_from_effect room_id event (emit (to_room room_id event) s)) in
      apply_effects client user now effects seen' s'
  apply_effects client user now (private_event user_id event ∷ effects) seen s =
      let (seen', s') = cache_chat_message_effect event seen (emit (to_user user_id event) s) in
      apply_effects client user now effects seen' s'

  abbrev pub apply_command_effects :
      Client → Option GameCommandUser → ℕ → List GameCommandEffect → Server p → Server p
  apply_command_effects client user now effects s = apply_effects client user now effects [] s

  unfoldable pub apply_system_effects : List GameCommandEffect → List String → Server p → Server p
  apply_system_effects [] seen s = s
  apply_system_effects (broadcast room_id event ∷ effects) seen s =
      let (seen', s') =
        cache_chat_message_effect event seen
          (schedule_phase_timer_from_effect room_id event (emit (to_room room_id event) s)) in
      apply_system_effects effects seen' s'
  apply_system_effects (effect ∷ effects) seen s = apply_system_effects effects seen s

  abbrev pub apply_system_command_effects : List GameCommandEffect → Server p → Server p
  apply_system_command_effects effects s = apply_system_effects effects [] s
