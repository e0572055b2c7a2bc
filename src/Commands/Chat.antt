-- ===== src/Commands/Chat.antt =====
-- apps/api/src/game-commands/game-command.service.ts: the four chat channels.
pub mod Secrecy
use mafia_casefile.Prelude.{
  ℕ, String, Bool, not, ◌&&◌, Option, none, some, List, [], ◌∷◌, lookup, keep, ◌==◌, ltb, eqb, trim,
  utf16_length, if◌then◌else◌,
}
use mafia_casefile.Shared.{
  GamePhase, night, day_discussion, phase_eq, mafia, role_eq, is_alive, ChatChannel, lobby_chat,
  day_chat, mafia_chat, ghost_chat,
}
use mafia_casefile.Session.{GameSession, GameSessionPlayer, find_player}
use mafia_casefile.Rooms.{RoomStatus, status_eq, find_participant}
use mafia_casefile.Rooms.Operations.{find_room_by_id}
use mafia_casefile.Events.{
  GameEventType, GameEventPayload, EventVisibility, public_event, mafia_only, ghost_only,
  record_event,
}
use mafia_casefile.World.{World}
use mafia_casefile.Sessions.{find_by_game_id}
use mafia_casefile.Commands.{
  GameCommandUser, GameCommandEnvelope, GameCommandEffect, GameCommandResult, accepted, rejected,
  Payload, Field, text, not_object, object, CommandRejectReason, unauthorized, room_not_found,
  participant_not_found, game_session_not_found, player_not_in_game, player_not_alive,
  player_not_dead, role_not_allowed, chat_not_allowed_in_current_phase, invalid_chat_command,
  invalid_chat_channel, invalid_chat_message, chat_message_too_long, broadcast, ChatMessageEvent,
  chat_message,
}

pub data ParsedChat : Type 0 where
  parsed : ChatChannel → String → ParsedChat
  refused : CommandRejectReason → String → ParsedChat

-- `isSupportedChatChannel`, with the channel that a name stands for
abbrev supported_channel : Option Field → Option ChatChannel
supported_channel (some (text name)) =
    if name == "LOBBY"
    then some lobby_chat
    else if name == "DAY"
    then some day_chat
    else if name == "MAFIA"
    then some mafia_chat
    else if name == "GHOST"
    then some ghost_chat
    else none
supported_channel _ = none

abbrev parse_message : ChatChannel → Option Field → ParsedChat
parse_message channel (some (text message)) =
    let trimmed = trim message in
    if eqb (utf16_length trimmed) 0
    then refused invalid_chat_message "chat message is required"
    else if ltb 500 (utf16_length trimmed)
    then refused chat_message_too_long "chat message is too long"
    else parsed channel trimmed
parse_message channel _ = refused invalid_chat_message "chat message is required"

unfoldable pub parse_chat_payload : Payload → ParsedChat
parse_chat_payload not_object = refused invalid_chat_command "Chat command payload is invalid."
parse_chat_payload (object fields) = elim (supported_channel (lookup "channel" fields)) [
  | none ↦ refused invalid_chat_channel "chat channel is invalid."
  | some channel ↦ parse_message channel (lookup "message" fields)
]

abbrev pub build_chat_message_event :
    GameCommandEnvelope → GameCommandUser → ChatChannel → String → ℕ → ChatMessageEvent
build_chat_message_event c user channel message now = record {
  game_id = c.game_id;
  channel = channel;
  message = message;
  sender_user_id = user.id;
  sent_at = now;
}

-- `recordChatMessage`, and the same call written out in the lobby and day handlers
unfoldable pub record_chat_message :
    GameCommandEnvelope
    → GameCommandUser
    → ChatChannel
    → String
    → ℕ
    → GamePhase
    → EventVisibility
    → World
    → World
record_chat_message c user channel message turn phase during w = record w {
  logs =
      record_event
        (record {
          game_id = c.game_id;
          type = GameEventType.chat_message_sent;
          turn = turn;
          phase = phase;
          actor_user_id = some user.id;
          payload = GameEventPayload.chat channel message user.id;
          visibility_during_game = during;
          visibility_after_game = public_event;
          request_id = c.request_id;
        })
        w.logs;
}

abbrev pub is_mafia_recipient : GameSessionPlayer → Bool
is_mafia_recipient p = role_eq p.role mafia && is_alive p.status

abbrev pub is_ghost : GameSessionPlayer → Bool
is_ghost p = not (is_alive p.status)

unfoldable pub get_alive_mafia_recipients : GameSession → List GameSessionPlayer
get_alive_mafia_recipients s = keep is_mafia_recipient s.players

unfoldable pub get_ghost_recipients : GameSession → List GameSessionPlayer
get_ghost_recipients s = keep is_ghost s.players

unfoldable pub send_to_each : List GameSessionPlayer → ChatMessageEvent → List GameCommandEffect
send_to_each [] event = []
send_to_each (p ∷ ps) event =
    GameCommandEffect.private_event p.user_id (chat_message event) ∷ send_to_each ps event

abbrev refuse :
    GameCommandEnvelope → CommandRejectReason → String → World → GameCommandResult × World
refuse c reason message w = (rejected c.request_id reason message, w)

unfoldable pub handle_lobby_chat :
    GameCommandEnvelope
    → GameCommandUser
    → ChatChannel
    → String
    → ℕ
    → World
    → GameCommandResult × World
handle_lobby_chat c user channel message now w = elim (find_room_by_id c.game_id w.rooms) [
  | none ↦ refuse c room_not_found "room not found" w
  | some room ↦
      if not (status_eq room.status RoomStatus.waiting)
      then refuse c chat_not_allowed_in_current_phase "chat is not allowed in current phase" w
      else elim (find_participant user.id room.participants) [
        | none ↦ refuse c participant_not_found "participant not found" w
        | some p ↦ (
          accepted c.request_id c.type (
              broadcast c.game_id
                (chat_message (build_chat_message_event c user channel message now))
              ∷ []),
          record_chat_message c user channel message 0 GamePhase.waiting public_event w,
        )
      ]
]

unfoldable pub handle_day_chat :
    GameCommandEnvelope
    → GameCommandUser
    → ChatChannel
    → String
    → ℕ
    → World
    → GameCommandResult × World
handle_day_chat c user channel message now w = elim (find_by_game_id c.game_id w.sessions) [
  | none ↦ refuse c game_session_not_found "game session not found" w
  | some s ↦
      if not (phase_eq s.phase day_discussion)
      then refuse c chat_not_allowed_in_current_phase "chat is not allowed in current phase" w
      else elim (find_player user.id s.players) [
        | none ↦ refuse c player_not_in_game "player not found in game session" w
        | some actor ↦
            if not (is_alive actor.status)
            then refuse c player_not_alive "player is not alive" w
            else (
              accepted c.request_id c.type (
                  broadcast c.game_id
                    (chat_message (build_chat_message_event c user channel message now))
                  ∷ []),
              record_chat_message c user channel message s.turn s.phase public_event w,
            )
      ]
]

unfoldable pub handle_mafia_chat :
    GameCommandEnvelope
    → GameCommandUser
    → ChatChannel
    → String
    → ℕ
    → World
    → GameCommandResult × World
handle_mafia_chat c user channel message now w = elim (find_by_game_id c.game_id w.sessions) [
  | none ↦ refuse c game_session_not_found "game session not found" w
  | some s ↦
      if not (phase_eq s.phase night)
      then refuse c chat_not_allowed_in_current_phase "chat is not allowed in current phase" w
      else elim (find_player user.id s.players) [
        | none ↦ refuse c player_not_in_game "player not found in game session" w
        | some actor ↦
            if not (role_eq actor.role mafia)
            then refuse c role_not_allowed "role not allowed" w
            else if not (is_alive actor.status)
            then refuse c player_not_alive "player is not alive" w
            else (
              accepted c.request_id c.type (
                  send_to_each (get_alive_mafia_recipients s)
                    (build_chat_message_event c user channel message now)),
              record_chat_message c user channel message s.turn s.phase mafia_only w,
            )
      ]
]

unfoldable pub handle_ghost_chat :
    GameCommandEnvelope
    → GameCommandUser
    → ChatChannel
    → String
    → ℕ
    → World
    → GameCommandResult × World
handle_ghost_chat c user channel message now w = elim (find_by_game_id c.game_id w.sessions) [
  | none ↦ refuse c game_session_not_found "game session not found" w
  | some s ↦ elim (find_player user.id s.players) [
    | none ↦ refuse c player_not_in_game "player not found in game session" w
    | some actor ↦
        if is_alive actor.status then refuse c player_not_dead "player is not dead" w else (
          accepted c.request_id c.type (
              send_to_each (get_ghost_recipients s)
                (build_chat_message_event c user channel message now)),
          record_chat_message c user channel message s.turn s.phase ghost_only w,
        )
  ]
]

-- The last channel is reached by what is left, as in the source.
abbrev pub handle_channel :
    ChatChannel
    → GameCommandEnvelope
    → GameCommandUser
    → String
    → ℕ
    → World
    → GameCommandResult × World
handle_channel lobby_chat c user message now w = handle_lobby_chat c user lobby_chat message now w
handle_channel day_chat c user message now w = handle_day_chat c user day_chat message now w
handle_channel mafia_chat c user message now w = handle_mafia_chat c user mafia_chat message now w
handle_channel channel c user message now w = handle_ghost_chat c user channel message now w

unfoldable pub handle_send_chat_message :
    GameCommandEnvelope → Option GameCommandUser → ℕ → World → GameCommandResult × World
handle_send_chat_message c none now w =
    (rejected c.request_id unauthorized "Socket user is missing.", w)
handle_send_chat_message c (some user) now w = elim (parse_chat_payload c.payload) [
  | refused reason message ↦ (rejected c.request_id reason message, w)
  | parsed channel message ↦ handle_channel channel c user message now w
]
