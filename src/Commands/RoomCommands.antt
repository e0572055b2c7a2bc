-- ===== src/Commands/RoomCommands.antt =====
-- apps/api/src/game-commands/game-command.service.ts: the commands of a waiting room.
use mafia_casefile.Prelude.{
  ℕ, String, Bool, Option, none, some, List, [], ◌∷◌, lookup, ◌==◌, if◌then◌else◌,
}
use mafia_casefile.Shared.{GamePhase}
use mafia_casefile.Rooms.{is_non_empty_string}
use mafia_casefile.Rooms.Operations
use mafia_casefile.Events.{
  GameEventType, GameEventPayload, RecordEventInput, public_event, player_joined, player_left,
  player_ready_changed,
}
use mafia_casefile.World.{World, Action, ◌>>=◌, ◌>>◌, return, on_rooms, log}
use mafia_casefile.Commands.{
  GameCommandUser, GameCommandEnvelope, GameCommandEffect, GameCommandResult, rejected, answer,
  Field, text, flag, not_object, object, CommandRejectReason, unauthorized, invalid_room_command,
  room_not_found, room_full, room_not_joinable, room_command_failed, participant_not_found,
  join_room, leave_room, broadcast, room_updated,
}

-- The events of a waiting room are public, on turn 0.
abbrev lobby_event :
    GameCommandEnvelope → GameCommandUser → GameEventType → GameEventPayload → RecordEventInput
lobby_event c user type payload = record {
  game_id = c.game_id;
  type = type;
  turn = 0;
  phase = GamePhase.waiting;
  actor_user_id = some user.id;
  payload = payload;
  visibility_during_game = public_event;
  visibility_after_game = public_event;
  request_id = c.request_id;
}

abbrev pub join_reason : String → CommandRejectReason
join_reason message =
    if message == "room not found"
    then room_not_found
    else if message == "room is full"
    then room_full
    else if message == "room is not joinable"
    then room_not_joinable
    else room_command_failed

unfoldable pub join_action :
    GameCommandEnvelope → GameCommandUser → String → ℕ → Action (List GameCommandEffect)
join_action c user nickname now = do
  room ← on_rooms (Operations.join_room c.game_id user.id nickname now)
  log (lobby_event c user player_joined (GameEventPayload.joined user.id nickname))
  return (join_room c.game_id ∷ broadcast c.game_id (room_updated room) ∷ [])

unfoldable pub join_with :
    GameCommandEnvelope → GameCommandUser → Option Field → ℕ → World → GameCommandResult × World
join_with c user (some (text nickname)) now w =
    if is_non_empty_string nickname
    then answer c join_reason (join_action c user nickname now) w
    else (rejected c.request_id invalid_room_command "Room nickname is required.", w)
join_with c user _ now w =
    (rejected c.request_id invalid_room_command "Room nickname is required.", w)

unfoldable pub handle_join_room :
    GameCommandEnvelope → Option GameCommandUser → ℕ → World → GameCommandResult × World
unfolding join_with
handle_join_room c none now w = (rejected c.request_id unauthorized "Socket user is missing.", w)
handle_join_room c (some user) now w = elim c.payload [
  | not_object ↦ (rejected c.request_id invalid_room_command "Room command payload is invalid.", w)
  | object fields ↦ join_with c user (lookup "nickname" fields) now w
]

abbrev pub leave_reason : String → CommandRejectReason
leave_reason message =
    if message == "room not found"
    then room_not_found
    else if message == "participant not found"
    then participant_not_found
    else room_command_failed

unfoldable pub leave_action :
    GameCommandEnvelope → GameCommandUser → ℕ → Action (List GameCommandEffect)
leave_action c user now = do
  room ← on_rooms (Operations.leave_room c.game_id user.id now)
  log (lobby_event c user player_left (GameEventPayload.left user.id))
  return (leave_room c.game_id ∷ broadcast c.game_id (room_updated room) ∷ [])

unfoldable pub handle_leave_room :
    GameCommandEnvelope → Option GameCommandUser → ℕ → World → GameCommandResult × World
handle_leave_room c none now w = (rejected c.request_id unauthorized "Socket user is missing.", w)
handle_leave_room c (some user) now w = answer c leave_reason (leave_action c user now) w

abbrev pub ready_reason : String → CommandRejectReason
ready_reason message =
    if message == "room not found"
    then room_not_found
    else if message == "room is not joinable"
    then room_not_joinable
    else if message == "participant not found"
    then participant_not_found
    else room_command_failed

unfoldable pub ready_action :
    GameCommandEnvelope → GameCommandUser → Bool → ℕ → Action (List GameCommandEffect)
ready_action c user is_ready now = do
  room ← on_rooms (Operations.change_ready c.game_id user.id is_ready now)
  log (lobby_event c user player_ready_changed (GameEventPayload.ready user.id is_ready))
  return (broadcast c.game_id (room_updated room) ∷ [])

unfoldable pub ready_with :
    GameCommandEnvelope → GameCommandUser → Option Field → ℕ → World → GameCommandResult × World
ready_with c user (some (flag is_ready)) now w =
    answer c ready_reason (ready_action c user is_ready now) w
ready_with c user _ now w =
    (rejected c.request_id invalid_room_command "Room ready state is required.", w)

unfoldable pub handle_change_ready :
    GameCommandEnvelope → Option GameCommandUser → ℕ → World → GameCommandResult × World
unfolding ready_with
handle_change_ready c none now w = (rejected c.request_id unauthorized "Socket user is missing.", w)
handle_change_ready c (some user) now w = elim c.payload [
  | not_object ↦ (rejected c.request_id invalid_room_command "Room command payload is invalid.", w)
  | object fields ↦ ready_with c user (lookup "isReady" fields) now w
]
