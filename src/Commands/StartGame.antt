-- ===== src/Commands/StartGame.antt =====
-- apps/api/src/game-commands/game-command.service.ts: `handleStartGame`.
pub mod Begins
use mafia_casefile.Prelude.{
  ℕ, zero, suc, ◌+◌, String, Option, none, some, List, [], ◌∷◌, ◌++◌, ◌==◌, ltb, eqb, if◌then◌else◌,
}
use Prim.Native.Nat.{◌/◌, ◌%◌}
use Prim.Native.String
use mafia_casefile.Shared.{Env, GamePhase}
use mafia_casefile.Session.Players.{StartGameSessionPlayerInput}
use mafia_casefile.Rooms.{RoomParticipant, find_participant}
use mafia_casefile.Rooms.Operations
use mafia_casefile.Events.{
  GameEventType, GameEventPayload, RecordEventInput, EventVisibility, public_event,
}
use mafia_casefile.World.{World, Action, ◌>>=◌, ◌>>◌, return, on_rooms, on_sessions, log}
use mafia_casefile.Sessions.{start_game_session}
use mafia_casefile.Commands.{
  GameCommandUser, GameCommandEnvelope, GameCommandEffect, GameCommandResult, rejected, answer,
  not_object, object, CommandRejectReason, unauthorized, invalid_room_command, room_not_found,
  not_room_host, room_too_small, room_not_ready, room_not_startable, room_command_failed, broadcast,
  room_updated, game_started, role_assigned,
}
use mafia_casefile.Commands.Roles.{RoleAssignment, build_role_assignments}

digit : ℕ → String
digit d =
    if eqb d 0
    then "0"
    else if eqb d 1
    then "1"
    else if eqb d 2
    then "2"
    else if eqb d 3
    then "3"
    else if eqb d 4
    then "4"
    else if eqb d 5
    then "5"
    else if eqb d 6
    then "6"
    else if eqb d 7
    then "7"
    else if eqb d 8
    then "8"
    else "9"

-- The decimal digits of a number; more fuel than the number has digits is enough.
decimal : ℕ → ℕ → String
decimal zero n = ""
decimal (suc fuel) n =
    let front = decimal fuel (n / 10) in
    if ltb n 10 then digit n else String.◌++◌ front (digit (n % 10))

-- `participant?.nickname ?? `player-${index + 1}``
abbrev nickname_of : List RoomParticipant → RoleAssignment → ℕ → String
nickname_of participants a index = elim (find_participant a.user_id participants) [
  | none ↦ String.◌++◌ "player-" (decimal (suc (suc index)) (index + 1))
  | some p ↦ p.nickname
]

unfoldable pub players_from :
    List RoomParticipant → List RoleAssignment → ℕ → List StartGameSessionPlayerInput
unfolding decimal digit
players_from participants [] index = []
players_from participants (a ∷ as') index =
    (record { user_id = a.user_id; nickname = nickname_of participants a index; role = a.role })
    ∷ players_from participants as' (index + 1)

abbrev start_event :
    GameCommandEnvelope → GameEventType → GameEventPayload → EventVisibility → RecordEventInput
start_event c type payload during = record {
  game_id = c.game_id;
  type = type;
  turn = 0;
  phase = GamePhase.waiting;
  actor_user_id = none;
  payload = payload;
  visibility_during_game = during;
  visibility_after_game = public_event;
  request_id = c.request_id;
}

-- The loop over the assignments: a private event for each player, recorded and sent.
unfoldable pub announce_roles :
    GameCommandEnvelope → List RoleAssignment → Action (List GameCommandEffect)
announce_roles c [] = return []
announce_roles c (a ∷ as') = do
  log (
      start_event c GameEventType.role_assigned (GameEventPayload.role a.user_id a.role)
        EventVisibility.private_event)
  effects ← announce_roles c as'
  return (GameCommandEffect.private_event a.user_id (role_assigned a.user_id a.role) ∷ effects)

abbrev pub start_reason : String → CommandRejectReason
start_reason message =
    if message == "room not found"
    then room_not_found
    else if message == "only host can start game"
    then not_room_host
    else if message == "room needs at least 4 players"
    then room_too_small
    else if message == "not all participants are ready"
    then room_not_ready
    else if message == "room is not startable"
    then room_not_startable
    else room_command_failed

-- `seats` and `cards` are the draws of the two shuffles.
unfoldable pub start_action :
    Env
    → (ℕ → ℕ)
    → (ℕ → ℕ)
    → GameCommandEnvelope
    → GameCommandUser
    → ℕ
    → Action (List GameCommandEffect)
start_action env seats cards c user now = do
  room ← on_rooms (Operations.start_game c.game_id user.id now)
  let assignments = build_role_assignments seats cards room.participants
  session ← on_sessions (
      start_game_session env (record {
        game_id = c.game_id;
        room_id = c.game_id;
        host_user_id = user.id;
        players = players_from room.participants assignments 0;
        started_at = now;
      }))
  log (start_event c GameEventType.game_started (GameEventPayload.started user.id now) public_event)
  roles ← announce_roles c assignments
  return (
      broadcast c.game_id (game_started user.id now session.phase_ends_at) ∷ roles
      ++ broadcast c.game_id (room_updated room) ∷ [])

unfoldable pub handle_start_game :
    Env
    → (ℕ → ℕ)
    → (ℕ → ℕ)
    → GameCommandEnvelope
    → Option GameCommandUser
    → ℕ
    → World
    → GameCommandResult × World
handle_start_game env seats cards c none now w =
    (rejected c.request_id unauthorized "Socket user is missing.", w)
handle_start_game env seats cards c (some user) now w = elim c.payload [
  | not_object ↦ (rejected c.request_id invalid_room_command "Room command payload is invalid.", w)
  | object fields ↦ answer c start_reason (start_action env seats cards c user now) w
]
