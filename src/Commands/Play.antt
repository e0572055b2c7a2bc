-- ===== src/Commands/Play.antt =====
-- apps/api/src/game-commands/game-command.service.ts: votes and night actions.
use mafia_casefile.Prelude.{
  ℕ, String, Option, none, some, List, [], ◌∷◌, lookup, ◌==◌, if◌then◌else◌,
}
use mafia_casefile.Shared.{Env}
use mafia_casefile.Session.{GameSession, GameSessionPlayer}
use mafia_casefile.Session.Operations.{TargetKey, mafia_key, doctor_key, police_key, VoteCastResult}
use mafia_casefile.Rooms.{is_non_empty_string}
use mafia_casefile.Events.{
  GameEventType, GameEventPayload, RecordEventInput, EventVisibility, public_event, private_event,
  mafia_only,
}
use mafia_casefile.World.{World, Action, ◌>>=◌, ◌>>◌, return, on_sessions, log_if, log}
use mafia_casefile.Sessions.{select_target, cast_vote}
use mafia_casefile.Commands.{
  GameCommandUser, GameCommandEnvelope, GameCommandEffect, GameCommandResult, rejected, answer,
  Field, text, not_object, object, CommandRejectReason, unauthorized, invalid_room_command,
  game_session_not_found, game_not_in_voting, game_not_in_night, player_not_in_game,
  player_not_alive, target_player_not_found, target_player_not_alive, target_self_not_allowed,
  vote_already_cast, role_not_allowed, room_command_failed, investigation_result,
}

abbrev play_event :
    GameCommandEnvelope
    → GameCommandUser
    → GameEventType
    → GameSession
    → GameEventPayload
    → EventVisibility
    → RecordEventInput
play_event c user type s payload during = record {
  game_id = c.game_id;
  type = type;
  turn = s.turn;
  phase = s.phase;
  actor_user_id = some user.id;
  payload = payload;
  visibility_during_game = during;
  visibility_after_game = public_event;
  request_id = c.request_id;
}

abbrev pub vote_reason : String → CommandRejectReason
vote_reason message =
    if message == "game session not found"
    then game_session_not_found
    else if message == "votes are only allowed during VOTING"
    then game_not_in_voting
    else if message == "actor not found"
    then player_not_in_game
    else if message == "dead player cannot vote"
    then player_not_alive
    else if message == "target player not found"
    then target_player_not_found
    else if message == "target player is not alive"
    then target_player_not_alive
    else if message == "vote already cast"
    then vote_already_cast
    else room_command_failed

abbrev vote_log : GameCommandEnvelope → GameCommandUser → VoteCastResult → Option RecordEventInput
vote_log c user vote =
    let target = vote.target in
    if vote.duplicate_request
    then none
    else some (
        play_event c user GameEventType.vote_casted vote.session
          (GameEventPayload.target target.user_id) public_event)

unfoldable pub vote_action :
    Env → GameCommandEnvelope → GameCommandUser → String → ℕ → Action (List GameCommandEffect)
vote_action env c user target_id now = do
  vote ← on_sessions (cast_vote env c.game_id user.id target_id c.request_id now)
  log_if (vote_log c user vote)
  return []

unfoldable pub vote_with :
    Env
    → GameCommandEnvelope
    → GameCommandUser
    → Option Field
    → ℕ
    → World
    → GameCommandResult × World
vote_with env c user (some (text target_id)) now w =
    if is_non_empty_string target_id
    then answer c vote_reason (vote_action env c user target_id now) w
    else (rejected c.request_id invalid_room_command "Vote target user is required.", w)
vote_with env c user _ now w =
    (rejected c.request_id invalid_room_command "Vote target user is required.", w)

unfoldable pub handle_cast_vote :
    Env → GameCommandEnvelope → Option GameCommandUser → ℕ → World → GameCommandResult × World
unfolding vote_with
handle_cast_vote env c none now w =
    (rejected c.request_id unauthorized "Socket user is missing.", w)
handle_cast_vote env c (some user) now w = elim c.payload [
  | not_object ↦ (rejected c.request_id invalid_room_command "Room command payload is invalid.", w)
  | object fields ↦ vote_with env c user (lookup "targetUserId" fields) now w
]

abbrev night_event_type : TargetKey → GameEventType
night_event_type mafia_key = GameEventType.mafia_target_selected
night_event_type doctor_key = GameEventType.doctor_target_selected
night_event_type police_key = GameEventType.police_investigated

abbrev pub night_visibility : TargetKey → EventVisibility
night_visibility mafia_key = mafia_only
night_visibility doctor_key = private_event
night_visibility police_key = private_event

abbrev night_payload : TargetKey → GameSessionPlayer → GameEventPayload
night_payload police_key target = GameEventPayload.investigated target.user_id target.role
night_payload _ target = GameEventPayload.target target.user_id

abbrev night_effects : TargetKey → GameCommandUser → GameSessionPlayer → ℕ → List GameCommandEffect
night_effects police_key user target now =
    GameCommandEffect.private_event user.id (investigation_result target.user_id target.role now)
    ∷ []
night_effects _ user target now = []

-- The handler has no case for 'night action already selected'.
abbrev pub night_reason : String → CommandRejectReason
night_reason message =
    if message == "game session not found"
    then game_session_not_found
    else if message == "night actions are only allowed during NIGHT"
    then game_not_in_night
    else if message == "actor not found"
    then player_not_in_game
    else if message == "dead player cannot act"
    then player_not_alive
    else if message == "role not allowed"
    then role_not_allowed
    else if message == "target player not found"
    then target_player_not_found
    else if message == "target player is not alive"
    then target_player_not_alive
    else if message == "target self is not allowed"
    then target_self_not_allowed
    else room_command_failed

unfoldable pub night_action :
    TargetKey → GameCommandEnvelope → GameCommandUser → String → ℕ → Action (List GameCommandEffect)
night_action key c user target_id now = do
  selection ← on_sessions (select_target key c.game_id user.id target_id now)
  log (
      play_event c user (night_event_type key) selection.session
        (night_payload key selection.target) (night_visibility key))
  return (night_effects key user selection.target now)

unfoldable pub night_with :
    TargetKey
    → GameCommandEnvelope
    → GameCommandUser
    → Option Field
    → ℕ
    → World
    → GameCommandResult × World
night_with key c user (some (text target_id)) now w =
    if is_non_empty_string target_id
    then answer c night_reason (night_action key c user target_id now) w
    else (rejected c.request_id invalid_room_command "Night target user is required.", w)
night_with key c user _ now w =
    (rejected c.request_id invalid_room_command "Night target user is required.", w)

unfoldable pub handle_night_target_command :
    TargetKey → GameCommandEnvelope → Option GameCommandUser → ℕ → World → GameCommandResult × World
unfolding night_with
handle_night_target_command key c none now w =
    (rejected c.request_id unauthorized "Socket user is missing.", w)
handle_night_target_command key c (some user) now w = elim c.payload [
  | not_object ↦ (rejected c.request_id invalid_room_command "Room command payload is invalid.", w)
  | object fields ↦ night_with key c user (lookup "targetUserId" fields) now w
]
