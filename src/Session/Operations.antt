-- ===== src/Session/Operations.antt =====
-- apps/api/src/game-session/game-session.service.ts: what each call does to the session that it has
-- loaded, until the session is saved: start, connections, night actions, votes.
use mafia_casefile.Prelude.{
  ℕ, ◌+◌, ◌*◌, String, Bool, true, false, not, ◌&&◌, Option, none, some, List, [], map, lookup,
  insert, ◌==◌, ltb, truthy?, if◌then◌else◌,
}
use mafia_casefile.Prelude.Results.{Result, ok, or_throw, throw_if, ◌>>=◌, ◌>>◌}
use mafia_casefile.Shared.{
  Env, GamePhase, night, day_discussion, voting, result, phase_eq, Role, role_eq, is_alive,
  ConnectionStatus, connected, disconnected,
}
use mafia_casefile.Session.{
  GameSession, GameSessionPlayer, GameSessionNightActions, no_actions, find_player,
}
use mafia_casefile.Session.Players.{
  StartGameSessionPlayerInput, create_game_session_player, find_index, set_connection,
}
use mafia_casefile.Session.Tally.{VoteTallyEntry, calculate_vote_tally}

-- `DEFAULT_PHASE_DURATION_SECONDS`
abbrev default_phase_seconds : GamePhase → Option ℕ
default_phase_seconds night = some 60
default_phase_seconds day_discussion = some 180
default_phase_seconds voting = some 60
default_phase_seconds result = some 10
default_phase_seconds _ = none

unfoldable pub get_phase_duration_seconds : Env → GamePhase → Option ℕ
get_phase_duration_seconds env phase = elim (env.phase_seconds phase) [
  | none ↦ default_phase_seconds phase
  | some parsed ↦ if ltb 0 parsed then some parsed else default_phase_seconds phase
]

unfoldable pub calculate_phase_ends_at : Env → GamePhase → ℕ → Option ℕ
calculate_phase_ends_at env phase from = elim (get_phase_duration_seconds env phase) [
  | none ↦ none
  | some seconds ↦ some (from + seconds * 1000)
]

pub record StartGameSessionInput : Type 0 where
  pub game_id : String
  pub room_id : String
  pub host_user_id : String
  pub players : List StartGameSessionPlayerInput
  pub started_at : ℕ

-- `startGameSession`, as its one caller calls it: with `startedAt` and without `phaseEndsAt`.
unfoldable pub start_session : Env → StartGameSessionInput → GameSession
start_session env input = record {
  game_id = input.game_id;
  room_id = input.room_id;
  phase = night;
  turn = 0;
  version = 1;
  host_user_id = input.host_user_id;
  players = map (λ p. create_game_session_player p input.started_at) input.players;
  votes = [];
  night_actions = no_actions;
  phase_ends_at = calculate_phase_ends_at env night input.started_at;
  processed_requests = [];
  created_at = input.started_at;
  updated_at = input.started_at;
}

mark_player : ConnectionStatus → GameSession → String → ℕ → Result GameSession
mark_player status s user_id now = do
  index ← or_throw (find_index user_id s.players) "player not found"
  ok (record s {
    players = set_connection index status now s.players;
    version = s.version + 1;
    updated_at = now;
  })

unfoldable pub mark_player_disconnected : GameSession → String → ℕ → Result GameSession
unfolding mark_player
mark_player_disconnected s user_id now = mark_player disconnected s user_id now

unfoldable pub mark_player_connected : GameSession → String → ℕ → Result GameSession
unfolding mark_player
mark_player_connected s user_id now = mark_player connected s user_id now

-- `'mafiaTarget' | 'doctorTarget' | 'policeTarget'`
pub data TargetKey : Type 0 where
  mafia_key doctor_key police_key : TargetKey

abbrev pub get_target : TargetKey → GameSessionNightActions → Option String
get_target mafia_key a = a.mafia_target
get_target doctor_key a = a.doctor_target
get_target police_key a = a.police_target

abbrev pub set_target : TargetKey → String → GameSessionNightActions → GameSessionNightActions
set_target mafia_key id a = record a { mafia_target = some id }
set_target doctor_key id a = record a { doctor_target = some id }
set_target police_key id a = record a { police_target = some id }

abbrev pub is_doctor_key : TargetKey → Bool
is_doctor_key doctor_key = true
is_doctor_key _ = false

pub record NightActionSelectionResult : Type 0 where
  pub session : GameSession
  pub actor : GameSessionPlayer
  pub target : GameSessionPlayer

unfoldable pub select_night_action :
    GameSession → String → String → Role → TargetKey → ℕ → Result NightActionSelectionResult
select_night_action s actor_id target_id allowed_role key now = do
  throw_if (not (phase_eq s.phase night)) "night actions are only allowed during NIGHT"
  actor ← or_throw (find_player actor_id s.players) "actor not found"
  throw_if (not (is_alive actor.status)) "dead player cannot act"
  throw_if (not (role_eq actor.role allowed_role)) "role not allowed"
  target ← or_throw (find_player target_id s.players) "target player not found"
  throw_if (not (is_alive target.status)) "target player is not alive"
  throw_if (truthy? (get_target key s.night_actions)) "night action already selected"
  throw_if (target.user_id == actor.user_id && not (is_doctor_key key)) "target self is not allowed"
  ok (record {
    session = record s {
      night_actions = set_target key target.user_id s.night_actions;
      version = s.version + 1;
      updated_at = now;
    };
    actor = actor;
    target = target;
  })

pub record VoteCastResult : Type 0 where
  pub session : GameSession
  pub actor : GameSessionPlayer
  pub target : GameSessionPlayer
  pub tally : List VoteTallyEntry
  pub duplicate_request : Bool

-- the branch of a `requestId` that this session has processed: nothing is saved
unfoldable pub repeat_vote : Env → GameSession → String → String → Result VoteCastResult
repeat_vote env s actor_id target_id = do
  actor ← or_throw (find_player actor_id s.players) "actor not found"
  target ← or_throw (find_player target_id s.players) "target player not found"
  ok (record {
    session = s;
    actor = actor;
    target = target;
    tally = calculate_vote_tally env s.votes;
    duplicate_request = true;
  })

unfoldable pub first_vote : Env → GameSession → String → String → String → ℕ → Result VoteCastResult
first_vote env s actor_id target_id request_id now = do
  actor ← or_throw (find_player actor_id s.players) "actor not found"
  throw_if (not (is_alive actor.status)) "dead player cannot vote"
  target ← or_throw (find_player target_id s.players) "target player not found"
  throw_if (not (is_alive target.status)) "target player is not alive"
  throw_if (truthy? (lookup actor_id s.votes)) "vote already cast"
  let votes = insert actor_id target_id s.votes
  ok (record {
    session = record s {
      votes = votes;
      processed_requests = insert request_id target_id s.processed_requests;
      version = s.version + 1;
      updated_at = now;
    };
    actor = actor;
    target = target;
    tally = calculate_vote_tally env votes;
    duplicate_request = false;
  })

unfoldable pub cast_vote : Env → GameSession → String → String → String → ℕ → Result VoteCastResult
cast_vote env s actor_id target_id request_id now = do
  throw_if (not (phase_eq s.phase voting)) "votes are only allowed during VOTING"
  if truthy? (lookup request_id s.processed_requests)
      then repeat_vote env s actor_id target_id
      else first_vote env s actor_id target_id request_id now
