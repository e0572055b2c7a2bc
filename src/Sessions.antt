-- ===== src/Sessions.antt =====
-- The methods of `GameSessionService` (apps/api/src/game-session/game-session.service.ts) over the
-- store of in-memory-game-session.repository.ts, which maps game ids to sessions: find, compute on
-- the session, save once.
pub mod Laws
pub mod Found
use mafia_casefile.Prelude.{
  ℕ, String, Bool, true, false, Option, none, some, List, Dict, lookup, insert,
}
use mafia_casefile.Prelude.Results.{Result, ok, or_throw, ◌>>=◌}
use mafia_casefile.Shared.{Env, Role, mafia, doctor, police}
use mafia_casefile.Session.{GameSession}
use mafia_casefile.Session.StateMachine.{PhaseTransitionResult, advance, finish}
use mafia_casefile.Session.Operations.{
  StartGameSessionInput, start_session, calculate_phase_ends_at, NightActionSelectionResult,
  VoteCastResult, mafia_key, doctor_key, police_key, TargetKey,
}
use mafia_casefile.Session.Operations
use mafia_casefile.Session.Outcomes.{NightOutcomeResult, VotingOutcomeResult}
use mafia_casefile.Session.Outcomes

unfoldable pub save : GameSession → Dict GameSession → Dict GameSession
save s sessions = insert s.game_id s sessions

unfoldable pub find_by_game_id : String → Dict GameSession → Option GameSession
find_by_game_id game_id sessions = lookup game_id sessions

abbrev load : String → Dict GameSession → Result GameSession
load game_id sessions = or_throw (find_by_game_id game_id sessions) "game session not found"

unfoldable pub start_game_session :
    Env → StartGameSessionInput → Dict GameSession → Result (GameSession × Dict GameSession)
start_game_session env input sessions =
    let session = start_session env input in ok (session, save session sessions)

unfoldable pub advance_phase :
    Env → String → ℕ → Dict GameSession → Result (PhaseTransitionResult × Dict GameSession)
advance_phase env game_id now sessions = do
  s ← load game_id sessions
  transition ← advance now s
  let session = transition.session
  let timed = record session {
    phase_ends_at = calculate_phase_ends_at env transition.to_phase session.updated_at;
  }
  ok (record transition { session = timed }, save timed sessions)

unfoldable pub finish_game :
    String → ℕ → Dict GameSession → Result (PhaseTransitionResult × Dict GameSession)
finish_game game_id now sessions = do
  s ← load game_id sessions
  transition ← finish now s
  ok (transition, save transition.session sessions)

unfoldable pub mark_player_disconnected :
    String → String → ℕ → Dict GameSession → Result (GameSession × Dict GameSession)
mark_player_disconnected game_id user_id now sessions = do
  s ← load game_id sessions
  updated ← Operations.mark_player_disconnected s user_id now
  ok (updated, save updated sessions)

unfoldable pub mark_player_connected :
    String → String → ℕ → Dict GameSession → Result (GameSession × Dict GameSession)
mark_player_connected game_id user_id now sessions = do
  s ← load game_id sessions
  updated ← Operations.mark_player_connected s user_id now
  ok (updated, save updated sessions)

abbrev pub role_of_key : TargetKey → Role
role_of_key mafia_key = mafia
role_of_key doctor_key = doctor
role_of_key police_key = police

-- `selectMafiaTarget`, `selectDoctorTarget` and `selectPoliceTarget`
unfoldable pub select_target :
    TargetKey
    → String
    → String
    → String
    → ℕ
    → Dict GameSession
    → Result (NightActionSelectionResult × Dict GameSession)
select_target key game_id actor_id target_id now sessions = do
  s ← load game_id sessions
  selection ← Operations.select_night_action s actor_id target_id (role_of_key key) key now
  ok (selection, save selection.session sessions)

-- A request that was processed before saves nothing.
unfoldable pub cast_vote :
    Env
    → String
    → String
    → String
    → String
    → ℕ
    → Dict GameSession
    → Result (VoteCastResult × Dict GameSession)
cast_vote env game_id actor_id target_id request_id now sessions = do
  s ← load game_id sessions
  vote ← Operations.cast_vote env s actor_id target_id request_id now
  ok (vote, elim vote.duplicate_request [ true ↦ sessions | false ↦ save vote.session sessions ])

unfoldable pub resolve_night_outcome :
    String → ℕ → Dict GameSession → Result (NightOutcomeResult × Dict GameSession)
resolve_night_outcome game_id now sessions = do
  s ← load game_id sessions
  outcome ← Outcomes.resolve_night_outcome s now
  ok (outcome, save outcome.session sessions)

unfoldable pub resolve_voting_outcome :
    Env → String → ℕ → Dict GameSession → Result (VotingOutcomeResult × Dict GameSession)
resolve_voting_outcome env game_id now sessions = do
  s ← load game_id sessions
  outcome ← Outcomes.resolve_voting_outcome env s now
  ok (outcome, save outcome.session sessions)
