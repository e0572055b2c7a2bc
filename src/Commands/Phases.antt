-- ===== src/Commands/Phases.antt =====
-- apps/api/src/game-commands/game-command.service.ts: `handleNextPhase` and
-- `advancePhaseAutomatically`, which repeat the same steps; these stand here once, as `change_phase`,
-- with who asked for the change (nobody, for the timer).
pub mod Expected
pub mod Settles
pub mod Turned
pub mod Resolving
pub mod Running
use mafia_casefile.Prelude.{
  ℕ, String, Bool, true, false, ◌&&◌, Option, none, some, List, [], ◌∷◌, ◌++◌, ◌==◌, same?,
  if◌then◌else◌, Dict,
}
use mafia_casefile.Prelude.Results.{Result, ok, err}
use mafia_casefile.Shared.{Env, GamePhase, night, day_discussion, voting, result, phase_eq}
use mafia_casefile.Session.{GameSession, GameSessionPlayer, no_actions, GameSessionNightActions}
use mafia_casefile.Session.Players.{WinnerTeam}
use mafia_casefile.Session.StateMachine.{PhaseTransitionResult}
use mafia_casefile.Session.Outcomes.{NightOutcomeResult, VotingOutcomeResult}
use mafia_casefile.Session.Tally.{VoteTallyEntry}
use mafia_casefile.Rooms.{Room}
use mafia_casefile.Rooms.Operations.{assert_can_advance_phase}
use mafia_casefile.Events.{GameEventType, GameEventPayload, RecordEventInput, public_event}
use mafia_casefile.World.{World, Action, ◌>>=◌, ◌>>◌, return, gets, on_sessions, try, log, log_if}
use mafia_casefile.Sessions.{
  find_by_game_id, advance_phase, finish_game, resolve_night_outcome, resolve_voting_outcome,
}
use mafia_casefile.Commands.{
  GameCommandUser, GameCommandEnvelope, GameCommandEffect, GameCommandResult, accepted, rejected,
  answer, not_object, object, CommandRejectReason, unauthorized, invalid_room_command,
  room_not_found, not_room_host, game_session_not_found, game_not_in_progress,
  game_already_finished, room_command_failed, broadcast, ServerEvent, phase_changed, night_resolved,
  voting_resolved, game_finished,
}

abbrev pub id_of : Option GameSessionPlayer → Option String
id_of none = none
id_of (some p) = some p.user_id

-- What a resolution adds to the change of phase: the events to record, and those to send.
pub record Resolution : Type 0 where
  pub resolution_event : Option (GameEventType × GameEventPayload)
  pub resolved : Option ServerEvent
  pub winner : Option WinnerTeam

abbrev pub killed_event :
    Option GameSessionPlayer → Option GameSessionPlayer → Option (GameEventType × GameEventPayload)
killed_event none protected = none
killed_event (some killed) protected = some (
  GameEventType.player_killed,
  GameEventPayload.killed killed.user_id (same? (id_of protected) (some killed.user_id)),
)

abbrev pub executed_event :
    Option GameSessionPlayer → List VoteTallyEntry → Option (GameEventType × GameEventPayload)
executed_event none tally = none
executed_event (some executed) tally =
    some (GameEventType.player_executed, GameEventPayload.executed executed.user_id tally)

-- `if (outcome.winnerTeam) { await this.gameSessionService.finishGame(gameId); … }`
unfoldable pub finish_if_won : String → Option WinnerTeam → ℕ → Action (Unit {0})
finish_if_won game_id none now w = (ok tt, w)
finish_if_won game_id (some team) now w =
    (do transition ← on_sessions (finish_game game_id now); return tt) w

-- `sessionBeforeResolution?.nightActions`
abbrev pub actions_of : Option GameSession → GameSessionNightActions
actions_of none = no_actions
actions_of (some s) = s.night_actions

abbrev pub night_resolution : GameSessionNightActions → ℕ → ℕ → NightOutcomeResult → Resolution
night_resolution before turn now outcome = record {
  resolution_event = killed_event outcome.killed outcome.protected_target;
  resolved =
      some
        (night_resolved turn before.mafia_target before.doctor_target (id_of outcome.killed) now);
  winner = outcome.winner_team;
}

-- what follows a resolved night
abbrev pub conclude_night :
    String → ℕ → ℕ → GameSessionNightActions → NightOutcomeResult → Action Resolution
conclude_night game_id turn now before outcome = do
  finish_if_won game_id outcome.winner_team now
  return (night_resolution before turn now outcome)

unfoldable pub resolve_night : String → ℕ → ℕ → Action Resolution
resolve_night game_id turn now = do
  before ← gets (λ w. actions_of (find_by_game_id game_id w.sessions))
  outcome ← on_sessions (resolve_night_outcome game_id now)
  conclude_night game_id turn now before outcome

abbrev pub voting_resolution : ℕ → ℕ → VotingOutcomeResult → Resolution
voting_resolution turn now outcome = record {
  resolution_event = executed_event outcome.executed outcome.tally;
  resolved = some (voting_resolved turn (id_of outcome.executed) outcome.tally now);
  winner = outcome.winner_team;
}

-- what follows a resolved vote
abbrev pub conclude_voting : String → ℕ → ℕ → VotingOutcomeResult → Action Resolution
conclude_voting game_id turn now outcome = do
  finish_if_won game_id outcome.winner_team now
  return (voting_resolution turn now outcome)

unfoldable pub resolve_voting : Env → String → ℕ → ℕ → Action Resolution
resolve_voting env game_id turn now = do
  outcome ← on_sessions (resolve_voting_outcome env game_id now)
  conclude_voting game_id turn now outcome

-- The two `if`s on the phases that a transition leads from and to.
unfoldable pub resolve : Env → String → PhaseTransitionResult → ℕ → Action Resolution
resolve env game_id t now =
    if phase_eq t.from_phase night && phase_eq t.to_phase day_discussion
    then resolve_night game_id t.to_turn now
    else if phase_eq t.from_phase voting && phase_eq t.to_phase result
    then resolve_voting env game_id t.to_turn now
    else return (record { resolution_event = none; resolved = none; winner = none })

abbrev pub phase_event :
    String → String → GameEventType → GameEventPayload → ℕ → GamePhase → RecordEventInput
phase_event game_id request_id type payload turn phase = record {
  game_id = game_id;
  type = type;
  turn = turn;
  phase = phase;
  actor_user_id = none;
  payload = payload;
  visibility_during_game = public_event;
  visibility_after_game = public_event;
  request_id = request_id;
}

abbrev pub resolution_log :
    String
    → String
    → Option (GameEventType × GameEventPayload)
    → PhaseTransitionResult
    → Option RecordEventInput
resolution_log game_id request_id none t = none
resolution_log game_id request_id (some (type, payload)) t =
    some (phase_event game_id request_id type payload t.to_turn t.to_phase)

-- The event of a finished game bears the turn and phase of the session as it is by then.
abbrev pub finished_log :
    String
    → String
    → Option WinnerTeam
    → Option GameSession
    → PhaseTransitionResult
    → Option RecordEventInput
finished_log game_id request_id none session t = none
finished_log game_id request_id (some team) none t = some (
    phase_event game_id request_id GameEventType.game_finished (GameEventPayload.won team) t.to_turn
      t.to_phase)
finished_log game_id request_id (some team) (some s) t = some (
    phase_event game_id request_id GameEventType.game_finished (GameEventPayload.won team) s.turn
      s.phase)

abbrev pub send_if : String → Option ServerEvent → List GameCommandEffect
send_if game_id none = []
send_if game_id (some event) = broadcast game_id event ∷ []

abbrev pub finished_event : Option WinnerTeam → ℕ → Option ServerEvent
finished_event none now = none
finished_event (some team) now = some (game_finished team now)

unfoldable pub record_phase_change :
    String → String → Option String → PhaseTransitionResult → Resolution → Action (Unit {0})
record_phase_change game_id request_id requested_by t r = do
  let session = t.session
  log (
      phase_event game_id request_id GameEventType.phase_changed
        (GameEventPayload.phase t.from_phase t.to_phase t.to_turn requested_by
          session.phase_ends_at)
        t.to_turn t.to_phase)
  log_if (resolution_log game_id request_id r.resolution_event t)
  finished_session ← gets (λ w. find_by_game_id game_id w.sessions)
  log_if (finished_log game_id request_id r.winner finished_session t)

abbrev pub phase_effects :
    String → Option String → PhaseTransitionResult → Resolution → ℕ → List GameCommandEffect
phase_effects game_id requested_by t r now =
    let session = t.session in
    broadcast game_id
      (phase_changed t.from_phase t.to_phase t.to_turn requested_by session.phase_ends_at now)
    ∷ (send_if game_id r.resolved ++ send_if game_id (finished_event r.winner now))

unfoldable pub change_phase :
    Env → String → Option String → String → ℕ → Action (List GameCommandEffect)
change_phase env game_id requested_by request_id now = do
  t ← on_sessions (advance_phase env game_id now)
  r ← resolve env game_id t now
  record_phase_change game_id request_id requested_by t r
  return (phase_effects game_id requested_by t r now)

abbrev pub next_phase_reason : String → CommandRejectReason
next_phase_reason message =
    if message == "game session not found"
    then game_session_not_found
    else if message == "room not found"
    then room_not_found
    else if message == "not room host"
    then not_room_host
    else if message == "room is not in progress"
    then game_not_in_progress
    else if message == "game is finished"
    then game_already_finished
    else room_command_failed

unfoldable pub next_phase_action :
    Env → GameCommandEnvelope → GameCommandUser → ℕ → Action (List GameCommandEffect)
next_phase_action env c user now = do
  rooms ← gets (λ w. w.rooms)
  room ← try (assert_can_advance_phase c.game_id user.id rooms)
  change_phase env c.game_id (some user.id) c.request_id now

unfoldable pub handle_next_phase :
    Env → GameCommandEnvelope → Option GameCommandUser → ℕ → World → GameCommandResult × World
handle_next_phase env c none now w =
    (rejected c.request_id unauthorized "Socket user is missing.", w)
handle_next_phase env c (some user) now w = elim c.payload [
  | not_object ↦ (rejected c.request_id invalid_room_command "Room command payload is invalid.", w)
  | object fields ↦ answer c next_phase_reason (next_phase_action env c user now) w
]

abbrev auto_reason : String → CommandRejectReason
auto_reason message =
    if message == "game session not found"
    then game_session_not_found
    else if message == "game is finished"
    then game_already_finished
    else room_command_failed

-- `request_id` is `auto-phase-${gameId}-${Date.now()}`.
unfoldable pub advance_phase_automatically :
    Env → String → String → ℕ → World → GameCommandResult × World
advance_phase_automatically env game_id request_id now w =
    let (r, w') = change_phase env game_id none request_id now w in
    elim r [
      | ok effects ↦ (accepted request_id "AUTO_PHASE_TIMER" effects, w')
      | err message ↦ (rejected request_id (auto_reason message) message, w')
    ]
