-- ===== src/Commands/Phases/Expected.antt =====
-- A description, apart from the code, of what a change of phase is to leave behind.
use mafia_casefile.Prelude.{
  ℕ, ◌+◌, ◌≡◌, refl, String, false, Option, none, some, List, ◌∷◌, ◌++◌, if◌then◌else◌, arith,
}
use mafia_casefile.Shared.{Env, GamePhase, night, voting, finished, phase_eq}
use mafia_casefile.Session.{GameSession, GameSessionPlayer}
use mafia_casefile.Session.Players.{WinnerTeam, find_player?}
use mafia_casefile.Session.Operations.{calculate_phase_ends_at}
use mafia_casefile.Session.StateMachine.{PhaseTransitionResult}
use mafia_casefile.Session.Tally.{calculate_vote_tally, select_vote_winner}
use mafia_casefile.Session.Cycle.{phase_after}
use mafia_casefile.Session.Settling.Nights.{attacked}
use mafia_casefile.Events.{
  GameEventType, GameEventPayload, GameEventLog, RecordEventInput, record_event,
}
use mafia_casefile.World.{record_if}
use mafia_casefile.Commands.{
  GameCommandEffect, broadcast, phase_changed, night_resolved, voting_resolved,
}
use mafia_casefile.Commands.Phases.{
  Resolution, id_of, killed_event, executed_event, phase_event, send_if, finished_event,
  resolution_log, finished_log,
}

-- Nothing is resolved between the other phases.
abbrev pub quiet : Resolution
quiet = record { resolution_event = none; resolved = none; winner = none }

-- Who is to fall when a phase ends.
abbrev pub who_falls : Env → GamePhase → GameSession → Option String
who_falls env night s = attacked s.night_actions.mafia_target s.night_actions.doctor_target
who_falls env voting s = select_vote_winner (calculate_vote_tally env s.votes)
who_falls env _ s = none

-- What is to be told when a phase ends, of who fell and of which team has won.
abbrev pub told_of :
    Env
    → GamePhase
    → GameSession
    → ℕ
    → ℕ
    → Option GameSessionPlayer
    → Option WinnerTeam
    → Resolution
told_of env night s turn now fallen winner =
    let actions = s.night_actions in
    record {
      resolution_event = killed_event fallen (find_player? s actions.doctor_target);
      resolved =
          some (night_resolved turn actions.mafia_target actions.doctor_target (id_of fallen) now);
      winner = winner;
    }
told_of env voting s turn now fallen winner =
    let tally = calculate_vote_tally env s.votes in
    record {
      resolution_event = executed_event fallen tally;
      resolved = some (voting_resolved turn (id_of fallen) tally now);
      winner = winner;
    }
told_of env _ s turn now fallen winner = quiet

-- A decided game is over and has no deadline.
abbrev pub phase_or_end : Option WinnerTeam → GamePhase → GamePhase
phase_or_end none phase = phase
phase_or_end (some team) phase = finished

abbrev pub deadline_or_none : Option WinnerTeam → Option ℕ → Option ℕ
deadline_or_none none deadline = deadline
deadline_or_none (some team) deadline = none

-- A new turn is counted at dawn.
abbrev pub turn_after : GameSession → ℕ
turn_after s = if phase_eq s.phase night then s.turn + 1 else s.turn

abbrev pub next_deadline : Env → ℕ → GameSession → Option ℕ
next_deadline env now s = calculate_phase_ends_at env (phase_after s.phase) now

-- The broadcasts: the new phase, then what the resolution tells, then the end of a decided game.
abbrev pub announcements :
    Env → String → Option String → ℕ → GameSession → Resolution → List GameCommandEffect
announcements env game_id requested_by now s told =
    broadcast game_id (
      phase_changed s.phase (phase_after s.phase) (turn_after s) requested_by
        (next_deadline env now s) now)
    ∷ (send_if game_id told.resolved ++ send_if game_id (finished_event told.winner now))

abbrev pub event_of :
    String
    → String
    → ℕ
    → GamePhase
    → Option (GameEventType × GameEventPayload)
    → Option RecordEventInput
event_of game_id request_id turn phase none = none
event_of game_id request_id turn phase (some (type, payload)) =
    some (phase_event game_id request_id type payload turn phase)

abbrev pub victory_of : Option WinnerTeam → Option (GameEventType × GameEventPayload)
victory_of none = none
victory_of (some team) = some (GameEventType.game_finished, GameEventPayload.won team)

-- The log afterwards: the change of phase, what was resolved, and the end of a decided game, which
-- bears the turn and the phase that the session has at the end.
abbrev pub history :
    Env
    → String
    → String
    → Option String
    → ℕ
    → GameSession
    → Resolution
    → GameSession
    → List GameEventLog
    → List GameEventLog
history env game_id request_id requested_by now s told f logs =
    let next = phase_after s.phase in
    let change =
      GameEventPayload.phase s.phase next (turn_after s) requested_by (next_deadline env now s) in
    record_if (event_of game_id request_id f.turn f.phase (victory_of told.winner)) (
      record_if (event_of game_id request_id (turn_after s) next told.resolution_event) (
        record_event
          (phase_event game_id request_id GameEventType.phase_changed change (turn_after s) next)
          logs))

pub told_of_other :
    (env : Env) (from : GamePhase) (s : GameSession) (turn now : ℕ)
    (fallen : Option GameSessionPlayer) (winner : Option WinnerTeam)
    → phase_eq from night ≡ false
    → phase_eq from voting ≡ false
    → (told_of env from s turn now fallen winner ≡ quiet) × (who_falls env from s ≡ none)
told_of_other env from s turn now fallen winner n m = ground arith

module _ (game_id request_id : String) (t : PhaseTransitionResult) where
  pub resolution_log-event_of :
      (event : Option (GameEventType × GameEventPayload))
      → resolution_log game_id request_id event t
        ≡ event_of game_id request_id t.to_turn t.to_phase event
  resolution_log-event_of none = refl
  resolution_log-event_of (some (type, payload)) = refl

  pub finished_log-event_of :
      (winner : Option WinnerTeam) (f : GameSession)
      → finished_log game_id request_id winner (some f) t
        ≡ event_of game_id request_id f.turn f.phase (victory_of winner)
  finished_log-event_of none f = refl
  finished_log-event_of (some team) f = refl
