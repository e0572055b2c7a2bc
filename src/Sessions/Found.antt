-- ===== src/Sessions/Found.antt =====
-- The calls that resolve and finish, on a session that is in the store.
use mafia_casefile.Prelude.{ℕ, ◌≡◌, String, some, Dict}
use mafia_casefile.Prelude.Results.{ok}
use mafia_casefile.Shared.{Env}
use mafia_casefile.Session.{GameSession}
use mafia_casefile.Session.StateMachine.{PhaseTransitionResult, advance, finish}
use mafia_casefile.Session.Operations.{calculate_phase_ends_at}
use mafia_casefile.Session.Outcomes.{NightOutcomeResult, VotingOutcomeResult}
use mafia_casefile.Session.Outcomes
use mafia_casefile.Sessions.{
  save, find_by_game_id, advance_phase, finish_game, resolve_night_outcome, resolve_voting_outcome,
}

-- The deadline is set on the session that the phase machine returns.
abbrev pub timed : Env → PhaseTransitionResult → PhaseTransitionResult
timed env t =
    let session = t.session in
    record t {
      session = record session {
        phase_ends_at = calculate_phase_ends_at env t.to_phase session.updated_at;
      };
    }

module _ (game_id : String) (now : ℕ) (sessions : Dict GameSession) (s : GameSession)
    (found : find_by_game_id game_id sessions ≡ some s) where
  pub advance_phase_found :
      (env : Env) (t : PhaseTransitionResult)
      → advance now s ≡ ok t
      → advance_phase env game_id now sessions
        ≡ ok (timed env t, let t' = timed env t in save t'.session sessions)
  unfolding advance_phase
  advance_phase_found env t done = rw (found, done)

  pub finish_game_found :
      (t : PhaseTransitionResult)
      → finish now s ≡ ok t
      → finish_game game_id now sessions ≡ ok (t, save t.session sessions)
  unfolding finish_game
  finish_game_found t done = rw (found, done)

  pub resolve_night_outcome_found :
      (o : NightOutcomeResult)
      → Outcomes.resolve_night_outcome s now ≡ ok o
      → resolve_night_outcome game_id now sessions ≡ ok (o, save o.session sessions)
  unfolding resolve_night_outcome
  resolve_night_outcome_found o done = rw (found, done)

  pub resolve_voting_outcome_found :
      (env : Env) (o : VotingOutcomeResult)
      → Outcomes.resolve_voting_outcome env s now ≡ ok o
      → resolve_voting_outcome env game_id now sessions ≡ ok (o, save o.session sessions)
  unfolding resolve_voting_outcome
  resolve_voting_outcome_found env o done = rw (found, done)
