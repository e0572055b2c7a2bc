-- ===== src/Session/StateMachine.antt =====
-- apps/api/src/game-session/game-state-machine.ts: the order of the phases, and the two transitions.
use mafia_casefile.Prelude.{ℕ, ◌+◌, Option, none, some, List, [], ◌∷◌, get_elem?, if◌then◌else◌}
use mafia_casefile.Prelude.Results.{Result, ok, or_throw, throw_if, ◌>>=◌, ◌>>◌}
use mafia_casefile.Shared.{
  GamePhase, waiting, night, day_discussion, voting, result, finished, phase_eq,
}
use mafia_casefile.Session.{GameSession}

pub record PhaseTransitionResult : Type 0 where
  pub session : GameSession
  pub from_phase : GamePhase
  pub to_phase : GamePhase
  pub from_turn : ℕ
  pub to_turn : ℕ

abbrev phase_order : List GamePhase
phase_order = waiting ∷ night ∷ day_discussion ∷ voting ∷ result ∷ []

-- `Array.prototype.indexOf`
abbrev index_of : GamePhase → List GamePhase → Option ℕ
index_of p [] = none
index_of p (q ∷ qs) =
    if phase_eq q p then some 0 else elim (index_of p qs) [ none ↦ none | some i ↦ some (i + 1) ]

unfoldable pub get_next_phase : GamePhase → Option GamePhase
get_next_phase phase = if phase_eq phase finished then none else elim (index_of phase phase_order) [
  | none ↦ none
  | some index ↦ if phase_eq phase result then some night else get_elem? phase_order (index + 1)
]

unfoldable pub advance : ℕ → GameSession → Result PhaseTransitionResult
advance now s = do
  next_phase ← or_throw (get_next_phase s.phase) "game is finished"
  let next_turn = if phase_eq s.phase night then s.turn + 1 else s.turn
  ok (record {
    session = record s {
      phase = next_phase;
      turn = next_turn;
      version = s.version + 1;
      phase_ends_at = none;
      updated_at = now;
    };
    from_phase = s.phase;
    to_phase = next_phase;
    from_turn = s.turn;
    to_turn = next_turn;
  })

unfoldable pub finish : ℕ → GameSession → Result PhaseTransitionResult
finish now s = do
  throw_if (phase_eq s.phase finished) "game is finished"
  ok (record {
    session = record s {
      phase = finished;
      version = s.version + 1;
      phase_ends_at = none;
      updated_at = now;
    };
    from_phase = s.phase;
    to_phase = finished;
    from_turn = s.turn;
    to_turn = s.turn;
  })
