-- ===== src/Session/Cycle.antt =====
-- The phase machine against a plain description of it: the cycle of phases, the turn that rises with
-- each day, and the end that nothing leaves.
use mafia_casefile.Prelude.{ℕ, ◌+◌, ◌≡◌, refl, true, false, none, some, arith, if◌then◌else◌}
use mafia_casefile.Prelude.Results.{ok, err}
use mafia_casefile.Shared.{
  GamePhase, waiting, night, day_discussion, voting, result, finished, phase_eq,
}
use mafia_casefile.Session.{GameSession}
use mafia_casefile.Session.StateMachine.{PhaseTransitionResult, get_next_phase, advance}

-- The phase after each phase of a game that is not over.
abbrev pub phase_after : GamePhase → GamePhase
phase_after waiting = night
phase_after night = day_discussion
phase_after day_discussion = voting
phase_after voting = result
phase_after result = night
phase_after finished = finished

pub get_next_phase-phase_after :
    (p : GamePhase)
    → get_next_phase p ≡ (if phase_eq p finished then none else some (phase_after p))
unfolding get_next_phase
get_next_phase-phase_after waiting = refl
get_next_phase-phase_after night = refl
get_next_phase-phase_after day_discussion = refl
get_next_phase-phase_after voting = refl
get_next_phase-phase_after result = refl
get_next_phase-phase_after finished = refl

-- The result of an advance from a session that is not finished.
abbrev pub advanced : ℕ → GameSession → PhaseTransitionResult
advanced now s =
    let turn = if phase_eq s.phase night then s.turn + 1 else s.turn in
    record {
      session = record s {
        phase = phase_after s.phase;
        turn = turn;
        version = s.version + 1;
        phase_ends_at = none;
        updated_at = now;
      };
      from_phase = s.phase;
      to_phase = phase_after s.phase;
      from_turn = s.turn;
      to_turn = turn;
    }

-- An advance goes to the next phase of the cycle and counts a new turn at dawn, and only a finished
-- game refuses it.
pub advance_lem :
    (now : ℕ) (s : GameSession)
    → advance now s
      ≡ (if phase_eq s.phase finished then err "game is finished" else ok (advanced now s))
unfolding advance
advance_lem now s = rw (get_next_phase-phase_after s.phase) (ground arith)

-- What follows each phase, as the tests of the handlers see it.
pub phase_after-finished : (p : GamePhase) → phase_eq (phase_after p) finished ≡ phase_eq p finished
phase_after-finished p = ground arith

pub phase_after-night :
    (p : GamePhase)
    → phase_eq p night ≡ true
    → (phase_eq (phase_after p) day_discussion ≡ true) × (phase_eq p voting ≡ false)
phase_after-night p h = ground arith

pub phase_after-voting :
    (p : GamePhase)
    → phase_eq p voting ≡ true
    → (phase_eq (phase_after p) result ≡ true) × (phase_eq p night ≡ false)
phase_after-voting p h = ground arith
