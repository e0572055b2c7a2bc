-- ===== src/Commands/Phases/Turned.antt =====
-- A session that has just left its phase, before that phase is resolved.
use mafia_casefile.Prelude.{ℕ, ◌≡◌, refl, ap, String, false, Option, none, some}
use mafia_casefile.Shared.{
  waiting, GamePhase, Env, night, day_discussion, voting, result, finished, phase_eq,
}
use mafia_casefile.Session.{GameSession, GameSessionPlayer}
use mafia_casefile.Session.Players.{WinnerTeam, find_player?}
use mafia_casefile.Session.StateMachine.{PhaseTransitionResult}
use mafia_casefile.Session.Cycle.{advanced, phase_after-finished}
use mafia_casefile.Session.Invariant.{IsValid}
use mafia_casefile.Session.Settling.{IsPending}
use mafia_casefile.Sessions.Found.{timed}
use mafia_casefile.Commands.Phases.{killed_event}
use mafia_casefile.Commands.Phases.Expected.{who_falls, told_of}

-- The transition of a session, with its deadline.
abbrev pub turned : Env → ℕ → GameSession → PhaseTransitionResult
turned env now s = timed env (advanced now s)

abbrev pub turned_session : Env → ℕ → GameSession → GameSession
turned_session env now s = let t = turned env now s in t.session

pub turned-IsPending :
    (env : Env) (now : ℕ) (s : GameSession)
    → IsValid s
    → phase_eq s.phase finished ≡ false
    → IsPending (turned_session env now s)
turned-IsPending env now s v u = record {
  distinct = v.distinct;
  named = v.named;
  ballots_live = v.ballots_live;
  mafia_target_lives = v.mafia_target_lives;
  unfinished = rw (phase_after-finished s.phase) u;
}

-- Out of a phase with neither votes nor night actions, the session is valid at once.
pub turned-IsValid :
    (env : Env) (now : ℕ) (s : GameSession)
    → IsValid s
    → phase_eq s.phase night ≡ false
    → phase_eq s.phase voting ≡ false
    → IsValid (turned_session env now s)
turned-IsValid env now s v n m = record {
  distinct = v.distinct;
  named = v.named;
  ballots_live = v.ballots_live;
  mafia_target_lives = v.mafia_target_lives;
  doctor_target_lives = v.doctor_target_lives;
  police_target_lives = v.police_target_lives;
  votes_while_voting = λ _. v.votes_while_voting m;
  actions_at_night = λ _. v.actions_at_night n;
  finished_when_won = rw (phase_after-finished s.phase) v.finished_when_won;
}

-- The session that has left its phase has the same votes, night actions and players.
module _ (env : Env) (now : ℕ) (s : GameSession) where
  pub who_falls-turned :
      (from : GamePhase) → who_falls env from (turned_session env now s) ≡ who_falls env from s
  who_falls-turned waiting = refl
  who_falls-turned night = refl
  who_falls-turned day_discussion = refl
  who_falls-turned voting = refl
  who_falls-turned result = refl
  who_falls-turned finished = refl

  pub told_of-turned :
      (from : GamePhase) (turn : ℕ) (fallen : Option GameSessionPlayer) (winner : Option WinnerTeam)
      → told_of env from (turned_session env now s) turn now fallen winner
        ≡ told_of env from s turn now fallen winner
  unfolding find_player?
  told_of-turned waiting turn fallen winner = refl
  told_of-turned night turn fallen winner =
      ap
        (λ shield. record (told_of env night s turn now fallen winner) {
          resolution_event = killed_event fallen shield;
        })
        (shield_same (let actions = s.night_actions in actions.doctor_target))
    where
      shield_same :
          (id : Option String) → find_player? (turned_session env now s) id ≡ find_player? s id
      shield_same none = refl
      shield_same (some id) = refl
  told_of-turned day_discussion turn fallen winner = refl
  told_of-turned voting turn fallen winner = refl
  told_of-turned result turn fallen winner = refl
  told_of-turned finished turn fallen winner = refl
