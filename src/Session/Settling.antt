-- ===== src/Session/Settling.antt =====
-- A session whose night or vote is being resolved: what it needs for that, who may fall, and that it
-- is valid once a decided game is finished.
pub mod Nights
pub mod Votes
use mafia_casefile.Prelude.{
  ℕ, ◌+◌, ◌≡◌, refl, sym, String, true, false, Option, none, some, List, [], ◌∷◌, Dict, values, All,
  arith, ◌==◌, if◌then◌else◌, Option-cases, inl, inr,
}
use mafia_casefile.Prelude.Results.{ok}
use mafia_casefile.Shared.{Env, finished, phase_eq, is_alive}
use mafia_casefile.Session.{GameSession, GameSessionPlayer, no_actions, find_player}
use mafia_casefile.Session.StateMachine.{PhaseTransitionResult, finish}
use mafia_casefile.Session.Players.{
  WinnerTeam, find_player?, kill_player, apply_player_death, clear_votes, clear_night_actions,
  evaluate_winner,
}
use mafia_casefile.Session.Tally.{calculate_vote_tally, select_vote_winner}
use mafia_casefile.Session.Outcomes.{
  NightOutcomeResult, VotingOutcomeResult, night_victim, resolve_night_outcome,
  resolve_voting_outcome,
}
use mafia_casefile.Session.Lives.{
  lives, lives?, Distinct, IsNamed, find_player-named, kill_player-Distinct, kill_player-IsNamed,
}
use mafia_casefile.Session.Ballots.{select_vote_winner-Targets, calculate_vote_tally-Targets}
use mafia_casefile.Session.Invariant.{IsValid, BallotLives}

-- A session whose night or vote has just been resolved: it may still have to be finished.
pub record IsSettled (s : GameSession) (winner : Option WinnerTeam) : Type 0 where
  pub distinct : Distinct s.players
  pub named : All IsNamed s.players
  pub no_votes : s.votes ≡ []
  pub no_targets : s.night_actions ≡ no_actions
  pub judged : winner ≡ evaluate_winner s.players
  pub unfinished : phase_eq s.phase finished ≡ false

-- A game that goes on is valid as it is.
pub IsSettled-IsValid : (s : GameSession) → IsSettled s none → IsValid s
IsSettled-IsValid s h = record {
  distinct = h.distinct;
  named = h.named;
  ballots_live = rw h.no_votes tt;
  mafia_target_lives = rw h.no_targets refl;
  doctor_target_lives = rw h.no_targets refl;
  police_target_lives = rw h.no_targets refl;
  votes_while_voting = λ _. h.no_votes;
  actions_at_night = λ _. h.no_targets;
  finished_when_won = rw (h.unfinished, ← h.judged);
}

-- A decided game can be finished, and is valid then.
pub finish-IsValid :
    (s : GameSession) (team : WinnerTeam) (now : ℕ)
    → IsSettled s (some team)
    → (t : PhaseTransitionResult) × (finish now s ≡ ok t)
      × (t.session.game_id ≡ s.game_id)
      × (t.session.phase ≡ finished)
      × (t.session.turn ≡ s.turn)
      × (t.session.phase_ends_at ≡ none)
      × (t.session.players ≡ s.players)
      × IsValid t.session
unfolding finish
finish-IsValid s team now h = (
  record {
    session = record s {
      phase = finished;
      version = s.version + 1;
      phase_ends_at = none;
      updated_at = now;
    };
    from_phase = s.phase;
    to_phase = finished;
    from_turn = s.turn;
    to_turn = s.turn;
  },
  rw h.unfinished,
  refl,
  refl,
  refl,
  refl,
  refl,
  record {
    distinct = h.distinct;
    named = h.named;
    ballots_live = rw h.no_votes tt;
    mafia_target_lives = rw h.no_targets refl;
    doctor_target_lives = rw h.no_targets refl;
    police_target_lives = rw h.no_targets refl;
    votes_while_voting = λ _. h.no_votes;
    actions_at_night = λ _. h.no_targets;
    finished_when_won = rw (← h.judged);
  },
)

-- A session on its way out of a phase: what its resolution needs of it.
pub record IsPending (s : GameSession) : Type 0 where
  pub distinct : Distinct s.players
  pub named : All IsNamed s.players
  pub ballots_live : All (BallotLives s.players) s.votes
  pub mafia_target_lives : lives? s.night_actions.mafia_target s.players ≡ true
  pub unfinished : phase_eq s.phase finished ≡ false

-- Who falls, if anybody: a player of the game who was alive, and nobody else is changed.
abbrev pub Falls :
    Option String
    → ℕ
    → List GameSessionPlayer
    → Option GameSessionPlayer
    → List GameSessionPlayer
    → Type 0
Falls none now before fallen after = (fallen ≡ none) × (after ≡ before)
Falls (some id) now before fallen after =
    (lives id before ≡ true)
    × (fallen ≡ find_player id before)
    × (after ≡ kill_player id now before)

-- Who lives is found alive.
pub found_alive :
    (s : GameSession) (id : String)
    → (id == "") ≡ false
    → lives id s.players ≡ true
    → (p : GameSessionPlayer) × (find_player? s (some id) ≡ some p)
      × (find_player id s.players ≡ some p)
unfolding find_player?
found_alive s id n l = elim (Option-cases (find_player id s.players)) [
  | inl e ↦ absurd (ground arith)
  | inr (p, e) ↦ (p, rw (n, e), e)
]

pub alive_of :
    (id : String) (ps : List GameSessionPlayer) (p : GameSessionPlayer)
    → lives id ps ≡ true
    → find_player id ps ≡ some p
    → is_alive p.status ≡ true
alive_of id ps p l e = ground arith

-- Whoever lives has a name that is not empty.
pub lives_nonempty :
    (id : String) (ps : List GameSessionPlayer)
    → All IsNamed ps
    → lives id ps ≡ true
    → (id == "") ≡ false
lives_nonempty id ps h l = elim (Option-cases (find_player id ps)) [
  | inl e ↦ absurd (ground arith)
  | inr (p, e) ↦ find_player-named id ps p h e
]
