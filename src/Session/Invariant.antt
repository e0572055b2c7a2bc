-- ===== src/Session/Invariant.antt =====
-- What holds of every session between two commands.
pub mod Connections
pub mod Votes
pub mod Choices
use mafia_casefile.Prelude.{
  ℕ, ◌+◌, not, ◌&&◌, ◌≡◌, refl, String, Bool, true, false, Option, none, some, List, [], ◌∷◌, Dict,
  insert, All, arith, ◌==◌, Bool-cases, inl, inr, ◌⊎◌, truthy?, lookup,
}
use mafia_casefile.Prelude.Results.{ok}
use mafia_casefile.Shared.{
  Env, Role, night, voting, finished, phase_eq, role_eq, is_alive, ConnectionStatus,
}
use mafia_casefile.Session.{GameSession, GameSessionPlayer, no_actions, find_player}
use mafia_casefile.Session.Players.{set_connection, find_index, evaluate_winner}
use mafia_casefile.Session.Operations.{
  NightActionSelectionResult, VoteCastResult, TargetKey, mafia_key, doctor_key, police_key,
  mark_player_connected, mark_player_disconnected, get_target, set_target, is_doctor_key,
  select_night_action, cast_vote, first_vote, repeat_vote,
}
use mafia_casefile.Session.Lives.{
  lives, lives?, Distinct, IsNamed, find_player-id, lives-set_connection, set_connection-Distinct,
  set_connection-IsNamed, evaluate_winner-set_connection,
}

abbrev pub is_some {ℓ} : {A : Type ℓ} → Option A → Bool
is_some none = false
is_some (some a) = true

-- The voter and the target of a vote are both alive.
abbrev pub BallotLives : List GameSessionPlayer → String × String → Type 0
BallotLives ps (voter, target) = (lives voter ps ≡ true) × (lives target ps ≡ true)

pub record IsValid (s : GameSession) : Type 0 where
  pub distinct : Distinct s.players
  pub named : All IsNamed s.players
  pub ballots_live : All (BallotLives s.players) s.votes
  pub mafia_target_lives : lives? s.night_actions.mafia_target s.players ≡ true
  pub doctor_target_lives : lives? s.night_actions.doctor_target s.players ≡ true
  pub police_target_lives : lives? s.night_actions.police_target s.players ≡ true
  pub votes_while_voting : phase_eq s.phase voting ≡ false → s.votes ≡ []
  pub actions_at_night : phase_eq s.phase night ≡ false → s.night_actions ≡ no_actions
  pub finished_when_won : phase_eq s.phase finished ≡ is_some (evaluate_winner s.players)

pub lives_of_alive :
    (id : String) (ps : List GameSessionPlayer) (p : GameSessionPlayer)
    → find_player id ps ≡ some p
    → is_alive p.status ≡ true
    → lives id ps ≡ true
lives_of_alive id ps p e a = rw (e, lives) a
