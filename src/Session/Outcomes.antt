-- ===== src/Session/Outcomes.antt =====
-- apps/api/src/game-session/game-session.service.ts: what a night and a vote lead to, on the loaded
-- session.
use mafia_casefile.Prelude.{
  ℕ, String, not, ◌&&◌, Option, none, some, List, [], ◌==◌, truthy?, same?, if◌then◌else◌,
}
use mafia_casefile.Prelude.Results.{Result, ok, or_throw, throw_if, ◌>>=◌, ◌>>◌}
use mafia_casefile.Shared.{Env, is_alive}
use mafia_casefile.Session.{GameSession, GameSessionPlayer, no_actions}
use mafia_casefile.Session.Players.{
  WinnerTeam, find_player?, apply_player_death, clear_votes, clear_night_actions, evaluate_winner,
}
use mafia_casefile.Session.Tally.{VoteTallyEntry, calculate_vote_tally, select_vote_winner}

pub record NightOutcomeResult : Type 0 where
  pub session : GameSession
  pub killed : Option GameSessionPlayer
  pub protected_target : Option GameSessionPlayer
  pub winner_team : Option WinnerTeam

-- the mafia's target, unless the doctor protects the same player
unfoldable pub night_victim : Option String → Option String → Option String
night_victim mafia_target doctor_target =
    if truthy? mafia_target && not (same? mafia_target doctor_target) then mafia_target else none

kill_at_night : GameSession → Option GameSessionPlayer → String → ℕ → Result NightOutcomeResult
kill_at_night s protected target_id now = do
  target ← or_throw (find_player? s (some target_id)) "target player not found"
  throw_if (not (is_alive target.status)) "target player is not alive"
  let updated = apply_player_death s target_id none (some no_actions) now
  ok (record {
    session = updated;
    killed = some target;
    protected_target = protected;
    winner_team = evaluate_winner updated.players;
  })

unfoldable pub resolve_night_outcome : GameSession → ℕ → Result NightOutcomeResult
unfolding kill_at_night
resolve_night_outcome s now =
    let protected = find_player? s s.night_actions.doctor_target in
    let cleared = clear_night_actions s now in
    elim (night_victim s.night_actions.mafia_target s.night_actions.doctor_target) [
      | none ↦ ok (record {
        session = cleared;
        killed = none;
        protected_target = protected;
        winner_team = evaluate_winner cleared.players;
      })
      | some target_id ↦ kill_at_night s protected target_id now
    ]

pub record VotingOutcomeResult : Type 0 where
  pub session : GameSession
  pub executed : Option GameSessionPlayer
  pub tally : List VoteTallyEntry
  pub winner_team : Option WinnerTeam

spare : GameSession → List VoteTallyEntry → ℕ → Result VotingOutcomeResult
spare s tally now =
    let cleared = clear_votes s now in
    ok (record {
      session = cleared;
      executed = none;
      tally = tally;
      winner_team = evaluate_winner cleared.players;
    })

execute : GameSession → List VoteTallyEntry → String → ℕ → Result VotingOutcomeResult
execute s tally target_id now = do
  target ← or_throw (find_player? s (some target_id)) "target player not found"
  let updated = apply_player_death s target_id (some []) none now
  ok (record {
    session = updated;
    executed = some target;
    tally = tally;
    winner_team = evaluate_winner updated.players;
  })

unfoldable pub resolve_voting_outcome : Env → GameSession → ℕ → Result VotingOutcomeResult
unfolding spare execute
resolve_voting_outcome env s now =
    let tally = calculate_vote_tally env s.votes in
    elim (select_vote_winner tally) [
      | none ↦ spare s tally now
      | some target_id ↦
          if target_id == "" then spare s tally now else execute s tally target_id now
    ]
