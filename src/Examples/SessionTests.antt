-- ===== src/Examples/SessionTests.antt =====
-- Tests of a session's operations, and instances of their theorems.
use mafia_casefile.Prelude.{◌≡◌, refl, false, none, some, [], ◌∷◌, lookup, insert, values}
use mafia_casefile.Prelude.Results.{ok}
use mafia_casefile.Shared.{mafia, doctor, citizen}
use mafia_casefile.Session.{find_player}
use mafia_casefile.Session.StateMachine.{advance}
use mafia_casefile.Session.Players.{kill_player, evaluate_winner}
use mafia_casefile.Session.Tally.{
  calculate_vote_tally, select_vote_winner, sort, sort_insert, count_votes, count_of, entries,
  comes_after,
}
use mafia_casefile.Session.Operations.{
  cast_vote, first_vote, select_night_action, doctor_key, VoteCastResult,
  NightActionSelectionResult,
}
use mafia_casefile.Session.Cycle.{advanced, advance_lem}
use mafia_casefile.Session.Lives.{lives, lives-kill_player}
use mafia_casefile.Session.Plurality.{Wins, select_vote_winner-Wins, weight-calculate_vote_tally}
use mafia_casefile.Session.Ballots.{votes_for, weight}
use mafia_casefile.Session.Invariant.{IsValid}
use mafia_casefile.Session.Invariant.Votes.{cast_vote-IsValid}
use mafia_casefile.Session.Invariant.Choices.{select_night_action-IsValid}
use mafia_casefile.Examples.{player, env, village, night_game, voting_game}

pub night_game-IsValid : IsValid night_game
unfolding find_player evaluate_winner
night_game-IsValid = record {
  distinct = (refl, (refl, (refl, (refl, tt))));
  named = (refl, (refl, (refl, (refl, tt))));
  ballots_live = tt;
  mafia_target_lives = refl;
  doctor_target_lives = refl;
  police_target_lives = refl;
  votes_while_voting = λ _. refl;
  actions_at_night = λ e. cc;
  finished_when_won = refl;
}

pub voting_game-IsValid : IsValid voting_game
unfolding find_player evaluate_winner
voting_game-IsValid = record {
  distinct = (refl, (refl, (refl, (refl, tt))));
  named = (refl, (refl, (refl, (refl, tt))));
  ballots_live = ((refl, refl), ((refl, refl), ((refl, refl), tt)));
  mafia_target_lives = refl;
  doctor_target_lives = refl;
  police_target_lives = refl;
  votes_while_voting = λ e. cc;
  actions_at_night = λ _. refl;
  finished_when_won = refl;
}

-- The mafia is voted out, two to one.
executes_ann : select_vote_winner (calculate_vote_tally env voting_game.votes) ≡ some "ann"
unfolding calculate_vote_tally select_vote_winner sort sort_insert count_votes count_of entries
    comes_after lookup insert
executes_ann = refl

select_vote_winner-Wins_example : Wins "ann" (values voting_game.votes)
select_vote_winner-Wins_example =
    (select_vote_winner-Wins env voting_game.votes "ann").0 executes_ann

advance_lem_example : advance 7 night_game ≡ ok (advanced 7 night_game)
advance_lem_example = advance_lem 7 night_game

lives-kill_player_example : lives "dee" (kill_player "dee" 7 village) ≡ false
unfolding find_player
lives-kill_player_example = lives-kill_player "dee" "dee" 7 village

abbrev dee_votes : VoteCastResult
dee_votes =
    let s = voting_game in
    record {
      session = record s {
        votes = ("bob", "ann") ∷ ("cy", "ann") ∷ ("ann", "bob") ∷ ("dee", "ann") ∷ [];
        processed_requests = ("r9", "ann") ∷ [];
        version = 2;
        updated_at = 7;
      };
      actor = player "dee" citizen;
      target = player "ann" mafia;
      tally =
          record { target_user_id = "ann"; count = 3 }
          ∷ record { target_user_id = "bob"; count = 1 }
          ∷ [];
      duplicate_request = false;
    }

dee_votes_now : cast_vote env voting_game "dee" "ann" "r9" 7 ≡ ok dee_votes
unfolding cast_vote first_vote calculate_vote_tally sort sort_insert count_votes count_of entries
    comes_after lookup insert find_player
dee_votes_now = refl

cast_vote-IsValid_example : IsValid dee_votes.session
cast_vote-IsValid_example =
    cast_vote-IsValid env voting_game "dee" "ann" "r9" 7 dee_votes voting_game-IsValid dee_votes_now

-- The doctor protects the mafia's target.
abbrev bob_protects : NightActionSelectionResult
bob_protects =
    let s = night_game in
    record {
      session = record s {
        night_actions = record {
          mafia_target = some "dee";
          doctor_target = some "dee";
          police_target = none;
        };
        version = 2;
        updated_at = 7;
      };
      actor = player "bob" doctor;
      target = player "dee" citizen;
    }

bob_protects_now : select_night_action night_game "bob" "dee" doctor doctor_key 7 ≡ ok bob_protects
unfolding select_night_action find_player
bob_protects_now = refl

select_night_action-IsValid_example : IsValid bob_protects.session
select_night_action-IsValid_example =
    select_night_action-IsValid night_game "bob" "dee" doctor doctor_key 7 bob_protects
      night_game-IsValid bob_protects_now

weight-calculate_vote_tally_example :
    weight "ann" (calculate_vote_tally env voting_game.votes)
    ≡ votes_for "ann" (values voting_game.votes)
weight-calculate_vote_tally_example = weight-calculate_vote_tally env voting_game.votes "ann"
