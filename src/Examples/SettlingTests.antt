-- ===== src/Examples/SettlingTests.antt =====
-- A night and a vote of the small game, and instances of the theorems on how they are resolved.
use mafia_casefile.Prelude.{◌≡◌, refl}
use mafia_casefile.Prelude.Results.{ok}
use mafia_casefile.Shared.{day_discussion, result}
use mafia_casefile.Session.{GameSession, find_player}
use mafia_casefile.Session.Outcomes.{
  NightOutcomeResult, VotingOutcomeResult, resolve_night_outcome, resolve_voting_outcome,
}
use mafia_casefile.Session.Settling.{IsPending}
use mafia_casefile.Session.Settling.Nights.{NightSettles, resolve_night_outcome-IsSettled}
use mafia_casefile.Session.Settling.Votes.{VoteSettles, resolve_voting_outcome-IsSettled}
use mafia_casefile.Examples.{env, night_game, voting_game}

-- The day after the night on which the mafia chose the citizen.
abbrev dawn : GameSession
dawn = record night_game { phase = day_discussion }

dawn-IsPending : IsPending dawn
unfolding find_player
dawn-IsPending = record {
  distinct = (refl, (refl, (refl, (refl, tt))));
  named = (refl, (refl, (refl, (refl, tt))));
  ballots_live = tt;
  mafia_target_lives = refl;
  unfinished = refl;
}

resolve_night_outcome-IsSettled_example :
    (o : NightOutcomeResult) × (resolve_night_outcome dawn 7 ≡ ok o) × NightSettles dawn 7 o
resolve_night_outcome-IsSettled_example = resolve_night_outcome-IsSettled dawn 7 dawn-IsPending refl

-- The result of the vote against the mafia.
abbrev counted : GameSession
counted = record voting_game { phase = result }

counted-IsPending : IsPending counted
unfolding find_player
counted-IsPending = record {
  distinct = (refl, (refl, (refl, (refl, tt))));
  named = (refl, (refl, (refl, (refl, tt))));
  ballots_live = ((refl, refl), ((refl, refl), ((refl, refl), tt)));
  mafia_target_lives = refl;
  unfinished = refl;
}

resolve_voting_outcome-IsSettled_example :
    (o : VotingOutcomeResult) × (resolve_voting_outcome env counted 7 ≡ ok o)
    × VoteSettles env counted 7 o
resolve_voting_outcome-IsSettled_example =
    resolve_voting_outcome-IsSettled env counted 7 counted-IsPending refl
