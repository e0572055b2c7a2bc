-- ===== src/Session/Settling/Votes.antt =====
-- What a vote comes to: it never throws on a session in order, and whoever is executed was alive.
use mafia_casefile.Prelude.{
  ℕ, ◌≡◌, refl, sym, String, true, none, some, List, [], ◌∷◌, Dict, values, All, Option-cases, inl,
  inr,
}
use mafia_casefile.Prelude.Results.{ok}
use mafia_casefile.Shared.{Env}
use mafia_casefile.Session.{GameSession, GameSessionPlayer, no_actions}
use mafia_casefile.Session.Players.{kill_player, apply_player_death, clear_votes, evaluate_winner}
use mafia_casefile.Session.Tally.{calculate_vote_tally, select_vote_winner}
use mafia_casefile.Session.Outcomes.{VotingOutcomeResult, resolve_voting_outcome}
use mafia_casefile.Session.Lives.{lives, kill_player-Distinct, kill_player-IsNamed}
use mafia_casefile.Session.Ballots.{select_vote_winner-Targets, calculate_vote_tally-Targets}
use mafia_casefile.Session.Invariant.{BallotLives}
use mafia_casefile.Session.Settling.{IsSettled, IsPending, Falls, found_alive, lives_nonempty}

targets_live :
    (ps : List GameSessionPlayer) (votes : Dict String)
    → All (BallotLives ps) votes
    → All (λ id. lives id ps ≡ true) (values votes)
targets_live ps [] h = tt
targets_live ps ((voter, target) ∷ votes) h = (h.0.1, targets_live ps votes h.1)

abbrev pub VoteSettles : Env → GameSession → ℕ → VotingOutcomeResult → Type 0
VoteSettles env s now o =
    (o.session.game_id ≡ s.game_id)
    × (o.session.phase ≡ s.phase)
    × (o.session.turn ≡ s.turn)
    × (o.session.phase_ends_at ≡ s.phase_ends_at)
    × (o.tally ≡ calculate_vote_tally env s.votes)
    × Falls (select_vote_winner (calculate_vote_tally env s.votes)) now s.players o.executed
        o.session.players
    × IsSettled o.session o.winner_team

-- A vote resolves without an error, for a session without night actions that is not finished, whose
-- players have distinct ids that are not empty and whose votes are cast by and for the living. The
-- winner of the vote falls, if there is one; the votes are cleared, the game, its phase, turn and
-- deadline are the same, and the winning team is the one that the players left decide.
pub resolve_voting_outcome-IsSettled :
    (env : Env) (s : GameSession) (now : ℕ)
    → IsPending s
    → s.night_actions ≡ no_actions
    → (o : VotingOutcomeResult) × (resolve_voting_outcome env s now ≡ ok o)
      × VoteSettles env s now o
unfolding resolve_voting_outcome clear_votes apply_player_death
resolve_voting_outcome-IsSettled env s now h na =
    elim (Option-cases (select_vote_winner (calculate_vote_tally env s.votes))) [
      | inl e ↦ (
        record {
          session = clear_votes s now;
          executed = none;
          tally = calculate_vote_tally env s.votes;
          winner_team = evaluate_winner s.players;
        },
        rw (e, resolve_voting_outcome),
        (
          refl,
          refl,
          refl,
          refl,
          refl,
          rw e (refl, refl),
          record {
            distinct = h.distinct;
            named = h.named;
            no_votes = refl;
            no_targets = na;
            judged = refl;
            unfinished = h.unfinished;
          },
        ),
      )
      | inr (id, e) ↦
          let live =
            select_vote_winner-Targets (λ x. lives x s.players ≡ true)
              (calculate_vote_tally env s.votes) id
              (calculate_vote_tally-Targets (λ x. lives x s.players ≡ true) env s.votes
                (targets_live s.players s.votes h.ballots_live))
              e in
          let nonempty = lives_nonempty id s.players h.named live in
          let (p, found, here) = found_alive s id nonempty live in
          (
            record {
              session = apply_player_death s id (some []) none now;
              executed = some p;
              tally = calculate_vote_tally env s.votes;
              winner_team = evaluate_winner (kill_player id now s.players);
            },
            rw (e, resolve_voting_outcome) (rw (nonempty, found)),
            (
              refl,
              refl,
              refl,
              refl,
              refl,
              rw e (live, sym here, refl),
              record {
                distinct = kill_player-Distinct id now s.players h.distinct;
                named = kill_player-IsNamed id now s.players h.named;
                no_votes = refl;
                no_targets = na;
                judged = refl;
                unfinished = h.unfinished;
              },
            ),
          )
    ]
