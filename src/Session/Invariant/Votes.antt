-- ===== src/Session/Invariant/Votes.antt =====
-- What a vote needs and changes, and that it leaves a valid session valid.
use mafia_casefile.Prelude.{
  ℕ, ◌+◌, ◌≡◌, String, true, false, some, List, [], ◌∷◌, Dict, insert, All, arith, ◌==◌, Bool-cases,
  inl, inr, ◌⊎◌, truthy?, lookup,
}
use mafia_casefile.Prelude.Results.{ok}
use mafia_casefile.Shared.{Env, voting, phase_eq, is_alive}
use mafia_casefile.Session.{GameSession, GameSessionPlayer, find_player}
use mafia_casefile.Session.Operations.{VoteCastResult, cast_vote, first_vote, repeat_vote}
use mafia_casefile.Session.Lives.{lives}
use mafia_casefile.Session.Invariant.{BallotLives, IsValid, lives_of_alive}

insert-BallotLives :
    (ps : List GameSessionPlayer) (voter target : String) (votes : Dict String)
    → lives voter ps ≡ true
    → lives target ps ≡ true
    → All (BallotLives ps) votes
    → All (BallotLives ps) (insert voter target votes)
unfolding insert
insert-BallotLives ps voter target [] hv ht h = ((hv, ht), tt)
insert-BallotLives ps voter target ((w, t) ∷ votes) hv ht h = elim (Bool-cases (w == voter)) [
  | inl e ↦ rw e ((h.0.0, ht), h.1)
  | inr e ↦ rw e (h.0, insert-BallotLives ps voter target votes hv ht h.1)
]

-- What a vote that is not a repeated request needs, and all that it changes.
pub first_vote-eq-ok :
    (env : Env) (s : GameSession) (actor_id target_id request_id : String) (now : ℕ)
    (r : VoteCastResult)
    → first_vote env s actor_id target_id request_id now ≡ ok r
    → (find_player actor_id s.players ≡ some r.actor)
      × (is_alive r.actor.status ≡ true)
      × (find_player target_id s.players ≡ some r.target)
      × (is_alive r.target.status ≡ true)
      × (truthy? (lookup actor_id s.votes) ≡ false)
      × (r.session ≡ record s {
        votes = insert actor_id target_id s.votes;
        processed_requests = insert request_id target_id s.processed_requests;
        version = s.version + 1;
        updated_at = now;
      })
unfolding first_vote
first_vote-eq-ok env s actor_id target_id request_id now r e = ground arith

repeat_vote-eq-ok :
    (env : Env) (s : GameSession) (actor_id target_id : String) (r : VoteCastResult)
    → repeat_vote env s actor_id target_id ≡ ok r
    → (r.session ≡ s) × (r.duplicate_request ≡ true)
unfolding repeat_vote
repeat_vote-eq-ok env s actor_id target_id r e = ground arith

cast_vote-eq-ok :
    (env : Env) (s : GameSession) (actor_id target_id request_id : String) (now : ℕ)
    (r : VoteCastResult)
    → cast_vote env s actor_id target_id request_id now ≡ ok r
    → (phase_eq s.phase voting ≡ true)
      × ((repeat_vote env s actor_id target_id ≡ ok r)
          ⊎ (first_vote env s actor_id target_id request_id now ≡ ok r))
unfolding cast_vote
cast_vote-eq-ok env s actor_id target_id request_id now r e = ground arith

-- A vote that is accepted, be it new or a repeated request, leaves a valid session valid.
pub cast_vote-IsValid :
    (env : Env) (s : GameSession) (actor_id target_id request_id : String) (now : ℕ)
    (r : VoteCastResult)
    → IsValid s
    → cast_vote env s actor_id target_id request_id now ≡ ok r
    → IsValid r.session
cast_vote-IsValid env s actor_id target_id request_id now r v e =
    let (p, how) = cast_vote-eq-ok env s actor_id target_id request_id now r e in
    elim how [
      | inl again ↦ rw ((repeat_vote-eq-ok env s actor_id target_id r again).0) v
      | inr first ↦
          let (ea, la, et, lt, free, same) =
            first_vote-eq-ok env s actor_id target_id request_id now r first in
          rw same (record {
            distinct = v.distinct;
            named = v.named;
            ballots_live =
                insert-BallotLives s.players actor_id target_id s.votes
                  (lives_of_alive actor_id s.players r.actor ea la)
                  (lives_of_alive target_id s.players r.target et lt) v.ballots_live;
            mafia_target_lives = v.mafia_target_lives;
            doctor_target_lives = v.doctor_target_lives;
            police_target_lives = v.police_target_lives;
            votes_while_voting = λ n. cc;
            actions_at_night = v.actions_at_night;
            finished_when_won = v.finished_when_won;
          })
    ]
