-- ===== src/Session/Invariant/Choices.antt =====
-- What a night action needs and changes, and that it leaves a valid session valid.
use mafia_casefile.Prelude.{ℕ, ◌+◌, not, ◌&&◌, ◌≡◌, String, true, false, some, arith, ◌==◌, truthy?}
use mafia_casefile.Prelude.Results.{ok}
use mafia_casefile.Shared.{Role, night, phase_eq, role_eq, is_alive}
use mafia_casefile.Session.{GameSession, find_player}
use mafia_casefile.Session.Operations.{
  NightActionSelectionResult, TargetKey, mafia_key, doctor_key, police_key, get_target, set_target,
  is_doctor_key, select_night_action,
}
use mafia_casefile.Session.Lives.{lives, find_player-id}
use mafia_casefile.Session.Invariant.{IsValid, lives_of_alive}

pub select_night_action-eq-ok :
    (s : GameSession) (actor_id target_id : String) (role : Role) (key : TargetKey) (now : ℕ)
    (r : NightActionSelectionResult)
    → select_night_action s actor_id target_id role key now ≡ ok r
    → (phase_eq s.phase night ≡ true)
      × (find_player actor_id s.players ≡ some r.actor)
      × (is_alive r.actor.status ≡ true)
      × (role_eq r.actor.role role ≡ true)
      × (find_player target_id s.players ≡ some r.target)
      × (is_alive r.target.status ≡ true)
      × (truthy? (get_target key s.night_actions) ≡ false)
      × ((r.target.user_id == r.actor.user_id) && not (is_doctor_key key) ≡ false)
      × (r.session ≡ record s {
        night_actions = set_target key r.target.user_id s.night_actions;
        version = s.version + 1;
        updated_at = now;
      })
unfolding select_night_action
select_night_action-eq-ok s actor_id target_id role key now r e = ground arith

set_target-IsValid :
    (s : GameSession) (id : String) (key : TargetKey) (version now : ℕ)
    → IsValid s
    → phase_eq s.phase night ≡ true
    → lives id s.players ≡ true
    → IsValid (record s {
      night_actions = set_target key id s.night_actions;
      version = version;
      updated_at = now;
    })
set_target-IsValid s id mafia_key version now v n l = record {
  distinct = v.distinct;
  named = v.named;
  ballots_live = v.ballots_live;
  mafia_target_lives = l;
  doctor_target_lives = v.doctor_target_lives;
  police_target_lives = v.police_target_lives;
  votes_while_voting = v.votes_while_voting;
  actions_at_night = λ m. cc;
  finished_when_won = v.finished_when_won;
}
set_target-IsValid s id doctor_key version now v n l = record {
  distinct = v.distinct;
  named = v.named;
  ballots_live = v.ballots_live;
  mafia_target_lives = v.mafia_target_lives;
  doctor_target_lives = l;
  police_target_lives = v.police_target_lives;
  votes_while_voting = v.votes_while_voting;
  actions_at_night = λ m. cc;
  finished_when_won = v.finished_when_won;
}
set_target-IsValid s id police_key version now v n l = record {
  distinct = v.distinct;
  named = v.named;
  ballots_live = v.ballots_live;
  mafia_target_lives = v.mafia_target_lives;
  doctor_target_lives = v.doctor_target_lives;
  police_target_lives = l;
  votes_while_voting = v.votes_while_voting;
  actions_at_night = λ m. cc;
  finished_when_won = v.finished_when_won;
}

-- A night action that is accepted, for any role and target, leaves a valid session valid.
pub select_night_action-IsValid :
    (s : GameSession) (actor_id target_id : String) (role : Role) (key : TargetKey) (now : ℕ)
    (r : NightActionSelectionResult)
    → IsValid s
    → select_night_action s actor_id target_id role key now ≡ ok r
    → IsValid r.session
select_night_action-IsValid s actor_id target_id role key now r v e =
    let (n, ea, la, ra, et, lt, free, self, same) =
      select_night_action-eq-ok s actor_id target_id role key now r e in
    rw same (
      set_target-IsValid s r.target.user_id key (s.version + 1) now v n (
        rw (find_player-id target_id s.players r.target et)
          (lives_of_alive target_id s.players r.target et lt)))
