-- ===== src/Commands/Keeping/Phases.antt =====
-- A change of phase keeps the stores valid, whether it goes through or is refused.
use mafia_casefile.Prelude.{
  ◌≡◌, refl, ap, sym, subst, inl, inr, ℕ, String, true, false, Option, none, some, List,
  Option-cases, Bool-cases,
}
use mafia_casefile.Prelude.Results.{Result, Result-cases, ok, err}
use mafia_casefile.Shared.{Env, finished, phase_eq}
use mafia_casefile.Session.{GameSession}
use mafia_casefile.Session.StateMachine.{advance}
use mafia_casefile.Session.Cycle.{advance_lem}
use mafia_casefile.Rooms.Operations.{assert_can_advance_phase}
use mafia_casefile.World.{World, continue, put_sessions, ◌>>=◌, ◌>>◌, return}
use mafia_casefile.Sessions.{find_by_game_id, advance_phase}
use mafia_casefile.Commands.{GameCommandEnvelope, GameCommandUser, GameCommandEffect}
use mafia_casefile.Commands.Phases.{
  resolve, record_phase_change, phase_effects, change_phase, next_phase_action, next_phase_reason,
  handle_next_phase, advance_phase_automatically,
}
use mafia_casefile.Commands.Phases.Running.{HasChanged, change_phase-HasChanged}
use mafia_casefile.Commands.Keeping.{
  WorldValid, Post, Valid, continue-Post, Post-WorldValid, answer-WorldValid, payload-WorldValid,
}

module _ (env : Env) (game_id request_id : String) (requested_by : Option String) (now : ℕ)
    (w : World) where
  -- An advance that is refused is the end of the change.
  change_phase-refused :
      (message : String)
      → advance_phase env game_id now w.sessions ≡ err message
      → change_phase env game_id requested_by request_id now w ≡ (err message, w)
  unfolding change_phase
  change_phase-refused message e =
      ap
        (λ x.
          continue
            (λ t. resolve env game_id t now >>= λ r.
              record_phase_change game_id request_id requested_by t r
              >> return (phase_effects game_id requested_by t r now))
            (put_sessions w x))
        e

  change_phase-running :
      WorldValid w
      → (s : GameSession) → find_by_game_id game_id w.sessions ≡ some s
      → phase_eq s.phase finished ≡ false
      → Post Valid (change_phase env game_id requested_by request_id now w)
  change_phase-running v s found running =
      let c =
        change_phase-HasChanged env game_id request_id requested_by now w s v.sessions_valid found
          running in
      of_HasChanged (change_phase env game_id requested_by request_id now w) c
    where
      of_HasChanged :
          (out : Result (List GameCommandEffect) × World)
          → HasChanged env game_id request_id requested_by now s w out
          → Post Valid out
      of_HasChanged (ok effects, w') c = record {
        sessions_valid = c.valid;
        rooms_valid = rw c.same_rooms v.rooms_valid;
      }
      of_HasChanged (err message, w') c = record {
        sessions_valid = c.valid;
        rooms_valid = rw c.same_rooms v.rooms_valid;
      }

  missing_refused :
      find_by_game_id game_id w.sessions ≡ none
      → advance_phase env game_id now w.sessions ≡ err "game session not found"
  unfolding advance_phase
  missing_refused e = rw (e, advance_phase) refl

  finished_refused :
      (s : GameSession)
      → find_by_game_id game_id w.sessions ≡ some s
      → phase_eq s.phase finished ≡ true
      → advance_phase env game_id now w.sessions ≡ err "game is finished"
  unfolding advance_phase
  finished_refused s e f =
      let refused : advance now s ≡ err "game is finished" = rw (advance_lem now s) (rw f refl) in
      rw (e, advance_phase, refused) refl

  pub change_phase-Valid :
      WorldValid w → Post Valid (change_phase env game_id requested_by request_id now w)
  change_phase-Valid v = elim (Option-cases (find_by_game_id game_id w.sessions)) [
    | inl e ↦ rw (change_phase-refused _ (missing_refused e)) v
    | inr (s, e) ↦ elim (Bool-cases (phase_eq s.phase finished)) [
      | inl f ↦ rw (change_phase-refused _ (finished_refused s e f)) v
      | inr running ↦ change_phase-running v s e running
    ]
  ]

next_phase_action-Valid :
    (env : Env) (c : GameCommandEnvelope) (user : GameCommandUser) (now : ℕ) (w : World)
    → WorldValid w
    → Post Valid (next_phase_action env c user now w)
unfolding next_phase_action
next_phase_action-Valid env c user now w v =
    continue-Post Valid Valid (λ room. change_phase env c.game_id (some user.id) c.request_id now)
      (λ room w' v'. change_phase-Valid env c.game_id c.request_id (some user.id) now w' v')
      (assert_can_advance_phase c.game_id user.id w.rooms, w)
      (tried (assert_can_advance_phase c.game_id user.id w.rooms))
  where
    tried : {A : Type 0} (r : Result A) → Post Valid (r, w)
    tried (ok a) = v
    tried (err message) = v

pub handle_next_phase-WorldValid :
    (env : Env) (c : GameCommandEnvelope) (user : Option GameCommandUser) (now : ℕ) (w : World)
    → WorldValid w
    → WorldValid ((handle_next_phase env c user now w).1)
unfolding handle_next_phase
handle_next_phase-WorldValid env c none now w v = v
handle_next_phase-WorldValid env c (some user) now w v =
    payload-WorldValid c.payload _ _ w v (λ fields.
      answer-WorldValid c next_phase_reason (next_phase_action env c user now) w
        (next_phase_action-Valid env c user now w v))

pub automatic_world :
    (env : Env) (game_id request_id : String) (now : ℕ) (w : World)
    → (advance_phase_automatically env game_id request_id now w).1
      ≡ (change_phase env game_id none request_id now w).1
unfolding advance_phase_automatically
automatic_world env game_id request_id now w =
    elim (Result-cases (change_phase env game_id none request_id now w).0) [
      | inl (a, e) ↦ rw (e, advance_phase_automatically) refl
      | inr (message, e) ↦ rw (e, advance_phase_automatically) refl
    ]

pub advance_phase_automatically-WorldValid :
    (env : Env) (game_id request_id : String) (now : ℕ) (w : World)
    → WorldValid w
    → WorldValid ((advance_phase_automatically env game_id request_id now w).1)
advance_phase_automatically-WorldValid env game_id request_id now w v =
    subst WorldValid (sym (automatic_world env game_id request_id now w)) (
      Post-WorldValid (change_phase env game_id none request_id now w)
        (change_phase-Valid env game_id request_id none now w v))
