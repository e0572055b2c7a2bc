-- ===== src/Sessions/Laws.antt =====
-- The store of sessions: what `save` makes findable, and that the calls keep every session in it
-- valid.
use mafia_casefile.Prelude.{
  ℕ, ◌≡◌, ◌≢◌, sym, String, true, false, some, Dict, lookup-insert, arith, ◌==◌, eq_iff, eq_ne,
  if◌then◌else◌, inl, inr, text_cases, ◌∙◌,
}
use mafia_casefile.Prelude.Results.{ok}
use mafia_casefile.Shared.{Env}
use mafia_casefile.Session.{GameSession}
use mafia_casefile.Session.Invariant.{IsValid}
use mafia_casefile.Session.Invariant.Connections.{
  mark_player_connected-IsValid, mark_player_disconnected-IsValid,
}
use mafia_casefile.Session.Invariant.Votes.{cast_vote-IsValid}
use mafia_casefile.Session.Invariant.Choices.{select_night_action-IsValid}
use mafia_casefile.Session.Operations
use mafia_casefile.Session.Operations.{TargetKey, VoteCastResult, NightActionSelectionResult}
use mafia_casefile.Sessions.{
  save, find_by_game_id, mark_player_connected, mark_player_disconnected, select_target, cast_vote,
  role_of_key,
}

-- A session that is found is valid, and is stored under its own id.
abbrev pub StoreValid : Dict GameSession → Type 0
StoreValid sessions =
    (game_id : String) (s : GameSession)
    → find_by_game_id game_id sessions ≡ some s
    → (s.game_id ≡ game_id) × IsValid s

pub find-save :
    (s : GameSession) (game_id : String) (sessions : Dict GameSession)
    → find_by_game_id game_id (save s sessions)
      ≡ (if s.game_id == game_id then some s else find_by_game_id game_id sessions)
unfolding find_by_game_id save
find-save s game_id sessions = lookup-insert s.game_id game_id s sessions

-- Saving a valid session leaves a valid store.
pub save-StoreValid :
    (s : GameSession) (sessions : Dict GameSession)
    → IsValid s
    → StoreValid sessions
    → StoreValid (save s sessions)
save-StoreValid s sessions v h game_id t e = elim (text_cases s.game_id game_id) [
  | inl (q, b) ↦
      let same : some s ≡ some t = rw (find-save, b) at e in let st : s ≡ t = cc in rw (← st) (q, v)
  | inr (n, b) ↦ h game_id t (rw (find-save, b) at e)
]

-- Every session but that of one game is valid.
abbrev pub ValidBut : String → Dict GameSession → Type 0
ValidBut but sessions =
    (game_id : String) (s : GameSession)
    → but ≢ game_id
    → find_by_game_id game_id sessions ≡ some s
    → (s.game_id ≡ game_id) × IsValid s

-- The other games have the sessions that they had.
abbrev pub OthersKept : String → Dict GameSession → Dict GameSession → Type 0
OthersKept but before after =
    (game_id : String)
    → but ≢ game_id
    → find_by_game_id game_id after ≡ find_by_game_id game_id before

pub save-OthersKept :
    (s : GameSession) (game_id : String) (before after : Dict GameSession)
    → s.game_id ≡ game_id
    → OthersKept game_id before after
    → OthersKept game_id before (save s after)
save-OthersKept s game_id before after q h other n =
    rw (find-save s other after, eq_ne s.game_id other (λ p. n (sym q ∙ p))) (h other n)

pub OthersKept-ValidBut :
    (game_id : String) (before after : Dict GameSession)
    → StoreValid before
    → OthersKept game_id before after
    → ValidBut game_id after
OthersKept-ValidBut game_id before after v h other s n e = v other s (sym (h other n) ∙ e)

pub save-ValidBut :
    (s : GameSession) (game_id : String) (sessions : Dict GameSession)
    → s.game_id ≡ game_id
    → IsValid s
    → ValidBut game_id sessions
    → StoreValid (save s sessions)
save-ValidBut s game_id sessions q v h other t e = elim (text_cases s.game_id other) [
  | inl (p, b) ↦
      let same : some s ≡ some t = rw (find-save, b) at e in let st : s ≡ t = cc in rw (← st) (p, v)
  | inr (n, b) ↦ h other t (λ p. n (q ∙ p)) (rw (find-save, b) at e)
]

pub find-save_self :
    (s : GameSession) (game_id : String) (sessions : Dict GameSession)
    → s.game_id ≡ game_id
    → find_by_game_id game_id (save s sessions) ≡ some s
find-save_self s game_id sessions q = rw (find-save s game_id sessions, (eq_iff _ _).1 q)

module _ (game_id user_id : String) (now : ℕ) (sessions sessions' : Dict GameSession) where
  pub mark_player_connected-eq-ok :
      (t : GameSession)
      → mark_player_connected game_id user_id now sessions ≡ ok (t, sessions')
      → (s : GameSession) × (find_by_game_id game_id sessions ≡ some s)
        × (Operations.mark_player_connected s user_id now ≡ ok t)
        × (sessions' ≡ save t sessions)
  unfolding mark_player_connected
  mark_player_connected-eq-ok t e = ground arith

  pub mark_player_disconnected-eq-ok :
      (t : GameSession)
      → mark_player_disconnected game_id user_id now sessions ≡ ok (t, sessions')
      → (s : GameSession) × (find_by_game_id game_id sessions ≡ some s)
        × (Operations.mark_player_disconnected s user_id now ≡ ok t)
        × (sessions' ≡ save t sessions)
  unfolding mark_player_disconnected
  mark_player_disconnected-eq-ok t e = ground arith

  pub mark_player_connected-StoreValid :
      (t : GameSession)
      → StoreValid sessions
      → mark_player_connected game_id user_id now sessions ≡ ok (t, sessions')
      → StoreValid sessions'
  mark_player_connected-StoreValid t h e =
      let (s, found, done, same) = mark_player_connected-eq-ok t e in
      rw same (
        save-StoreValid t sessions
          (mark_player_connected-IsValid s user_id now t ((h game_id s found).1) done) h)

  pub mark_player_disconnected-StoreValid :
      (t : GameSession)
      → StoreValid sessions
      → mark_player_disconnected game_id user_id now sessions ≡ ok (t, sessions')
      → StoreValid sessions'
  mark_player_disconnected-StoreValid t h e =
      let (s, found, done, same) = mark_player_disconnected-eq-ok t e in
      rw same (
        save-StoreValid t sessions
          (mark_player_disconnected-IsValid s user_id now t ((h game_id s found).1) done) h)

module _ (game_id actor_id target_id : String) (now : ℕ)
    (sessions sessions' : Dict GameSession) where
  pub select_target-eq-ok :
      (key : TargetKey) (r : NightActionSelectionResult)
      → select_target key game_id actor_id target_id now sessions ≡ ok (r, sessions')
      → (s : GameSession) × (find_by_game_id game_id sessions ≡ some s)
        × (Operations.select_night_action s actor_id target_id (role_of_key key) key now ≡ ok r)
        × (sessions' ≡ save r.session sessions)
  unfolding select_target
  select_target-eq-ok key r e = ground arith

  pub select_target-StoreValid :
      (key : TargetKey) (r : NightActionSelectionResult)
      → StoreValid sessions
      → select_target key game_id actor_id target_id now sessions ≡ ok (r, sessions')
      → StoreValid sessions'
  select_target-StoreValid key r h e =
      let (s, found, done, same) = select_target-eq-ok key r e in
      rw same (
        save-StoreValid r.session sessions
          (select_night_action-IsValid s actor_id target_id (role_of_key key) key now r
            ((h game_id s found).1) done)
          h)

  pub cast_vote-eq-ok :
      (env : Env) (request_id : String) (r : VoteCastResult)
      → cast_vote env game_id actor_id target_id request_id now sessions ≡ ok (r, sessions')
      → (s : GameSession) × (find_by_game_id game_id sessions ≡ some s)
        × (Operations.cast_vote env s actor_id target_id request_id now ≡ ok r)
        × (sessions' ≡ (if r.duplicate_request then sessions else save r.session sessions))
  unfolding cast_vote
  cast_vote-eq-ok env request_id r e = ground arith

  pub cast_vote-StoreValid :
      (env : Env) (request_id : String) (r : VoteCastResult)
      → StoreValid sessions
      → cast_vote env game_id actor_id target_id request_id now sessions ≡ ok (r, sessions')
      → StoreValid sessions'
  cast_vote-StoreValid env request_id r h e =
      let (s, found, done, same) = cast_vote-eq-ok env request_id r e in
      let saved =
        save-StoreValid r.session sessions
          (cast_vote-IsValid env s actor_id target_id request_id now r ((h game_id s found).1) done)
          h in
      rw same
        (elim r.duplicate_request
          as (λ b. StoreValid (if b then sessions else save r.session sessions)) [
            | true ↦ h
            | false ↦ saved
          ])
