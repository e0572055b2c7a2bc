-- ===== src/Commands/Phases/Settles.antt =====
-- The resolution of the night or the vote that a change of phase ends.
use mafia_casefile.Prelude.{ℕ, ◌≡◌, refl, ap, ◌∙◌, String, Option, none, some, [], Dict}
use mafia_casefile.Prelude.Results.{Result, ok}
use mafia_casefile.Shared.{Env, GamePhase, night, voting}
use mafia_casefile.Session.{GameSession, GameSessionPlayer, no_actions}
use mafia_casefile.Session.Players.{WinnerTeam, evaluate_winner}
use mafia_casefile.Session.Settling.{Falls, IsSettled, IsPending, IsSettled-IsValid, finish-IsValid}
use mafia_casefile.Session.Settling.Nights.{resolve_night_outcome-IsSettled}
use mafia_casefile.Session.Settling.Votes.{resolve_voting_outcome-IsSettled}
use mafia_casefile.World.{World, continue, put_sessions, return}
use mafia_casefile.Sessions.{save, find_by_game_id}
use mafia_casefile.Sessions.Laws.{
  StoreValid, OthersKept, find-save_self, save-ValidBut, save-OthersKept, OthersKept-ValidBut,
}
use mafia_casefile.Sessions.Found.{
  finish_game_found, resolve_night_outcome_found, resolve_voting_outcome_found,
}
use mafia_casefile.Commands.Phases.Expected.{who_falls, told_of, phase_or_end, deadline_or_none}
use mafia_casefile.Commands.Phases.{
  Resolution, night_resolution, voting_resolution, conclude_night, conclude_voting, actions_of,
  finish_if_won, resolve_night, resolve_voting,
}

-- The session `f` is `s` as a winner, if there is one, leaves it.
abbrev pub Ends : GameSession → Option WinnerTeam → GameSession → Type 0
Ends s winner f =
    (f.phase ≡ phase_or_end winner s.phase)
    × (f.turn ≡ s.turn)
    × (f.phase_ends_at ≡ deadline_or_none winner s.phase_ends_at)

-- The action returned, changed only the sessions, and left them valid, those of other games as they
-- were in `before`.
abbrev pub Goes :
    {A : Type 0}
    → String
    → Dict GameSession
    → World
    → A
    → GameSession
    → Dict GameSession
    → Result A × World
    → Type 0
Goes game_id before w a f sessions out =
    (out ≡ (ok a, record w { sessions = sessions }))
    × (find_by_game_id game_id sessions ≡ some f)
    × StoreValid sessions
    × OthersKept game_id before sessions

-- The phase `from` is resolved for the session `s`, which has left it.
pub record Settles (game_id : String) (env : Env) (from : GamePhase) (turn now : ℕ)
    (before : Dict GameSession) (w : World) (s : GameSession) (out : Result Resolution × World)
    : Type 0 where
  pub told : Resolution
  pub session : GameSession
  pub sessions : Dict GameSession
  pub fallen : Option GameSessionPlayer
  pub goes : Goes game_id before w told session sessions out
  pub falls : Falls (who_falls env from s) now s.players fallen session.players
  pub tells : told ≡ told_of env from s turn now fallen (evaluate_winner session.players)
  pub ends : Ends s told.winner session

module _ (game_id : String) (now : ℕ) (w : World) (before base : Dict GameSession)
    (valid : StoreValid before) (kept : OthersKept game_id before base) where
  -- The resolved session has been saved: the game is finished now if it is decided.
  finish_if_won-Ends :
      (s : GameSession) (winner : Option WinnerTeam)
      → s.game_id ≡ game_id
      → IsSettled s winner
      → (f : GameSession) × (sessions : Dict GameSession) × Goes game_id before w tt f sessions
          (finish_if_won game_id winner now (record w { sessions = save s base }))
        × Ends s winner f
        × (f.players ≡ s.players)
  unfolding finish_if_won
  finish_if_won-Ends s none q h = (
    s,
    save s base,
    (
      refl,
      find-save_self s game_id base q,
      save-ValidBut s game_id base q (IsSettled-IsValid s h)
          (OthersKept-ValidBut game_id before base valid kept),
      save-OthersKept s game_id before base q kept,
    ),
    (refl, refl, refl),
    refl,
  )
  finish_if_won-Ends s (some team) q h =
      let (t, done, same_id, over, turn, deadline, players, v) = finish-IsValid s team now h in
      let q' : t.session.game_id ≡ game_id = same_id ∙ q in
      let kept' = save-OthersKept s game_id before base q kept in
      (
        t.session,
        save t.session (save s base),
        (
          ap (λ r. continue (λ _. return tt) (put_sessions (record w { sessions = save s base }) r))
              (finish_game_found game_id now (save s base) s (find-save_self s game_id base q) t
                done),
          find-save_self t.session game_id (save s base) q',
          save-ValidBut t.session game_id (save s base) q' v
              (OthersKept-ValidBut game_id before (save s base) valid kept'),
          save-OthersKept t.session game_id before (save s base) q' kept',
        ),
        (over, turn, deadline),
        players,
      )

-- The change of phase has been saved in place of the session.
module _ (game_id : String) (now : ℕ) (w : World) (before : Dict GameSession)
    (valid : StoreValid before) where
  -- After a night: it is resolved, and the game is finished if that decides it.
  pub resolve_night-Settles :
      (env : Env) (s : GameSession) (turn : ℕ)
      → s.game_id ≡ game_id
      → IsPending s
      → s.votes ≡ []
      → Settles game_id env night turn now before w s
          (resolve_night game_id turn now (record w { sessions = save s before }))
  unfolding resolve_night
  resolve_night-Settles env s turn q h nv =
      let base = save s before in
      let w₁ = record w { sessions = base } in
      let here = find-save_self s game_id before q in
      let (o, done, (same_id, same_phase, same_turn, deadline, shield, falls, settled)) =
        resolve_night_outcome-IsSettled s now h nv in
      let saved = resolve_night_outcome_found game_id now base s here o done in
      let (f, sessions, (fin, found, valid', kept'), (over, turn_kept, deadline_kept), players) =
        finish_if_won-Ends game_id now w before base valid
          (save-OthersKept s game_id before before q (λ other n. refl)) o.session o.winner_team
          (same_id ∙ q) settled in
      let before_night = actions_of (find_by_game_id game_id base) in
      let r = night_resolution before_night turn now o in
      record {
        told = r;
        session = f;
        sessions = sessions;
        fallen = o.killed;
        goes = (
          ap (λ x. continue (conclude_night game_id turn now before_night) (put_sessions w₁ x))
                saved
              ∙ ap (continue (λ _. return r)) fin,
          found,
          valid',
          kept',
        );
        falls = rw players falls;
        tells = rw (ap actions_of here, shield, settled.judged, players) refl;
        ends = (
          over ∙ ap (phase_or_end o.winner_team) same_phase,
          turn_kept ∙ same_turn,
          deadline_kept ∙ ap (deadline_or_none o.winner_team) deadline,
        );
      }

  -- After a vote: it is resolved, and the game is finished if that decides it.
  pub resolve_voting-Settles :
      (env : Env) (s : GameSession) (turn : ℕ)
      → s.game_id ≡ game_id
      → IsPending s
      → s.night_actions ≡ no_actions
      → Settles game_id env voting turn now before w s
          (resolve_voting env game_id turn now (record w { sessions = save s before }))
  unfolding resolve_voting
  resolve_voting-Settles env s turn q h na =
      let base = save s before in
      let w₁ = record w { sessions = base } in
      let here = find-save_self s game_id before q in
      let (o, done, (same_id, same_phase, same_turn, deadline, counted, falls, settled)) =
        resolve_voting_outcome-IsSettled env s now h na in
      let saved = resolve_voting_outcome_found game_id now base s here env o done in
      let (f, sessions, (fin, found, valid', kept'), (over, turn_kept, deadline_kept), players) =
        finish_if_won-Ends game_id now w before base valid
          (save-OthersKept s game_id before before q (λ other n. refl)) o.session o.winner_team
          (same_id ∙ q) settled in
      let r = voting_resolution turn now o in
      record {
        told = r;
        session = f;
        sessions = sessions;
        fallen = o.executed;
        goes = (
          ap (λ x. continue (conclude_voting game_id turn now) (put_sessions w₁ x)) saved
              ∙ ap (continue (λ _. return r)) fin,
          found,
          valid',
          kept',
        );
        falls = rw players falls;
        tells = rw (counted, settled.judged, players) refl;
        ends = (
          over ∙ ap (phase_or_end o.winner_team) same_phase,
          turn_kept ∙ same_turn,
          deadline_kept ∙ ap (deadline_or_none o.winner_team) deadline,
        );
      }
