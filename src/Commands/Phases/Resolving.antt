-- ===== src/Commands/Phases/Resolving.antt =====
-- Which resolution a change of phase calls for.
use mafia_casefile.Prelude.{
  arith, ℕ, ◌≡◌, refl, subst, sym, String, true, false, none, Dict, Bool-cases, inl, inr,
}
use mafia_casefile.Shared.{
  GamePhase, Env, night, day_discussion, voting, result, finished, phase_eq,
}
use mafia_casefile.Session.{GameSession}
use mafia_casefile.Session.Players.{evaluate_winner}
use mafia_casefile.Session.StateMachine.{PhaseTransitionResult}
use mafia_casefile.Session.Cycle.{phase_after-night, phase_after-voting}
use mafia_casefile.Session.Invariant.{IsValid}
use mafia_casefile.World.{World, Action, return}
use mafia_casefile.Sessions.{save}
use mafia_casefile.Sessions.Laws.{StoreValid, find-save_self, save-StoreValid, save-OthersKept}
use mafia_casefile.Commands.Phases.{Resolution, resolve, resolve_night, resolve_voting}
use mafia_casefile.Commands.Phases.Turned.{turned, turned_session, turned-IsPending, turned-IsValid}
use mafia_casefile.Commands.Phases.Expected.{quiet, told_of_other}
use mafia_casefile.Commands.Phases.Settles.{Settles, resolve_night-Settles, resolve_voting-Settles}

is_phase : (p q : GamePhase) → phase_eq p q ≡ true → p ≡ q
is_phase p q h = ground arith

-- Which resolution a transition calls for.
module _ (env : Env) (game_id : String) (t : PhaseTransitionResult) (now : ℕ) where
  resolve_from_night :
      phase_eq t.from_phase night ≡ true
      → phase_eq t.to_phase day_discussion ≡ true
      → resolve env game_id t now ≡ resolve_night game_id t.to_turn now
  unfolding resolve
  resolve_from_night n d = rw (n, d)

  resolve_from_voting :
      phase_eq t.from_phase night ≡ false
      → phase_eq t.from_phase voting ≡ true
      → phase_eq t.to_phase result ≡ true
      → resolve env game_id t now ≡ resolve_voting env game_id t.to_turn now
  unfolding resolve
  resolve_from_voting n m r = rw (n, m, r)

  resolve_from_other :
      phase_eq t.from_phase night ≡ false
      → phase_eq t.from_phase voting ≡ false
      → resolve env game_id t now
        ≡ return (record { resolution_event = none; resolved = none; winner = none })
  unfolding resolve
  resolve_from_other n m = rw (n, m)

module _ (env : Env) (game_id : String) (now : ℕ) (w : World) (before : Dict GameSession)
    (valid : StoreValid before) (s : GameSession) (v : IsValid s) (own : s.game_id ≡ game_id)
    (running : phase_eq s.phase finished ≡ false) where
  abbrev pub next_session : GameSession
  next_session = turned_session env now s

  abbrev pub w₁ : World
  w₁ = record w { sessions = save next_session before }

  abbrev pub to_turn : ℕ
  to_turn = let t = turned env now s in t.to_turn

  abbrev Resolves : GamePhase → Action Resolution → Type 0
  Resolves from a = Settles game_id env from to_turn now before w next_session (a w₁)

  pub resolve-Settles :
      Settles game_id env s.phase to_turn now before w next_session
        (resolve env game_id (turned env now s) now w₁)
  resolve-Settles = elim (Bool-cases (phase_eq s.phase night)) [
    | inl n ↦
        let (day, not_voting) = phase_after-night s.phase n in
        subst (Resolves s.phase) (sym (resolve_from_night env game_id (turned env now s) now n day))
          (subst (λ from. Resolves from (resolve_night game_id to_turn now))
            (sym (is_phase s.phase night n))
            (resolve_night-Settles game_id now w before valid env next_session _ own
              (turned-IsPending env now s v running) (v.votes_while_voting not_voting)))
    | inr n ↦ elim (Bool-cases (phase_eq s.phase voting)) [
      | inl m ↦
          let (res, _) = phase_after-voting s.phase m in
          subst (Resolves s.phase)
            (sym (resolve_from_voting env game_id (turned env now s) now n m res))
            (subst (λ from. Resolves from (resolve_voting env game_id to_turn now))
              (sym (is_phase s.phase voting m))
              (resolve_voting-Settles game_id now w before valid env next_session _ own
                (turned-IsPending env now s v running) (v.actions_at_night n)))
      | inr m ↦
          let (told_none, none_falls) =
            told_of_other env s.phase next_session to_turn now none (evaluate_winner s.players) n
              m in
          subst (Resolves s.phase) (sym (resolve_from_other env game_id (turned env now s) now n m))
            (record {
              told = quiet;
              session = next_session;
              sessions = save next_session before;
              fallen = none;
              goes = (
                refl,
                find-save_self next_session game_id before own,
                save-StoreValid next_session before (turned-IsValid env now s v n m) valid,
                save-OthersKept next_session game_id before before own (λ other k. refl),
              );
              falls = rw none_falls (refl, refl);
              tells = sym told_none;
              ends = (refl, refl, refl);
            })
    ]
  ]
