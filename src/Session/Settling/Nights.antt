-- ===== src/Session/Settling/Nights.antt =====
-- What a night comes to: it never throws on a session in order, and whoever dies was alive.
use mafia_casefile.Prelude.{
  ℕ, ◌≡◌, refl, sym, String, true, false, Option, none, some, List, [], All, arith, ◌==◌,
  if◌then◌else◌, Option-cases, inl, inr,
}
use mafia_casefile.Prelude.Results.{ok}
use mafia_casefile.Session.{GameSession, GameSessionPlayer, no_actions}
use mafia_casefile.Session.Players.{
  find_player?, kill_player, apply_player_death, clear_night_actions, evaluate_winner,
}
use mafia_casefile.Session.Outcomes.{NightOutcomeResult, night_victim, resolve_night_outcome}
use mafia_casefile.Session.Lives.{lives?, IsNamed, kill_player-Distinct, kill_player-IsNamed}
use mafia_casefile.Session.Settling.{
  IsSettled, IsPending, Falls, found_alive, alive_of, lives_nonempty,
}

-- A victim is the mafia's target, and is not empty.
night_victim-eq-some :
    (m d : Option String) (id : String)
    → night_victim m d ≡ some id
    → (m ≡ some id) × ((id == "") ≡ false)
unfolding night_victim
night_victim-eq-some none d id e = ground arith
night_victim-eq-some (some x) d id e = ground arith

-- The player attacked, unless the doctor protects the same one.
abbrev pub attacked : Option String → Option String → Option String
attacked none protected = none
attacked (some id) none = some id
attacked (some id) (some protected) = if id == protected then none else some id

abbrev pub NightSettles : GameSession → ℕ → NightOutcomeResult → Type 0
NightSettles s now o =
    (o.session.game_id ≡ s.game_id)
    × (o.session.phase ≡ s.phase)
    × (o.session.turn ≡ s.turn)
    × (o.session.phase_ends_at ≡ s.phase_ends_at)
    × (o.protected_target ≡ find_player? s s.night_actions.doctor_target)
    × Falls (attacked s.night_actions.mafia_target s.night_actions.doctor_target) now s.players
        o.killed o.session.players
    × IsSettled o.session o.winner_team

night_victim-attacked :
    (m d : Option String) (ps : List GameSessionPlayer)
    → All IsNamed ps
    → lives? m ps ≡ true
    → night_victim m d ≡ attacked m d
unfolding night_victim
night_victim-attacked none d ps h l = refl
night_victim-attacked (some id) none ps h l = rw (lives_nonempty id ps h l)
night_victim-attacked (some id) (some protected) ps h l = ground (arith, lives_nonempty id ps h l)

-- A night resolves without an error, for a session without votes that is not finished, whose players
-- have distinct ids that are not empty and whose mafia target, if any, lives. The mafia's target
-- falls, unless the doctor protects them; the night actions are cleared, the game, its phase, turn
-- and deadline are the same, and the winner is the one that the players left decide.
pub resolve_night_outcome-IsSettled :
    (s : GameSession) (now : ℕ)
    → IsPending s
    → s.votes ≡ []
    → (o : NightOutcomeResult) × (resolve_night_outcome s now ≡ ok o) × NightSettles s now o
unfolding resolve_night_outcome clear_night_actions apply_player_death
resolve_night_outcome-IsSettled s now h nv =
    elim (Option-cases (night_victim s.night_actions.mafia_target s.night_actions.doctor_target)) [
      | inl e ↦ (
        record {
          session = clear_night_actions s now;
          killed = none;
          protected_target = find_player? s s.night_actions.doctor_target;
          winner_team = evaluate_winner s.players;
        },
        rw (e, resolve_night_outcome),
        (
          refl,
          refl,
          refl,
          refl,
          refl,
          rw (← same, e) (refl, refl),
          record {
            distinct = h.distinct;
            named = h.named;
            no_votes = nv;
            no_targets = refl;
            judged = refl;
            unfinished = h.unfinished;
          },
        ),
      )
      | inr (id, e) ↦
          let (target, nonempty) = night_victim-eq-some _ _ id e in
          let live = rw target at h.mafia_target_lives in
          let (p, found, here) = found_alive s id nonempty live in
          (
            record {
              session = apply_player_death s id none (some no_actions) now;
              killed = some p;
              protected_target = find_player? s s.night_actions.doctor_target;
              winner_team = evaluate_winner (kill_player id now s.players);
            },
            rw (e, resolve_night_outcome) (rw (found, alive_of id s.players p live here)),
            (
              refl,
              refl,
              refl,
              refl,
              refl,
              rw (← same, e) (live, sym here, refl),
              record {
                distinct = kill_player-Distinct id now s.players h.distinct;
                named = kill_player-IsNamed id now s.players h.named;
                no_votes = nv;
                no_targets = refl;
                judged = refl;
                unfinished = h.unfinished;
              },
            ),
          )
    ]
  where
    same :
        night_victim s.night_actions.mafia_target s.night_actions.doctor_target
        ≡ attacked s.night_actions.mafia_target s.night_actions.doctor_target
    same =
        night_victim-attacked s.night_actions.mafia_target s.night_actions.doctor_target s.players
          h.named h.mafia_target_lives
