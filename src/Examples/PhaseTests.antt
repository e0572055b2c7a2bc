-- ===== src/Examples/PhaseTests.antt =====
-- A night and a vote that are resolved, and instances of the theorems on phase changes.
use mafia_casefile.Prelude.{
  ◌≡◌, refl, ◌∙◌, Option, none, some, [], ◌∷◌, arith, lookup, inl, inr, text_cases,
}
use mafia_casefile.Session.{GameSession}
use mafia_casefile.Session.Invariant.{IsValid}
use mafia_casefile.Sessions.{find_by_game_id}
use mafia_casefile.Sessions.Laws.{StoreValid}
use mafia_casefile.Commands.Phases.{change_phase}
use mafia_casefile.Commands.Phases.Running.{HasChanged, change_phase-HasChanged}
use mafia_casefile.Examples.{env, night_game, world}
use mafia_casefile.Examples.SessionTests.{night_game-IsValid}

one_session : (s : GameSession) → s.game_id ≡ "g" → IsValid s → StoreValid (("g", s) ∷ [])
unfolding find_by_game_id lookup
one_session s q v game_id t e = elim (text_cases "g" game_id) [
  | inl (p, b) ↦
      let same : some s ≡ some t = rw b at e in let st : s ≡ t = cc in rw (← st) (q ∙ p, v)
  | inr (n, b) ↦
      let never : ◌≡◌ {A = Option GameSession} none (some t) = rw b at e in absurd (ground arith)
]

found_g : find_by_game_id "g" (("g", night_game) ∷ []) ≡ some night_game
unfolding find_by_game_id lookup
found_g = refl

change_phase-HasChanged_example :
    HasChanged env "g" "r" none 7 night_game
      (world night_game)
      (change_phase env "g" none "r" 7 (world night_game))
change_phase-HasChanged_example =
    change_phase-HasChanged env "g" "r" none 7 (world night_game) night_game
      (one_session night_game refl night_game-IsValid) found_g refl
