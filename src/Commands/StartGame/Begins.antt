-- ===== src/Commands/StartGame/Begins.antt =====
-- The session that a started game begins with: every participant plays, the roles are dealt fairly,
-- and the game is not decided yet.
use mafia_casefile.Prelude.{
  ℕ, ◌+◌, ◌≤◌, ◌≡◌, refl, ◌∙◌, String, none, List, [], ◌∷◌, arith, length, length-keep, tally, All,
  map, ◌==◌, eq_self,
}
use mafia_casefile.Shared.{Env, mafia}
use mafia_casefile.Session.{GameSessionPlayer, find_player}
use mafia_casefile.Session.Players.{
  create_game_session_player, is_mafia_alive, is_other_alive, evaluate_winner,
}
use mafia_casefile.Session.Operations.{StartGameSessionInput, start_session}
use mafia_casefile.Session.Lives.{Distinct, IsNamed}
use mafia_casefile.Session.Invariant.{IsValid}
use mafia_casefile.Rooms.{Room, RoomParticipant}
use mafia_casefile.Rooms.Laws.{IsSeated, seated}
use mafia_casefile.Commands.Roles.{RoleAssignment, build_role_assignments}
use mafia_casefile.Commands.Roles.Deals.{IsDeal, dealt, dealt_to, build_role_assignments-IsDeal}
use mafia_casefile.Commands.StartGame.{players_from}

-- How many players have this id.
abbrev plays : String → List GameSessionPlayer → ℕ
plays id ps = tally (λ p. p.user_id == id) ps

plays-find_player :
    (id : String) (ps : List GameSessionPlayer) → plays id ps ≡ 0 → find_player id ps ≡ none
unfolding find_player
plays-find_player id [] e = refl
plays-find_player id (p ∷ ps) e = ground (arith, plays-find_player id ps)

plays-Distinct : (ps : List GameSessionPlayer) → ((id : String) → plays id ps ≤ 1) → Distinct ps
plays-Distinct [] h = tt
plays-Distinct (p ∷ ps) h = (
  plays-find_player p.user_id ps (ground (arith, h p.user_id, eq_self p.user_id)),
  plays-Distinct ps (λ id. ground (arith, h id)),
)

plays-IsNamed : (ps : List GameSessionPlayer) → plays "" ps ≡ 0 → All IsNamed ps
plays-IsNamed [] e = tt
plays-IsNamed (p ∷ ps) e = (ground arith, plays-IsNamed ps (ground arith))

-- The players that some assignments make.
module _ (participants : List RoomParticipant) (now : ℕ) where
  abbrev pub players_of : List RoleAssignment → ℕ → List GameSessionPlayer
  players_of cards index =
      map (λ p. create_game_session_player p now) (players_from participants cards index)

  plays-players_of :
      (id : String) (cards : List RoleAssignment) (index : ℕ)
      → plays id (players_of cards index) ≡ dealt_to id cards
  unfolding players_from create_game_session_player
  plays-players_of id [] index = refl
  plays-players_of id (a ∷ cards) index = ground (arith, plays-players_of id cards (index + 1))

  mafia-players_of :
      (cards : List RoleAssignment) (index : ℕ)
      → tally is_mafia_alive (players_of cards index) ≡ dealt mafia cards
  unfolding players_from create_game_session_player
  mafia-players_of [] index = refl
  mafia-players_of (a ∷ cards) index = ground (arith, mafia-players_of cards (index + 1))

  others-players_of :
      (cards : List RoleAssignment) (index : ℕ)
      → tally is_other_alive (players_of cards index) + dealt mafia cards ≡ length cards
  unfolding players_from create_game_session_player
  others-players_of [] index = refl
  others-players_of (a ∷ cards) index = ground (arith, others-players_of cards (index + 1))

  evaluate_winner-players_of :
      (cards : List RoleAssignment)
      → dealt mafia cards ≡ 1
      → 4 ≤ length cards
      → evaluate_winner (players_of cards 0) ≡ none
  unfolding evaluate_winner
  evaluate_winner-players_of cards one four = ground (
    arith,
    length-keep is_mafia_alive (players_of cards 0),
    length-keep is_other_alive (players_of cards 0),
    mafia-players_of cards 0,
    others-players_of cards 0,
  )

-- What `handleStartGame` passes to `startGameSession`.
abbrev pub begin_input :
    (ℕ → ℕ) → (ℕ → ℕ) → String → String → List RoomParticipant → ℕ → StartGameSessionInput
begin_input seats cards game_id user_id participants now = record {
  game_id = game_id;
  room_id = game_id;
  host_user_id = user_id;
  players = players_from participants (build_role_assignments seats cards participants) 0;
  started_at = now;
}

-- A game that starts with at least four participants, seated once each under proper ids, has a valid
-- session whatever is drawn: in particular neither team has won.
pub start_session-IsValid :
    (env : Env) (seats cards : ℕ → ℕ) (game_id user_id : String) (now : ℕ) (r : Room)
    → IsSeated r
    → 4 ≤ length r.participants
    → IsValid (start_session env (begin_input seats cards game_id user_id r.participants now))
unfolding start_session
start_session-IsValid env seats cards game_id user_id now r h four = record {
  distinct = plays-Distinct players (λ id. omega (arith, plays_seated id, h.once id));
  named = plays-IsNamed players (plays_seated "" ∙ h.named);
  ballots_live = tt;
  mafia_target_lives = refl;
  doctor_target_lives = refl;
  police_target_lives = refl;
  votes_while_voting = λ _. refl;
  actions_at_night = λ _. refl;
  finished_when_won =
      rw
        (evaluate_winner-players_of r.participants now hands deal.one_mafia
          (omega (arith, deal.to_all, four)))
        refl;
}
  where
    hands : List RoleAssignment
    hands = build_role_assignments seats cards r.participants

    deal : IsDeal r.participants hands
    deal = build_role_assignments-IsDeal seats cards r.participants (omega arith)

    players : List GameSessionPlayer
    players = players_of r.participants now hands 0

    plays_seated : (id : String) → plays id players ≡ seated id r.participants
    plays_seated id = plays-players_of r.participants now id hands 0 ∙ deal.to_each id
