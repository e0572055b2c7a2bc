-- ===== src/Session/Players.antt =====
-- The helpers of apps/api/src/game-session/game-session.service.ts on the players of a session:
-- look-ups, deaths, connections, and which team has won.
use mafia_casefile.Prelude.{
  ℕ, zero, suc, ◌+◌, String, Bool, not, ◌&&◌, Option, none, some, List, [], ◌∷◌, map, keep, length,
  ◌==◌, eqb, leb, if◌then◌else◌, Dict,
}
use mafia_casefile.Shared.{Role, alive, dead, connected, ConnectionStatus, mafia, role_eq, is_alive}
use mafia_casefile.Session.{
  GameSession, GameSessionPlayer, GameSessionNightActions, no_actions, find_player,
}

pub data WinnerTeam : Type 0 where
  mafia_team citizen_team : WinnerTeam

pub record StartGameSessionPlayerInput : Type 0 where
  pub user_id : String
  pub nickname : String
  pub role : Role

unfoldable pub create_game_session_player : StartGameSessionPlayerInput → ℕ → GameSessionPlayer
create_game_session_player p started_at = record {
  user_id = p.user_id;
  nickname = p.nickname;
  role = p.role;
  status = alive;
  connection_status = connected;
  last_seen_at = started_at;
}

-- The private `findPlayer`: an id that is null or empty finds nobody.
unfoldable pub find_player? : GameSession → Option String → Option GameSessionPlayer
find_player? s none = none
find_player? s (some id) = if id == "" then none else find_player id s.players

-- `players.findIndex((player) => player.userId === userId)`
unfoldable pub find_index : String → List GameSessionPlayer → Option ℕ
find_index id [] = none
find_index id (p ∷ ps) =
    if p.user_id == id
    then some 0
    else elim (find_index id ps) [ none ↦ none | some i ↦ some (suc i) ]

-- `players.map((player, index) => index === playerIndex ? {...player, …} : player)`
unfoldable pub set_connection :
    ℕ → ConnectionStatus → ℕ → List GameSessionPlayer → List GameSessionPlayer
set_connection i c now [] = []
set_connection zero c now (p ∷ ps) = record p { connection_status = c; last_seen_at = now } ∷ ps
set_connection (suc i) c now (p ∷ ps) = p ∷ set_connection i c now ps

abbrev pub kill : String → ℕ → GameSessionPlayer → GameSessionPlayer
kill target now p =
    if p.user_id == target then record p { status = dead; last_seen_at = now } else p

unfoldable pub kill_player : String → ℕ → List GameSessionPlayer → List GameSessionPlayer
kill_player target now ps = map (kill target now) ps

-- `applyPlayerDeath`, with the patch that each of its two callers gives.
unfoldable pub apply_player_death :
    GameSession → String → Option (Dict String) → Option GameSessionNightActions → ℕ → GameSession
apply_player_death s target votes actions now = record s {
  players = kill_player target now s.players;
  votes = elim votes [ none ↦ s.votes | some v ↦ v ];
  night_actions = elim actions [ none ↦ s.night_actions | some a ↦ a ];
  version = s.version + 1;
  updated_at = now;
}

unfoldable pub clear_votes : GameSession → ℕ → GameSession
clear_votes s now = record s { votes = []; version = s.version + 1; updated_at = now }

unfoldable pub clear_night_actions : GameSession → ℕ → GameSession
clear_night_actions s now = record s {
  night_actions = no_actions;
  version = s.version + 1;
  updated_at = now;
}

abbrev pub is_mafia_alive : GameSessionPlayer → Bool
is_mafia_alive p = is_alive p.status && role_eq p.role mafia

abbrev pub is_other_alive : GameSessionPlayer → Bool
is_other_alive p = is_alive p.status && not (role_eq p.role mafia)

unfoldable pub evaluate_winner : List GameSessionPlayer → Option WinnerTeam
evaluate_winner players =
    let mafia_alive = length (keep is_mafia_alive players) in
    let non_mafia_alive = length (keep is_other_alive players) in
    if eqb mafia_alive 0
    then some citizen_team
    else if leb non_mafia_alive mafia_alive
    then some mafia_team
    else none
