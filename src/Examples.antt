-- ===== src/Examples.antt =====
-- A small game for the tests: one mafia, a doctor, a police officer and a citizen.
pub mod SessionTests
pub mod SettlingTests
pub mod PhaseTests
pub mod WorldTests
pub mod ChatTests
pub mod EventTests
pub mod RoomTests
pub mod RealtimeTests
pub mod GatewayTests
pub mod WebTests
use mafia_casefile.Prelude.{
  ℕ, ◌≡◌, refl, String, Bool, true, false, Option, none, some, List, [], ◌∷◌, Dict, eqb, lookup,
}
use mafia_casefile.Shared.{
  Env, Role, mafia, citizen, doctor, police, alive, dead, connected, night, day_discussion, voting,
  GamePhase,
}
use mafia_casefile.Session.{GameSession, GameSessionPlayer, GameSessionNightActions, no_actions}
use mafia_casefile.World.{World}

abbrev pub env : Env
env = record { phase_seconds = λ p. none; locale_after = λ a b. false }

abbrev pub player : String → Role → GameSessionPlayer
player id role = record {
  user_id = id;
  nickname = id;
  role = role;
  status = alive;
  connection_status = connected;
  last_seen_at = 0;
}

abbrev pub village : List GameSessionPlayer
village = player "ann" mafia ∷ player "bob" doctor ∷ player "cy" police ∷ player "dee" citizen ∷ []

abbrev pub game : GamePhase → Dict String → GameSessionNightActions → GameSession
game phase votes actions = record {
  game_id = "g";
  room_id = "g";
  phase = phase;
  turn = 0;
  version = 1;
  host_user_id = "ann";
  players = village;
  votes = votes;
  night_actions = actions;
  phase_ends_at = some 60000;
  processed_requests = [];
  created_at = 0;
  updated_at = 0;
}

-- The mafia has chosen the citizen.
abbrev pub night_game : GameSession
night_game =
    game night [] (record { mafia_target = some "dee"; doctor_target = none; police_target = none })

-- Two votes for the mafia, one for the doctor.
abbrev pub voting_game : GameSession
voting_game = game voting (("bob", "ann") ∷ ("cy", "ann") ∷ ("ann", "bob") ∷ []) no_actions

abbrev pub world : GameSession → World
world s = record { sessions = ("g", s) ∷ []; rooms = []; logs = [] }
