-- ===== src/Session.antt =====
-- apps/api/src/game-session/game-session.ts: the state of one game. Dates are milliseconds, and an
-- operation reads the clock once, as its argument `now`.
pub mod StateMachine
pub mod Players
pub mod Tally
pub mod Cycle
pub mod Operations
pub mod Outcomes
pub mod Lives
pub mod Ballots
pub mod Plurality
pub mod Invariant
pub mod Settling
use mafia_casefile.Prelude.{ℕ, String, Option, none, some, List, [], ◌∷◌, Dict, ◌==◌, if◌then◌else◌}
use mafia_casefile.Shared.{GamePhase, Role, PlayerStatus, ConnectionStatus}

pub record GameSessionPlayer : Type 0 where
  pub user_id : String
  pub nickname : String
  pub role : Role
  pub status : PlayerStatus
  pub connection_status : ConnectionStatus
  pub last_seen_at : ℕ

-- A target that is null or not there is `none`.
pub record GameSessionNightActions : Type 0 where
  pub mafia_target : Option String
  pub doctor_target : Option String
  pub police_target : Option String

abbrev pub no_actions : GameSessionNightActions
no_actions = record { mafia_target = none; doctor_target = none; police_target = none }

pub record GameSession : Type 0 where
  pub game_id : String
  pub room_id : String
  pub phase : GamePhase
  pub turn : ℕ
  pub version : ℕ
  pub host_user_id : String
  pub players : List GameSessionPlayer
  pub votes : Dict String
  pub night_actions : GameSessionNightActions
  pub phase_ends_at : Option ℕ
  pub processed_requests : Dict String
  pub created_at : ℕ
  pub updated_at : ℕ

-- `players.find((player) => player.userId === userId)`
unfoldable pub find_player : String → List GameSessionPlayer → Option GameSessionPlayer
find_player id [] = none
find_player id (p ∷ ps) = if p.user_id == id then some p else find_player id ps
