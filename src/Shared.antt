-- ===== src/Shared.antt =====
-- The types of packages/shared/src (game.ts, socket.ts) that the server computes with, and the
-- settings that it takes from its surroundings.
use mafia_casefile.Prelude.{ℕ, String, Bool, true, false, Option}

pub data GamePhase : Type 0 where
  waiting night day_discussion voting result finished : GamePhase

pub data Role : Type 0 where
  mafia citizen doctor police : Role

pub data PlayerStatus : Type 0 where
  alive dead : PlayerStatus

pub data ConnectionStatus : Type 0 where
  connected disconnected : ConnectionStatus

pub data ChatChannel : Type 0 where
  lobby_chat day_chat mafia_chat ghost_chat system_chat : ChatChannel

-- `===` on the values of each union of literals.
abbrev pub phase_eq : GamePhase → GamePhase → Bool
phase_eq waiting waiting = true
phase_eq night night = true
phase_eq day_discussion day_discussion = true
phase_eq voting voting = true
phase_eq result result = true
phase_eq finished finished = true
phase_eq _ _ = false

abbrev pub role_eq : Role → Role → Bool
role_eq mafia mafia = true
role_eq citizen citizen = true
role_eq doctor doctor = true
role_eq police police = true
role_eq _ _ = false

abbrev pub channel_eq : ChatChannel → ChatChannel → Bool
channel_eq lobby_chat lobby_chat = true
channel_eq day_chat day_chat = true
channel_eq mafia_chat mafia_chat = true
channel_eq ghost_chat ghost_chat = true
channel_eq system_chat system_chat = true
channel_eq _ _ = false

abbrev pub is_alive : PlayerStatus → Bool
is_alive alive = true
is_alive dead = false

abbrev pub is_disconnected : ConnectionStatus → Bool
is_disconnected connected = false
is_disconnected disconnected = true

-- What the server takes from outside: the duration of a phase in its environment variable, where
-- that is set to a finite number, and the order of `localeCompare` (does the first come after?).
pub record Env : Type 0 where
  pub phase_seconds : GamePhase → Option ℕ
  pub locale_after : String → String → Bool
