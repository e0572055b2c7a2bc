-- ===== src/Commands.antt =====
-- apps/api/src/game-commands: commands, their results and effects (game-command.types.ts,
-- game-command.errors.ts, and the events of packages/shared/src/socket.ts). The handlers of
-- game-command.service.ts are in the modules below.
pub mod Reasons
pub mod RoomCommands
pub mod Roles
pub mod StartGame
pub mod Phases
pub mod Play
pub mod Chat
pub mod Dispatch
pub mod Keeping
pub mod Reachable
pub mod Echo
use mafia_casefile.Prelude.{
  ℕ, String, Bool, Option, none, some, List, Dict, lookup, ◌==◌, if◌then◌else◌,
}
use mafia_casefile.Prelude.Results.{Result, ok, err}
use mafia_casefile.Shared.{GamePhase, Role, ChatChannel}
use mafia_casefile.Session.Players.{WinnerTeam}
use mafia_casefile.Session.Tally.{VoteTallyEntry}
use mafia_casefile.Rooms.{Room}
use mafia_casefile.World.{World, Action}

pub data CommandRejectReason : Type 0 where
  invalid_command_envelope unauthorized duplicate_request_in_progress : CommandRejectReason
  game_lock_busy invalid_room_command room_not_found room_full : CommandRejectReason
  room_not_joinable room_command_failed participant_not_found not_room_host : CommandRejectReason
  room_too_small room_not_ready room_not_startable game_session_not_found : CommandRejectReason
  game_not_in_progress game_already_finished game_not_in_voting : CommandRejectReason
  game_not_in_night player_not_in_game player_not_alive player_not_dead : CommandRejectReason
  target_player_not_found target_player_not_alive target_self_not_allowed : CommandRejectReason
  vote_already_cast role_not_allowed chat_not_allowed_in_current_phase : CommandRejectReason
  invalid_chat_command invalid_chat_channel invalid_chat_message : CommandRejectReason
  chat_message_too_long : CommandRejectReason

pub record GameCommandUser : Type 0 where
  pub id : String
  pub email : String

-- What a handler can tell of a payload: whether it is an object, and of a field whether it is a
-- string, a boolean, or anything else.
pub data Field : Type 0 where
  text : String → Field
  flag : Bool → Field
  other : Field

pub data Payload : Type 0 where
  not_object : Payload
  object : Dict Field → Payload

pub record GameCommandEnvelope : Type 0 where
  pub request_id : String
  pub game_id : String
  pub type : String
  pub payload : Payload

pub record ChatMessageEvent : Type 0 where
  pub game_id : String
  pub channel : ChatChannel
  pub message : String
  pub sender_user_id : String
  pub sent_at : ℕ

-- The payloads of the socket events, with the constructor for the event's name. A `gameId` that
-- repeats the effect's room is left out.
pub data ServerEvent : Type 0 where
  room_updated : Room → ServerEvent
  game_started : String → ℕ → Option ℕ → ServerEvent
  role_assigned : String → Role → ServerEvent
  phase_changed : GamePhase → GamePhase → ℕ → Option String → Option ℕ → ℕ → ServerEvent
  night_resolved : ℕ → Option String → Option String → Option String → ℕ → ServerEvent
  voting_resolved : ℕ → Option String → List VoteTallyEntry → ℕ → ServerEvent
  game_finished : WinnerTeam → ℕ → ServerEvent
  investigation_result : String → Role → ℕ → ServerEvent
  chat_message : ChatMessageEvent → ServerEvent

pub data GameCommandEffect : Type 0 where
  join_room : String → GameCommandEffect
  leave_room : String → GameCommandEffect
  broadcast : String → ServerEvent → GameCommandEffect
  private_event : String → ServerEvent → GameCommandEffect

pub data GameCommandResult : Type 0 where
  accepted : String → String → List GameCommandEffect → GameCommandResult
  rejected : String → CommandRejectReason → String → GameCommandResult

-- The `try … catch` of a handler: the effects of a command that went through, or the error's
-- message with the reason that the handler finds for it.
unfoldable pub answer :
    GameCommandEnvelope
    → (String → CommandRejectReason)
    → Action (List GameCommandEffect)
    → World
    → GameCommandResult × World
answer c reason_of m w =
    let (r, w') = m w in
    elim r [
      | ok effects ↦ (accepted c.request_id c.type effects, w')
      | err message ↦ (rejected c.request_id (reason_of message) message, w')
    ]
