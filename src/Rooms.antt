-- ===== src/Rooms.antt =====
-- apps/api/src/rooms/rooms.service.ts over the repository of in-memory-room.repository.ts: the store
-- maps room ids to rooms, and each method saves at most once, at its end.
pub mod Operations
pub mod Laws
pub mod Reachable
use mafia_casefile.Prelude.{
  ℕ, String, Bool, not, Option, none, some, List, [], ◌∷◌, Dict, lookup, insert, trim, length, ◌==◌,
  if◌then◌else◌,
}

pub data RoomStatus : Type 0 where
  waiting in_progress finished : RoomStatus

abbrev pub status_eq : RoomStatus → RoomStatus → Bool
status_eq waiting waiting = Bool.true
status_eq in_progress in_progress = Bool.true
status_eq finished finished = Bool.true
status_eq _ _ = Bool.false

pub record RoomParticipant : Type 0 where
  pub user_id : String
  pub nickname : String
  pub is_ready : Bool
  pub joined_at : ℕ

pub record Room : Type 0 where
  pub room_id : String
  pub name : String
  pub host_user_id : String
  pub status : RoomStatus
  pub player_count : ℕ
  pub max_players : ℕ
  pub participants : List RoomParticipant
  pub created_at : ℕ
  pub updated_at : ℕ

unfoldable pub is_non_empty_string : String → Bool
is_non_empty_string value = not (trim value == "")

unfoldable pub normalize_room : Room → Room
normalize_room room = record room { player_count = length room.participants }

-- `participants.find((current) => current.userId === userId)`
unfoldable pub find_participant : String → List RoomParticipant → Option RoomParticipant
find_participant id [] = none
find_participant id (p ∷ ps) = if p.user_id == id then some p else find_participant id ps

-- The repository's `save`.
unfoldable pub save_room : Room → Dict Room → Dict Room
save_room room rooms = insert room.room_id room rooms
