-- ===== src/Rooms/Operations.antt =====
-- The methods of `RoomsService`. Ids that the handlers have checked to be strings are strings.
use mafia_casefile.Prelude.{
  ℕ, String, Bool, false, not, Option, none, some, List, [], ◌∷◌, ◌++◌, Dict, lookup, any, trim,
  length, ◌==◌, ltb, leb, if◌then◌else◌,
}
use mafia_casefile.Prelude.Results.{Result, ok, err, or_throw, throw_if, ◌>>=◌, ◌>>◌}
use mafia_casefile.Rooms.{
  Room, RoomStatus, RoomParticipant, status_eq, is_non_empty_string, normalize_room,
  find_participant, save_room,
}

-- What a request may hold where `maxPlayers` stands.
pub data MaxPlayersInput : Type 0 where
  undefined not_number not_integer negative : MaxPlayersInput
  integer : ℕ → MaxPlayersInput

abbrev pub max_players_of : MaxPlayersInput → Result ℕ
max_players_of undefined = ok 8
max_players_of not_number = err "maxPlayers must be a number"
max_players_of not_integer = err "maxPlayers must be an integer of at least 2"
max_players_of negative = err "maxPlayers must be an integer of at least 2"
max_players_of (integer n) = do
  throw_if (ltb n 2) "maxPlayers must be an integer of at least 2"
  ok n

abbrev room_name : Option String → String
room_name none = "새 방"
room_name (some name) = if is_non_empty_string name then trim name else "새 방"

-- The room of a host who has just created it. `uuid` is what `randomUUID()` returned.
abbrev pub new_room : String → Option String → ℕ → String → ℕ → Room
new_room host_user_id name max_players uuid now = record {
  room_id = uuid;
  name = room_name name;
  host_user_id = trim host_user_id;
  status = RoomStatus.waiting;
  player_count = 1;
  max_players = max_players;
  participants =
      record {
        user_id = trim host_user_id;
        nickname = trim host_user_id;
        is_ready = false;
        joined_at = now;
      }
      ∷ [];
  created_at = now;
  updated_at = now;
}

-- A host id that is no string is `none`.
unfoldable pub create_room :
    Option String
    → Option String
    → MaxPlayersInput
    → String
    → ℕ
    → Dict Room
    → Result (Room × Dict Room)
create_room host name max_players uuid now rooms = do
  host_user_id ← or_throw host "hostUserId is required"
  throw_if (not (is_non_empty_string host_user_id)) "hostUserId is required"
  max ← max_players_of max_players
  let room = normalize_room (new_room host_user_id name max uuid now)
  ok (room, save_room room rooms)

unfoldable pub find_room_by_id : String → Dict Room → Option Room
find_room_by_id room_id rooms =
    if is_non_empty_string room_id
    then elim (lookup room_id rooms) [ none ↦ none | some room ↦ some (normalize_room room) ]
    else none

-- `room.participants[existingIndex] = {...room.participants[existingIndex], nickname}`
unfoldable pub rename : String → String → List RoomParticipant → List RoomParticipant
rename id nickname [] = []
rename id nickname (p ∷ ps) =
    if p.user_id == id then record p { nickname = nickname } ∷ ps else p ∷ rename id nickname ps

unfoldable pub join : String → String → ℕ → Room → Result Room
join user_id nickname now room = do
  throw_if (not (status_eq room.status RoomStatus.waiting)) "room is not joinable"
  let id = trim user_id
  elim (find_participant id room.participants) [
    | some p ↦ ok (record room {
      participants = rename id (trim nickname) room.participants;
      updated_at = now;
    })
    | none ↦ do
      throw_if (leb room.max_players (length room.participants)) "room is full"
      ok (record room {
        participants =
            room.participants
            ++ (record {
              user_id = id;
              nickname = trim nickname;
              is_ready = false;
              joined_at = now;
            })
              ∷ [];
        updated_at = now;
      })
  ]

unfoldable pub join_room : String → String → String → ℕ → Dict Room → Result (Room × Dict Room)
join_room room_id user_id nickname now rooms = do
  throw_if (not (is_non_empty_string room_id)) "roomId is required"
  throw_if (not (is_non_empty_string user_id)) "userId is required"
  throw_if (not (is_non_empty_string nickname)) "nickname is required"
  room ← or_throw (lookup room_id rooms) "room not found"
  joined ← join user_id nickname now room
  let snapshot = normalize_room joined
  ok (snapshot, save_room snapshot rooms)

unfoldable pub start : String → ℕ → Room → Result Room
start user_id now room = do
  throw_if (not (status_eq room.status RoomStatus.waiting)) "room is not startable"
  throw_if (not (room.host_user_id == trim user_id)) "only host can start game"
  throw_if (ltb (length room.participants) 4) "room needs at least 4 players"
  throw_if (any (λ p. not p.is_ready) room.participants) "not all participants are ready"
  ok (record room { status = RoomStatus.in_progress; updated_at = now })

unfoldable pub start_game : String → String → ℕ → Dict Room → Result (Room × Dict Room)
start_game room_id user_id now rooms = do
  throw_if (not (is_non_empty_string room_id)) "roomId is required"
  throw_if (not (is_non_empty_string user_id)) "userId is required"
  room ← or_throw (lookup room_id rooms) "room not found"
  started ← start user_id now room
  let snapshot = normalize_room started
  ok (snapshot, save_room snapshot rooms)

unfoldable pub assert_can_advance_phase : String → String → Dict Room → Result Room
assert_can_advance_phase room_id user_id rooms = do
  throw_if (not (is_non_empty_string room_id)) "roomId is required"
  throw_if (not (is_non_empty_string user_id)) "userId is required"
  room ← or_throw (lookup room_id rooms) "room not found"
  throw_if (not (room.host_user_id == trim user_id)) "not room host"
  throw_if (not (status_eq room.status RoomStatus.in_progress)) "room is not in progress"
  ok (normalize_room room)

-- `participant.isReady = isReady` on the participant found
unfoldable pub set_ready : String → Bool → List RoomParticipant → List RoomParticipant
set_ready id is_ready [] = []
set_ready id is_ready (p ∷ ps) =
    if p.user_id == id then record p { is_ready = is_ready } ∷ ps else p ∷ set_ready id is_ready ps

unfoldable pub ready : String → Bool → ℕ → Room → Result Room
ready user_id is_ready now room = do
  throw_if (not (status_eq room.status RoomStatus.waiting)) "room is not joinable"
  p ← or_throw (find_participant (trim user_id) room.participants) "participant not found"
  ok (record room {
    participants = set_ready (trim user_id) is_ready room.participants;
    updated_at = now;
  })

unfoldable pub change_ready : String → String → Bool → ℕ → Dict Room → Result (Room × Dict Room)
change_ready room_id user_id is_ready now rooms = do
  throw_if (not (is_non_empty_string room_id)) "roomId is required"
  throw_if (not (is_non_empty_string user_id)) "userId is required"
  room ← or_throw (lookup room_id rooms) "room not found"
  changed ← ready user_id is_ready now room
  let snapshot = normalize_room changed
  ok (snapshot, save_room snapshot rooms)

-- `room.participants.splice(participantIndex, 1)`
unfoldable pub remove : String → List RoomParticipant → List RoomParticipant
remove id [] = []
remove id (p ∷ ps) = if p.user_id == id then ps else p ∷ remove id ps

unfoldable pub leave : String → ℕ → Room → Result Room
leave user_id now room = do
  p ← or_throw (find_participant (trim user_id) room.participants) "participant not found"
  ok (record room { participants = remove (trim user_id) room.participants; updated_at = now })

unfoldable pub leave_room : String → String → ℕ → Dict Room → Result (Room × Dict Room)
leave_room room_id user_id now rooms = do
  throw_if (not (is_non_empty_string room_id)) "roomId is required"
  throw_if (not (is_non_empty_string user_id)) "userId is required"
  room ← or_throw (lookup room_id rooms) "room not found"
  left ← leave user_id now room
  let snapshot = normalize_room left
  ok (snapshot, save_room snapshot rooms)
