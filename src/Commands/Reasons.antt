-- ===== src/Commands/Reasons.antt =====
-- apps/api/src/game-commands/game-command.errors.ts: the names of the reasons, and their messages.
use mafia_casefile.Prelude.{◌≡◌, refl, String, List, [], ◌∷◌, ◌==◌, if◌then◌else◌}
use mafia_casefile.Commands.{
  CommandRejectReason, invalid_command_envelope, unauthorized, duplicate_request_in_progress,
  game_lock_busy, invalid_room_command, room_not_found, room_full, room_not_joinable,
  room_command_failed, participant_not_found, not_room_host, room_too_small, room_not_ready,
  room_not_startable, game_session_not_found, game_not_in_progress, game_already_finished,
  game_not_in_voting, game_not_in_night, player_not_in_game, player_not_alive, player_not_dead,
  target_player_not_found, target_player_not_alive, target_self_not_allowed, vote_already_cast,
  role_not_allowed, chat_not_allowed_in_current_phase, invalid_chat_command, invalid_chat_channel,
  invalid_chat_message, chat_message_too_long,
}

-- The string that a reason is.
abbrev pub reason_name : CommandRejectReason → String
reason_name invalid_command_envelope = "INVALID_COMMAND_ENVELOPE"
reason_name unauthorized = "UNAUTHORIZED"
reason_name duplicate_request_in_progress = "DUPLICATE_REQUEST_IN_PROGRESS"
reason_name game_lock_busy = "GAME_LOCK_BUSY"
reason_name invalid_room_command = "INVALID_ROOM_COMMAND"
reason_name room_not_found = "ROOM_NOT_FOUND"
reason_name room_full = "ROOM_FULL"
reason_name room_not_joinable = "ROOM_NOT_JOINABLE"
reason_name room_command_failed = "ROOM_COMMAND_FAILED"
reason_name participant_not_found = "PARTICIPANT_NOT_FOUND"
reason_name not_room_host = "NOT_ROOM_HOST"
reason_name room_too_small = "ROOM_TOO_SMALL"
reason_name room_not_ready = "ROOM_NOT_READY"
reason_name room_not_startable = "ROOM_NOT_STARTABLE"
reason_name game_session_not_found = "GAME_SESSION_NOT_FOUND"
reason_name game_not_in_progress = "GAME_NOT_IN_PROGRESS"
reason_name game_already_finished = "GAME_ALREADY_FINISHED"
reason_name game_not_in_voting = "GAME_NOT_IN_VOTING"
reason_name game_not_in_night = "GAME_NOT_IN_NIGHT"
reason_name player_not_in_game = "PLAYER_NOT_IN_GAME"
reason_name player_not_alive = "PLAYER_NOT_ALIVE"
reason_name player_not_dead = "PLAYER_NOT_DEAD"
reason_name target_player_not_found = "TARGET_PLAYER_NOT_FOUND"
reason_name target_player_not_alive = "TARGET_PLAYER_NOT_ALIVE"
reason_name target_self_not_allowed = "TARGET_SELF_NOT_ALLOWED"
reason_name vote_already_cast = "VOTE_ALREADY_CAST"
reason_name role_not_allowed = "ROLE_NOT_ALLOWED"
reason_name chat_not_allowed_in_current_phase = "CHAT_NOT_ALLOWED_IN_CURRENT_PHASE"
reason_name invalid_chat_command = "INVALID_CHAT_COMMAND"
reason_name invalid_chat_channel = "INVALID_CHAT_CHANNEL"
reason_name invalid_chat_message = "INVALID_CHAT_MESSAGE"
reason_name chat_message_too_long = "CHAT_MESSAGE_TOO_LONG"

-- `COMMAND_REJECT_REASONS`
abbrev pub command_reject_reasons : List CommandRejectReason
command_reject_reasons =
    invalid_command_envelope ∷ unauthorized ∷ duplicate_request_in_progress ∷ game_lock_busy
    ∷ invalid_room_command ∷ room_not_found ∷ room_full ∷ room_not_joinable ∷ room_command_failed
    ∷ participant_not_found ∷ not_room_host ∷ room_too_small ∷ room_not_ready ∷ room_not_startable
    ∷ game_session_not_found ∷ game_not_in_progress ∷ game_already_finished ∷ game_not_in_voting
    ∷ game_not_in_night ∷ player_not_in_game ∷ player_not_alive ∷ player_not_dead
    ∷ target_player_not_found ∷ target_player_not_alive ∷ target_self_not_allowed
    ∷ vote_already_cast ∷ role_not_allowed ∷ chat_not_allowed_in_current_phase
    ∷ invalid_chat_command ∷ invalid_chat_channel ∷ invalid_chat_message ∷ chat_message_too_long
    ∷ []

-- `COMMAND_REJECT_MESSAGES`, by `getCommandRejectMessage`
abbrev pub get_command_reject_message : CommandRejectReason → String
get_command_reject_message invalid_command_envelope = "Command envelope is invalid."
get_command_reject_message unauthorized = "Socket user is missing."
get_command_reject_message duplicate_request_in_progress =
    "Duplicate request is already processing."
get_command_reject_message game_lock_busy = "Game command is busy. Retry later."
get_command_reject_message invalid_room_command = "Room command payload is invalid."
get_command_reject_message room_not_found = "room not found"
get_command_reject_message room_full = "room is full"
get_command_reject_message room_not_joinable = "room is not joinable"
get_command_reject_message room_command_failed = "Room command failed."
get_command_reject_message participant_not_found = "participant not found"
get_command_reject_message not_room_host = "only host can start game"
get_command_reject_message room_too_small = "room needs at least 4 players"
get_command_reject_message room_not_ready = "not all participants are ready"
get_command_reject_message room_not_startable = "room is not startable"
get_command_reject_message game_session_not_found = "game session not found"
get_command_reject_message game_not_in_progress = "game session is not in progress"
get_command_reject_message game_already_finished = "game is finished"
get_command_reject_message game_not_in_voting = "votes are only allowed during VOTING"
get_command_reject_message game_not_in_night = "night actions are only allowed during NIGHT"
get_command_reject_message player_not_in_game = "player not found in game session"
get_command_reject_message player_not_alive = "player is not alive"
get_command_reject_message player_not_dead = "player is not dead"
get_command_reject_message target_player_not_found = "target player not found"
get_command_reject_message target_player_not_alive = "target player is not alive"
get_command_reject_message target_self_not_allowed = "target self is not allowed"
get_command_reject_message vote_already_cast = "vote already cast"
get_command_reject_message role_not_allowed = "role not allowed"
get_command_reject_message chat_not_allowed_in_current_phase =
    "chat is not allowed in current phase"
get_command_reject_message invalid_chat_command = "Chat command payload is invalid."
get_command_reject_message invalid_chat_channel = "chat channel is invalid."
get_command_reject_message invalid_chat_message = "chat message is required"
get_command_reject_message chat_message_too_long = "chat message is too long"

-- The first of some reasons with this name.
named : String → List CommandRejectReason → CommandRejectReason
named value [] = room_command_failed
named value (r ∷ rs) = let rest = named value rs in if reason_name r == value then r else rest

-- `normalizeCommandRejectReason` of a string
unfoldable pub normalize_command_reject_reason : String → CommandRejectReason
unfolding named
normalize_command_reject_reason value = named value command_reject_reasons

-- A reason that is stored by its name is read back as it was.
pub normalize-reason_name :
    (r : CommandRejectReason) → normalize_command_reject_reason (reason_name r) ≡ r
unfolding normalize_command_reject_reason
normalize-reason_name invalid_command_envelope = refl
normalize-reason_name unauthorized = refl
normalize-reason_name duplicate_request_in_progress = refl
normalize-reason_name game_lock_busy = refl
normalize-reason_name invalid_room_command = refl
normalize-reason_name room_not_found = refl
normalize-reason_name room_full = refl
normalize-reason_name room_not_joinable = refl
normalize-reason_name room_command_failed = refl
normalize-reason_name participant_not_found = refl
normalize-reason_name not_room_host = refl
normalize-reason_name room_too_small = refl
normalize-reason_name room_not_ready = refl
normalize-reason_name room_not_startable = refl
normalize-reason_name game_session_not_found = refl
normalize-reason_name game_not_in_progress = refl
normalize-reason_name game_already_finished = refl
normalize-reason_name game_not_in_voting = refl
normalize-reason_name game_not_in_night = refl
normalize-reason_name player_not_in_game = refl
normalize-reason_name player_not_alive = refl
normalize-reason_name player_not_dead = refl
normalize-reason_name target_player_not_found = refl
normalize-reason_name target_player_not_alive = refl
normalize-reason_name target_self_not_allowed = refl
normalize-reason_name vote_already_cast = refl
normalize-reason_name role_not_allowed = refl
normalize-reason_name chat_not_allowed_in_current_phase = refl
normalize-reason_name invalid_chat_command = refl
normalize-reason_name invalid_chat_channel = refl
normalize-reason_name invalid_chat_message = refl
normalize-reason_name chat_message_too_long = refl
