-- ===== src/Web/PlayUi.antt =====
-- apps/web/app/play/lib/play-ui.ts: the actions that ask for a target, and the seats of the lobby.
pub mod Seats
use mafia_casefile.Prelude.{
  ℕ, zero, suc, String, Bool, true, false, not, Option, none, some, List, [], ◌∷◌, keep, ◌==◌,
}
use mafia_casefile.Rooms.{Room, RoomParticipant, find_participant}
use mafia_casefile.Realtime.AvailableActions.{
  AvailableActionType, AvailableAction, cast_vote, select_mafia_target, select_doctor_target,
  select_police_target,
}

abbrev pub is_target_type : AvailableActionType → Bool
is_target_type cast_vote = true
is_target_type select_mafia_target = true
is_target_type select_doctor_target = true
is_target_type select_police_target = true
is_target_type _ = false

unfoldable pub is_target_action : AvailableAction → Bool
is_target_action action = is_target_type action.type

-- `Array.from({ length }, (_, index) => ordered[index] ?? null)`
unfoldable pub seats_from : ℕ → List RoomParticipant → List (Option RoomParticipant)
seats_from zero ordered = []
seats_from (suc n) [] = none ∷ seats_from n []
seats_from (suc n) (p ∷ ps) = some p ∷ seats_from n ps

-- `current ? [current, ...others] : participants`
abbrev pub with_current_first :
    String → Option RoomParticipant → List RoomParticipant → List RoomParticipant
with_current_first current_user_id none participants = participants
with_current_first current_user_id (some current) participants =
    current ∷ keep (λ p. not (p.user_id == current_user_id)) participants

unfoldable pub build_lobby_seats : Option Room → String → List (Option RoomParticipant)
build_lobby_seats none current_user_id = seats_from 4 []
build_lobby_seats (some room) current_user_id = seats_from room.max_players (
    with_current_first current_user_id (find_participant current_user_id room.participants)
      room.participants)
