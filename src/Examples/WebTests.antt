-- ===== src/Examples/WebTests.antt =====
-- Instances of the theorems on the client's helpers.
use mafia_casefile.Prelude.{
  ◌≡◌, refl, ℕ, Bool, none, String, length, tally, get_elem?, false, trim, some, [], ◌∷◌, lookup,
}
use mafia_casefile.Shared.{mafia, mafia_chat}
use mafia_casefile.Session.{find_player}
use mafia_casefile.Rooms.{RoomParticipant, is_non_empty_string, find_participant, normalize_room}
use mafia_casefile.Rooms.Operations.{find_room_by_id}
use mafia_casefile.World.{World}
use mafia_casefile.Sessions.{find_by_game_id}
use mafia_casefile.Commands.{GameCommandUser}
use mafia_casefile.Commands.Chat.{handle_channel}
use mafia_casefile.Realtime.AvailableActions.{build_for_player}
use mafia_casefile.Web.Chat.{is_channel_allowed}
use mafia_casefile.Web.Chat.Accepted.{is_accepted, is_channel_allowed-is_accepted}
use mafia_casefile.Examples.{night_game, player}
use mafia_casefile.Web.Timeline.{
  other, TimelineEvent, parse_timeline_response, sort_timeline_events,
}
use mafia_casefile.Web.Timeline.Reads.{
  response_of, IsSorted, parse_timeline_response-response_of, sort_timeline_events-IsSorted,
}
use mafia_casefile.Web.PlayUi.{build_lobby_seats}
use mafia_casefile.Web.PlayUi.Seats.{is_user, is_seat_of, build_lobby_seats-seated}
use mafia_casefile.Examples.RoomTests.{den, den-IsSeated}
use mafia_casefile.Examples.WorldTests.{command, room_of}

abbrev night_world : World
night_world = record { sessions = ("g", night_game) ∷ []; rooms = ("g", room_of) ∷ []; logs = [] }

abbrev ann : GameCommandUser
ann = record { id = "ann"; email = "ann" }

abbrev seat : RoomParticipant
seat = record { user_id = "ann"; nickname = "ann"; is_ready = false; joined_at = 0 }

-- At night the mafia may write to each other.
is_channel_allowed-is_accepted_example :
    is_channel_allowed mafia_chat (some room_of) (build_for_player night_game "ann")
    ≡ is_accepted
        ((handle_channel mafia_chat (command "SEND_CHAT_MESSAGE" []) ann "hi" 7 night_world).0)
unfolding find_room_by_id is_non_empty_string trim normalize_room find_participant find_by_game_id
    lookup find_player
is_channel_allowed-is_accepted_example =
    is_channel_allowed-is_accepted mafia_chat (command "SEND_CHAT_MESSAGE" []) ann "hi" 7
      night_world room_of seat night_game (player "ann" mafia) refl refl refl refl refl refl refl

-- The lobby of a room of four, as its second participant sees it.
build_lobby_seats-seated_example :
    let seats = build_lobby_seats (some den) "bob" in
    (length seats ≡ den.max_players)
    × ((id : String) → tally (is_seat_of id) seats ≡ tally (is_user id) den.participants)
    × ((p : RoomParticipant)
        → find_participant "bob" den.participants ≡ some p
        → get_elem? seats 0 ≡ some (some p))
build_lobby_seats-seated_example = build_lobby_seats-seated den "bob" den-IsSeated

abbrev event_of : ℕ → TimelineEvent
event_of n = record {
  id = "e";
  game_id = "g";
  seq = n;
  type = "GameStarted";
  turn = 0;
  phase = "WAITING";
  actor_user_id = some "ann";
  payload = some other;
  visibility_during_game = "PUBLIC";
  visibility_after_game = "PUBLIC";
  request_id = none;
  created_at = "now";
}

parse_timeline_response-response_of_example :
    parse_timeline_response (response_of "g" ((event_of 1, other) ∷ []))
    ≡ some (record { game_id = "g"; events = event_of 1 ∷ [] })
parse_timeline_response-response_of_example =
    parse_timeline_response-response_of "g" ((event_of 1, other) ∷ [])

sort_timeline_events-IsSorted_example :
    IsSorted (sort_timeline_events (event_of 2 ∷ event_of 1 ∷ []))
    × ((p : TimelineEvent → Bool)
        → tally p (sort_timeline_events (event_of 2 ∷ event_of 1 ∷ []))
          ≡ tally p (event_of 2 ∷ event_of 1 ∷ []))
sort_timeline_events-IsSorted_example = sort_timeline_events-IsSorted (event_of 2 ∷ event_of 1 ∷ [])
