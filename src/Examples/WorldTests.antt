-- ===== src/Examples/WorldTests.antt =====
-- A game of four that is set up by commands, and instances of the theorems on reachable worlds.
use mafia_casefile.Prelude.{
  ◌≡◌, refl, ℕ, String, true, false, Option, some, [], ◌∷◌, Dict, lookup, insert, trim,
}
use mafia_casefile.Prelude.Results.{ok}
use mafia_casefile.Shared.{mafia, doctor, police, citizen, phase_eq, finished}
use mafia_casefile.Session.Operations.{StartGameSessionInput, start_session}
use mafia_casefile.Rooms.{Room, is_non_empty_string, normalize_room, find_participant, save_room}
use mafia_casefile.Rooms.Operations.{
  undefined, create_room, new_room, join, join_room, ready, change_ready, set_ready, start,
  start_game, rename,
}
use mafia_casefile.World.{World}
use mafia_casefile.Sessions.{find_by_game_id, start_game_session, save}
use mafia_casefile.Commands.{
  GameCommandEnvelope, GameCommandUser, Field, text, flag, object, answer,
}
use mafia_casefile.Commands.RoomCommands.{
  handle_join_room, join_with, join_action, handle_change_ready, ready_with, ready_action,
}
use mafia_casefile.Commands.Roles.{
  shuffle, shuffle_from, swap, set, assign, build_role_assignments, citizens,
}
use mafia_casefile.Commands.StartGame.{
  handle_start_game, start_action, announce_roles, players_from,
}
use mafia_casefile.Commands.Phases.{change_phase}
use mafia_casefile.Commands.Phases.Running.{HasChanged}
use mafia_casefile.Commands.Dispatch.{handle_command}
use mafia_casefile.Commands.Keeping.{WorldValid}
use mafia_casefile.Commands.Reachable.{
  Reachable, begins, steps, commanded, opened, empty_world, handle_command-WorldValid,
  Reachable-WorldValid, Reachable-HasChanged,
}
use mafia_casefile.Examples.{env}

abbrev pub command : String → Dict Field → GameCommandEnvelope
command type fields = record {
  request_id = "r";
  game_id = "g";
  type = type;
  payload = object fields;
}

abbrev pub by : String → Option GameCommandUser
by id = some (record { id = id; email = id })

-- Draws that leave every card where it is.
abbrev pub in_place : ℕ → ℕ
in_place index = index

abbrev pub after : String → Dict Field → String → World → World
after type fields id w = (handle_command env in_place in_place (command type fields) (by id) 1 w).1

abbrev pub room_of : Room
room_of = normalize_room (new_room "ann" (some "den") 8 "g" 0)

abbrev pub opened_world : World
opened_world = record { sessions = []; rooms = ("g", room_of) ∷ []; logs = [] }

opens : create_room (some "ann") (some "den") undefined "g" 0 [] ≡ ok (room_of, ("g", room_of) ∷ [])
unfolding create_room is_non_empty_string trim save_room insert normalize_room
opens = refl

abbrev pub joined_world : World
joined_world = after "JOIN_ROOM" (("nickname", text "dee") ∷ []) "dee" (
    after "JOIN_ROOM" (("nickname", text "cy") ∷ []) "cy"
      (after "JOIN_ROOM" (("nickname", text "bob") ∷ []) "bob" opened_world))

abbrev pub ready_world : World
ready_world = after "CHANGE_READY" (("isReady", flag true) ∷ []) "dee" (
    after "CHANGE_READY" (("isReady", flag true) ∷ []) "cy" (
      after "CHANGE_READY" (("isReady", flag true) ∷ []) "bob"
        (after "CHANGE_READY" (("isReady", flag true) ∷ []) "ann" joined_world)))

abbrev pub started_world : World
started_world = after "START_GAME" [] "ann" ready_world

step_after :
    (type : String) (fields : Dict Field) (id : String) (w : World)
    → Reachable env w
    → Reachable env (after type fields id w)
step_after type fields id w h =
    steps h (commanded in_place in_place (command type fields) (by id) 1 w)

ready_world-Reachable : Reachable env ready_world
ready_world-Reachable = step_after _ _ _ _ (
    step_after _ _ _ _ (
      step_after _ _ _ _ (
        step_after _ _ _ _ (
          step_after _ _ _ _ (
            step_after _ _ _ _ (
              step_after _ _ _ _ (
                steps begins (
                  opened (some "ann") (some "den") undefined "g" 0 room_of empty_world
                    (("g", room_of) ∷ []) opens))))))))

pub started_world-Reachable : Reachable env started_world
started_world-Reachable = step_after _ _ _ _ ready_world-Reachable

Reachable-WorldValid_example : WorldValid started_world
Reachable-WorldValid_example = Reachable-WorldValid env started_world started_world-Reachable

ready_world-WorldValid : WorldValid ready_world
ready_world-WorldValid = Reachable-WorldValid env ready_world ready_world-Reachable

handle_command-WorldValid_example : WorldValid started_world
handle_command-WorldValid_example =
    handle_command-WorldValid env in_place in_place (command "START_GAME" []) (by "ann") 1
      ready_world ready_world-WorldValid

abbrev pub input : StartGameSessionInput
input = record {
  game_id = "g";
  room_id = "g";
  host_user_id = "ann";
  players =
      record { user_id = "ann"; nickname = "ann"; role = mafia }
      ∷ record { user_id = "bob"; nickname = "bob"; role = doctor }
      ∷ record { user_id = "cy"; nickname = "cy"; role = police }
      ∷ record { user_id = "dee"; nickname = "dee"; role = citizen }
      ∷ [];
  started_at = 1;
}

-- The game has begun, with the roles in the order of the seats.
pub begun : find_by_game_id "g" started_world.sessions ≡ some (start_session env input)
unfolding handle_command handle_join_room handle_change_ready handle_start_game join_with ready_with
    join_action ready_action start_action announce_roles players_from answer join join_room ready
    change_ready set_ready start start_game find_participant is_non_empty_string trim normalize_room
    save_room lookup insert shuffle shuffle_from swap set assign build_role_assignments citizens
    start_game_session save find_by_game_id rename start_session
begun = refl

running : phase_eq (start_session env input).phase finished ≡ false
unfolding start_session
running = refl

-- The first night can be ended.
Reachable-HasChanged_example :
    HasChanged env "g" "r"
      (some "ann")
      2
      (start_session env input)
      started_world
      (change_phase env "g" (some "ann") "r" 2 started_world)
Reachable-HasChanged_example =
    Reachable-HasChanged env started_world "g" "r" (some "ann") 2 (start_session env input)
      started_world-Reachable begun running
