-- ===== src/Commands/Dispatch.antt =====
-- apps/api/src/game-commands/game-command.service.ts: `handleCommand`, which hands a command to the
-- handler for its type.
use mafia_casefile.Prelude.{ℕ, Option, [], ◌==◌, if◌then◌else◌}
use mafia_casefile.Shared.{Env}
use mafia_casefile.Session.Operations.{mafia_key, doctor_key, police_key}
use mafia_casefile.World.{World}
use mafia_casefile.Commands.{GameCommandUser, GameCommandEnvelope, GameCommandResult, accepted}
use mafia_casefile.Commands.RoomCommands.{handle_join_room, handle_leave_room, handle_change_ready}
use mafia_casefile.Commands.StartGame.{handle_start_game}
use mafia_casefile.Commands.Phases.{handle_next_phase}
use mafia_casefile.Commands.Play.{handle_cast_vote, handle_night_target_command}
use mafia_casefile.Commands.Chat.{handle_send_chat_message}

-- `seats` and `cards` are what the shuffles of a started game draw. A type that is none of these is
-- accepted without an effect.
unfoldable pub handle_command :
    Env
    → (ℕ → ℕ)
    → (ℕ → ℕ)
    → GameCommandEnvelope
    → Option GameCommandUser
    → ℕ
    → World
    → GameCommandResult × World
handle_command env seats cards c user now w =
    if c.type == "JOIN_ROOM"
    then handle_join_room c user now w
    else if c.type == "LEAVE_ROOM"
    then handle_leave_room c user now w
    else if c.type == "CHANGE_READY"
    then handle_change_ready c user now w
    else if c.type == "START_GAME"
    then handle_start_game env seats cards c user now w
    else if c.type == "NEXT_PHASE"
    then handle_next_phase env c user now w
    else if c.type == "CAST_VOTE"
    then handle_cast_vote env c user now w
    else if c.type == "SELECT_MAFIA_TARGET"
    then handle_night_target_command mafia_key c user now w
    else if c.type == "SELECT_DOCTOR_TARGET"
    then handle_night_target_command doctor_key c user now w
    else if c.type == "SELECT_POLICE_TARGET"
    then handle_night_target_command police_key c user now w
    else if c.type == "SEND_CHAT_MESSAGE"
    then handle_send_chat_message c user now w
    else (accepted c.request_id c.type [], w)
