-- ===== src/Commands/Reachable.antt =====
-- The worlds that the server comes to, by commands, timers, rooms created over HTTP, and players who
-- come and go; what holds of all of them.
use mafia_casefile.Prelude.{◌≡◌, arith, ℕ, String, false, Option, some, [], Dict, lookup, ◌==◌}
use mafia_casefile.Prelude.Results.{ok}
use mafia_casefile.Shared.{Env, finished, phase_eq}
use mafia_casefile.Session.{GameSession}
use mafia_casefile.Session.Operations.{mafia_key, doctor_key, police_key}
use mafia_casefile.Rooms.{Room}
use mafia_casefile.Rooms.Operations.{MaxPlayersInput, create_room}
use mafia_casefile.Rooms.Reachable.{created}
use mafia_casefile.World.{World}
use mafia_casefile.Sessions.{find_by_game_id, mark_player_disconnected, mark_player_connected}
use mafia_casefile.Sessions.Laws.{
  mark_player_disconnected-StoreValid, mark_player_connected-StoreValid,
}
use mafia_casefile.Commands.{GameCommandEnvelope, GameCommandUser}
use mafia_casefile.Commands.Phases.{change_phase, advance_phase_automatically}
use mafia_casefile.Commands.Phases.Running.{HasChanged, change_phase-HasChanged}
use mafia_casefile.Commands.Dispatch.{handle_command}
use mafia_casefile.Commands.Keeping.{WorldValid, if-WorldValid, stepped, restored}
use mafia_casefile.Commands.Keeping.Rooms.{
  handle_join_room-WorldValid, handle_leave_room-WorldValid, handle_change_ready-WorldValid,
}
use mafia_casefile.Commands.Keeping.Start.{handle_start_game-WorldValid}
use mafia_casefile.Commands.Keeping.Phases.{
  handle_next_phase-WorldValid, advance_phase_automatically-WorldValid,
}
use mafia_casefile.Commands.Keeping.Play.{
  handle_cast_vote-WorldValid, handle_night_target_command-WorldValid,
}
use mafia_casefile.Commands.Keeping.Chat.{handle_send_chat_message-WorldValid}

-- Every command, of any type, payload and user, keeps all sessions and rooms valid, whatever the
-- shuffles draw and whether it is accepted or rejected.
pub handle_command-WorldValid :
    (env : Env) (seats cards : ℕ → ℕ) (c : GameCommandEnvelope) (user : Option GameCommandUser)
    (now : ℕ) (w : World)
    → WorldValid w
    → WorldValid ((handle_command env seats cards c user now w).1)
unfolding handle_command
handle_command-WorldValid env seats cards c user now w v =
    if-WorldValid (c.type == "JOIN_ROOM") _ _ (handle_join_room-WorldValid c user now w v) (
      if-WorldValid (c.type == "LEAVE_ROOM") _ _ (handle_leave_room-WorldValid c user now w v) (
        if-WorldValid (c.type == "CHANGE_READY") _ _ (handle_change_ready-WorldValid c user now w v)
          (if-WorldValid (c.type == "START_GAME") _ _
            (handle_start_game-WorldValid env seats cards c user now w v)
            (if-WorldValid (c.type == "NEXT_PHASE") _ _
              (handle_next_phase-WorldValid env c user now w v)
              (if-WorldValid (c.type == "CAST_VOTE") _ _
                (handle_cast_vote-WorldValid env c user now w v)
                (if-WorldValid (c.type == "SELECT_MAFIA_TARGET") _ _
                  (handle_night_target_command-WorldValid mafia_key c user now w v)
                  (if-WorldValid (c.type == "SELECT_DOCTOR_TARGET") _ _
                    (handle_night_target_command-WorldValid doctor_key c user now w v)
                    (if-WorldValid (c.type == "SELECT_POLICE_TARGET") _ _
                      (handle_night_target_command-WorldValid police_key c user now w v)
                      (if-WorldValid (c.type == "SEND_CHAT_MESSAGE") _ _
                        (handle_send_chat_message-WorldValid c user now w v) v)))))))))

-- One step of the server.
pub data WorldStep (env : Env) : World → World → Type 0 where
  commanded :
      (seats cards : ℕ → ℕ) (c : GameCommandEnvelope) (user : Option GameCommandUser) (now : ℕ)
      (w : World)
      → WorldStep env w ((handle_command env seats cards c user now w).1)
  timed :
      (game_id request_id : String) (now : ℕ) (w : World)
      → WorldStep env w ((advance_phase_automatically env game_id request_id now w).1)
  opened :
      (host name : Option String) (max_players : MaxPlayersInput) (uuid : String) (now : ℕ)
      (r : Room) (w : World) (rooms : Dict Room)
      → create_room host name max_players uuid now w.rooms ≡ ok (r, rooms)
      → WorldStep env w (record w { rooms = rooms })
  lost :
      (game_id user_id : String) (now : ℕ) (s : GameSession) (w : World)
      (sessions : Dict GameSession)
      → mark_player_disconnected game_id user_id now w.sessions ≡ ok (s, sessions)
      → WorldStep env w (record w { sessions = sessions })
  returned :
      (game_id user_id : String) (now : ℕ) (s : GameSession) (w : World)
      (sessions : Dict GameSession)
      → mark_player_connected game_id user_id now w.sessions ≡ ok (s, sessions)
      → WorldStep env w (record w { sessions = sessions })

abbrev pub empty_world : World
empty_world = record { sessions = []; rooms = []; logs = [] }

pub data Reachable (env : Env) : World → Type 0 where
  begins : Reachable env empty_world
  steps : {w w' : World} → Reachable env w → WorldStep env w w' → Reachable env w'

step-WorldValid : (env : Env) (w w' : World) → WorldStep env w w' → WorldValid w → WorldValid w'
step-WorldValid env w w' (commanded seats cards c user now _) v =
    handle_command-WorldValid env seats cards c user now w v
step-WorldValid env w w' (timed game_id request_id now _) v =
    advance_phase_automatically-WorldValid env game_id request_id now w v
step-WorldValid env w w' (opened host name max_players uuid now r _ rooms e) v =
    stepped w rooms v (created host name max_players uuid now r w.rooms rooms e)
step-WorldValid env w w' (lost game_id user_id now s _ sessions e) v = restored w sessions v (
    mark_player_disconnected-StoreValid game_id user_id now w.sessions sessions s v.sessions_valid
      e)
step-WorldValid env w w' (returned game_id user_id now s _ sessions e) v =
    restored w sessions v (
      mark_player_connected-StoreValid game_id user_id now w.sessions sessions s v.sessions_valid e)

empty_world-WorldValid : WorldValid empty_world
unfolding find_by_game_id lookup
empty_world-WorldValid = record {
  sessions_valid = λ game_id s e. absurd (ground arith);
  rooms_valid = λ room_id r e. absurd (ground arith);
}

-- Whatever commands, timers, new rooms and lost connections have led to a world, all of its sessions
-- and rooms are valid.
pub Reachable-WorldValid : (env : Env) (w : World) → Reachable env w → WorldValid w
Reachable-WorldValid env w begins = empty_world-WorldValid
Reachable-WorldValid env w' (steps {w} before step) =
    step-WorldValid env w w' step (Reachable-WorldValid env w before)

-- In every world that the server comes to, the phase of a game that is not finished can be changed:
-- nothing in the change throws, and the game is then in the next phase of the cycle or decided and
-- finished, as is broadcast and logged. Only the mafia's unprotected target or the winner of the vote
-- has fallen, all sessions stay valid, and other games and the rooms are kept.
pub Reachable-HasChanged :
    (env : Env) (w : World) (game_id request_id : String) (requested_by : Option String) (now : ℕ)
    (s : GameSession)
    → Reachable env w
    → find_by_game_id game_id w.sessions ≡ some s
    → phase_eq s.phase finished ≡ false
    → HasChanged env game_id request_id requested_by now s w
        (change_phase env game_id requested_by request_id now w)
Reachable-HasChanged env w game_id request_id requested_by now s reached found running =
    let v = Reachable-WorldValid env w reached in
    change_phase-HasChanged env game_id request_id requested_by now w s v.sessions_valid found
      running
