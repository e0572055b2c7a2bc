-- ===== src/Realtime/Gateway/Connecting.antt =====
-- apps/api/src/realtime/realtime.gateway.ts: a socket that connects, and one that is lost.
use mafia_casefile.Prelude.{ℕ, String, Bool, not, Option, none, some, Dict, ◌==◌, if◌then◌else◌}
use mafia_casefile.Prelude.Results.{Result, ok, err}
use mafia_casefile.Session.{GameSession}
use mafia_casefile.Sessions.{mark_player_connected, mark_player_disconnected}
use mafia_casefile.Commands.{GameCommandUser}
use mafia_casefile.Realtime.Redis.{Redis, positive_or}
use mafia_casefile.Realtime.Locks.{
  GameCommandLock, Waited, got, busy, out_of_fuel, acquire, release,
}
use mafia_casefile.Realtime.Connections.{
  RealtimeConnectionState, find_by_user_id, mark_connected, mark_disconnected, set_room,
}
use mafia_casefile.Realtime.ReconnectState.{
  ReconnectStateEvent, not_restored, no_room, build_reconnect_state,
}
use mafia_casefile.Realtime.Gateway.{
  reconnect_state, joins, player_disconnected, to_socket, Client, user_room, Platform, Server,
}
use mafia_casefile.Realtime.Gateway.Effects.{emit}

-- What a connection, or the loss of one, meets. The calls of the connection state do not fail here.
pub record Meeting (p : Platform) : Type 0 where
  pub now : ℕ
  pub clock : ℕ → ℕ
  pub tokens : ℕ → String
  pub others : ℕ → Redis.Store p.locks → Redis.Store p.locks
  pub marked_at : ℕ
  pub released_at : ℕ
  pub acquire_fails : Bool
  pub release_fails : Bool

abbrev pub room_of : Option RealtimeConnectionState → Option String
room_of none = none
room_of (some state) = state.room_id

abbrev pub or_now : Option ℕ → ℕ → ℕ
or_now none now = now
or_now (some at) now = at

-- `DISCONNECT_GRACE_PERIOD_SECONDS`
abbrev pub grace_seconds : Option ℕ → ℕ
grace_seconds raw = positive_or 120 raw

module _ (p : Platform) where
  unfoldable pub release_meeting_lock : GameCommandLock → Meeting p → Server p → Server p
  release_meeting_lock lock m s =
      if m.release_fails
      then s
      else record s { locks = (release p.locks lock m.released_at s.locks).1 }

  -- The sessions after a call that saves only if it succeeds.
  abbrev pub saved_sessions : Result (GameSession × Dict GameSession) → Server p → Server p
  saved_sessions (ok (session, sessions)) s =
      let w = s.world in record s { world = record w { sessions = sessions } }
  saved_sessions (err message) s = s

  unfoldable pub mark_connected_waited : String → String → Meeting p → Waited → Server p → Server p
  mark_connected_waited game_id user_id m (got lock) s =
      let w = s.world in
      release_meeting_lock lock m
        (saved_sessions (mark_player_connected game_id user_id m.marked_at w.sessions) s)
  mark_connected_waited game_id user_id m busy s = s
  mark_connected_waited game_id user_id m out_of_fuel s = s

  unfoldable pub mark_reconnected_player_with_lock :
      String → String → Meeting p → Server p → Server p
  mark_reconnected_player_with_lock game_id user_id m s =
      let (waited, locks) =
        acquire p.locks p.lock_settings m.clock m.tokens m.others game_id s.locks in
      if m.acquire_fails
      then s
      else mark_connected_waited game_id user_id m waited (record s { locks = locks })

  -- `emitToSocket(client, 'reconnect:state', this.withServerInstanceId(…))`
  abbrev pub emit_reconnect_state : Client → ReconnectStateEvent → Server p → Server p
  emit_reconnect_state client event s =
      emit p (to_socket client.socket_id (reconnect_state p.server_instance_id event)) s

  -- The room that the user was last in, if any, is joined again, and the player's state is built.
  unfoldable pub restore_room :
      Client → GameCommandUser → Option String → Meeting p → Server p → Server p
  restore_room client user none m s =
      emit_reconnect_state client (not_restored user.id none no_room none) s
  restore_room client user (some room_id) m s =
      let joined = emit p (joins client.socket_id room_id) s in
      let kept = record joined {
        connections =
            (set_room p.connections p.connection_ttl user.id client.socket_id room_id m.now
              joined.connections).1;
      } in
      let marked = mark_reconnected_player_with_lock room_id user.id m kept in
      let world = marked.world in
      if room_id == ""
      then emit_reconnect_state client (not_restored user.id none no_room none) s
      else emit_reconnect_state client
          (build_reconnect_state p.chats p.chat_limit user.id (some room_id) world.sessions
            marked.chats)
          marked

  unfoldable pub handle_user_connection : Client → GameCommandUser → Meeting p → Server p → Server p
  handle_user_connection client user m s =
      let previous = find_by_user_id p.connections p.connection_ttl user.id m.now s.connections in
      let joined = emit p (joins client.socket_id (user_room user.id)) s in
      let marked = record joined {
        connections =
            (mark_connected p.connections p.connection_ttl user.id client.socket_id m.now
              joined.connections).1;
      } in
      restore_room client user (room_of previous) m marked

  unfoldable pub handle_connection : Client → Meeting p → Server p → Server p
  handle_connection client m s = elim client.user [
    | none ↦ s
    | some user ↦ handle_user_connection client user m s
  ]

  -- The session is marked, and the room is told unless that throws.
  unfoldable pub tell_disconnected :
      Result (GameSession × Dict GameSession) → String → String → ℕ → Server p → Server p
  tell_disconnected (ok (session, sessions)) room_id user_id at s =
      emit p (player_disconnected room_id user_id at (grace_seconds p.grace_period))
        (saved_sessions (ok (session, sessions)) s)
  tell_disconnected (err message) room_id user_id at s = s

  unfoldable pub mark_disconnected_waited :
      String → String → ℕ → Meeting p → Waited → Server p → Server p
  mark_disconnected_waited room_id user_id at m (got lock) s =
      let w = s.world in
      release_meeting_lock lock m (
        tell_disconnected (mark_player_disconnected room_id user_id at w.sessions) room_id user_id
          at s)
  mark_disconnected_waited room_id user_id at m busy s = s
  mark_disconnected_waited room_id user_id at m out_of_fuel s = s

  -- The room that the lost socket's user is in is told, under the room's lock.
  unfoldable pub leave_room_lost : Option String → String → ℕ → Meeting p → Server p → Server p
  leave_room_lost none user_id at m s = s
  leave_room_lost (some room_id) user_id at m s =
      let (waited, locks) =
        acquire p.locks p.lock_settings m.clock m.tokens m.others room_id s.locks in
      if room_id == ""
      then s
      else if m.acquire_fails
      then s
      else mark_disconnected_waited room_id user_id at m waited (record s { locks = locks })

  unfoldable pub handle_disconnected_user :
      Client → GameCommandUser → Meeting p → Server p → Server p
  handle_disconnected_user client user m s =
      let (state, connections) =
        mark_disconnected p.connections p.connection_ttl user.id client.socket_id m.now
          s.connections in
      let s' = record s { connections = connections } in
      if not (state.socket_id == client.socket_id)
      then s'
      else leave_room_lost state.room_id user.id (or_now state.disconnected_at m.now) m s'

  unfoldable pub handle_disconnect : Client → Meeting p → Server p → Server p
  handle_disconnect client m s = elim client.user [
    | none ↦ s
    | some user ↦ handle_disconnected_user client user m s
  ]
