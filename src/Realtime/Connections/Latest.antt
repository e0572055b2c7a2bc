-- ===== src/Realtime/Connections/Latest.antt =====
-- Calls of apps/api/src/realtime/connection-state.service.ts for sockets that are not the latest.
use mafia_casefile.Prelude.{
  ℕ, ◌+◌, ◌≤◌, ◌<◌, ◌≡◌, ◌≢◌, refl, ◌∙◌, String, true, Option, some, ltb, eq_self, eq_ne, arith,
}
use mafia_casefile.Realtime.Redis.{Redis}
use mafia_casefile.Realtime.Connections.{
  RealtimeConnectionState, user_key, connection_ttl, ConnectionStore, find_by_user_id, save_state,
  mark_connected, mark_disconnected, set_room, clear_room,
}

module _ (redis : Redis RealtimeConnectionState) (raw_ttl : Option ℕ) where
  open redis use {Store, get, set, get-set}

  -- What was saved is found under its user until it expires.
  find-save_state :
      (state : RealtimeConnectionState) (now at : ℕ) (c : ConnectionStore redis raw_ttl)
      → now ≤ at
      → at < now + connection_ttl raw_ttl
      → find_by_user_id redis raw_ttl state.user_id at ((save_state redis raw_ttl state now c).1)
        ≡ some state
  unfolding find_by_user_id save_state
  find-save_state state now at c le lt =
      let before : ltb at (now + connection_ttl raw_ttl) ≡ true = ground arith in
      get-set now at (user_key state.user_id) (user_key state.user_id) state
        (connection_ttl raw_ttl) c.users le
      ∙ rw (eq_self (user_key state.user_id), before) refl

  -- Calls for a socket that is not the user's current one.
  module _ (current : RealtimeConnectionState) (user_id socket_id : String) (now : ℕ)
      (c : ConnectionStore redis raw_ttl)
      (found : find_by_user_id redis raw_ttl user_id now c ≡ some current)
      (other : current.socket_id ≢ socket_id) where
    mark_disconnected-superseded :
        mark_disconnected redis raw_ttl user_id socket_id now c ≡ (current, c)
    unfolding mark_disconnected
    mark_disconnected-superseded =
        rw (found, mark_disconnected, eq_ne current.socket_id socket_id other) refl

    set_room-superseded :
        (room_id : String) → set_room redis raw_ttl user_id socket_id room_id now c ≡ (current, c)
    unfolding set_room
    set_room-superseded room_id = rw (found, set_room, eq_ne current.socket_id socket_id other) refl

    clear_room-superseded :
        (room_id : String) → clear_room redis raw_ttl user_id socket_id room_id now c ≡ (current, c)
    unfolding clear_room
    clear_room-superseded room_id =
        rw (found, clear_room, eq_ne current.socket_id socket_id other) refl

  -- Once a user is connected on a new socket, and until that expires, whatever an older socket still
  -- does (it disconnects, enters a room or leaves one) changes nothing and is told the new state.
  pub mark_connected-supersedes :
      (user_id old new room_id : String) (now at : ℕ) (c : ConnectionStore redis raw_ttl)
      → new ≢ old
      → now ≤ at
      → at < now + connection_ttl raw_ttl
      → (let latest = mark_connected redis raw_ttl user_id new now c in
          (mark_disconnected redis raw_ttl user_id old at latest.1 ≡ latest)
          × (set_room redis raw_ttl user_id old room_id at latest.1 ≡ latest)
          × (clear_room redis raw_ttl user_id old room_id at latest.1 ≡ latest))
  unfolding mark_connected save_state
  mark_connected-supersedes user_id old new room_id now at c ne le lt =
      let latest = mark_connected redis raw_ttl user_id new now c in
      let found = find-save_state latest.0 now at c le lt in
      (
        mark_disconnected-superseded latest.0 user_id old at latest.1 found ne,
        set_room-superseded latest.0 user_id old at latest.1 found ne room_id,
        clear_room-superseded latest.0 user_id old at latest.1 found ne room_id,
      )
