-- ===== src/Realtime/Connections.antt =====
-- apps/api/src/realtime/connection-state.service.ts: which socket and room each user was last seen on.
-- The keys of users and those of sockets are a store each.
pub mod Latest
use Prim.Native.String
use mafia_casefile.Prelude.{
  ℕ, ◌*◌, String, Bool, true, false, not, Option, none, some, ◌==◌, same?, if◌then◌else◌,
}
use mafia_casefile.Shared.{ConnectionStatus, connected, disconnected}
use mafia_casefile.Realtime.Redis.{Redis, positive_or}

pub record RealtimeConnectionState : Type 0 where
  pub user_id : String
  pub socket_id : String
  pub room_id : Option String
  pub status : ConnectionStatus
  pub connected_at : ℕ
  pub last_seen_at : ℕ
  pub disconnected_at : Option ℕ

unfoldable pub user_key : String → String
user_key user_id = String.◌++◌ "connection:user:" user_id

unfoldable pub socket_key : String → String
socket_key socket_id = String.◌++◌ "connection:socket:" socket_id

-- `CONNECTION_STATE_TTL_SECONDS`, in milliseconds
abbrev pub connection_ttl : Option ℕ → ℕ
connection_ttl raw = positive_or 86400 raw * 1000

abbrev pub base_state : String → String → ℕ → RealtimeConnectionState
base_state user_id socket_id now = record {
  user_id = user_id;
  socket_id = socket_id;
  room_id = none;
  status = connected;
  connected_at = now;
  last_seen_at = now;
  disconnected_at = none;
}

-- `current?.socketId === socketId ? current.roomId : null`
abbrev pub kept_room : Option RealtimeConnectionState → String → Option String
kept_room none socket_id = none
kept_room (some current) socket_id =
    if current.socket_id == socket_id then current.room_id else none

-- Another socket than this one is the user's current one.
abbrev pub superseded : Option RealtimeConnectionState → String → Option RealtimeConnectionState
superseded none socket_id = none
superseded (some current) socket_id = if current.socket_id == socket_id then none else some current

-- `current ?? this.createBaseState(input)`
abbrev pub state_or_base :
    Option RealtimeConnectionState → String → String → ℕ → RealtimeConnectionState
state_or_base none user_id socket_id now = base_state user_id socket_id now
state_or_base (some current) user_id socket_id now = current

module _ (redis : Redis RealtimeConnectionState) (raw_ttl : Option ℕ) where
  open redis use {Store, get, set}

  pub record ConnectionStore : Type 0 where
    pub users : Store
    pub sockets : Store

  unfoldable pub find_by_user_id : String → ℕ → ConnectionStore → Option RealtimeConnectionState
  find_by_user_id user_id now c = get now (user_key user_id) c.users

  unfoldable pub find_user_id_by_socket_id : String → ℕ → ConnectionStore → Option String
  find_user_id_by_socket_id socket_id now c = elim (get now (socket_key socket_id) c.sockets) [
    | none ↦ none
    | some state ↦ some state.user_id
  ]

  unfoldable pub save_state :
      RealtimeConnectionState → ℕ → ConnectionStore → RealtimeConnectionState × ConnectionStore
  save_state state now c = (
    state,
    record {
      users = set now (user_key state.user_id) state (connection_ttl raw_ttl) c.users;
      sockets = set now (socket_key state.socket_id) state (connection_ttl raw_ttl) c.sockets;
    },
  )

  unfoldable pub mark_connected :
      String → String → ℕ → ConnectionStore → RealtimeConnectionState × ConnectionStore
  mark_connected user_id socket_id now c =
      let current = find_by_user_id user_id now c in
      save_state
        (record {
          user_id = user_id;
          socket_id = socket_id;
          room_id = kept_room current socket_id;
          status = connected;
          connected_at = now;
          last_seen_at = now;
          disconnected_at = none;
        })
        now c

  unfoldable pub mark_disconnected :
      String → String → ℕ → ConnectionStore → RealtimeConnectionState × ConnectionStore
  mark_disconnected user_id socket_id now c =
      let current = find_by_user_id user_id now c in
      elim (superseded current socket_id) [
        | some other ↦ (other, c)
        | none ↦
            save_state
              (record (state_or_base current user_id socket_id now) {
                user_id = user_id;
                socket_id = socket_id;
                status = disconnected;
                last_seen_at = now;
                disconnected_at = some now;
              })
              now c
      ]

  unfoldable pub set_room :
      String → String → String → ℕ → ConnectionStore → RealtimeConnectionState × ConnectionStore
  set_room user_id socket_id room_id now c =
      let current = find_by_user_id user_id now c in
      elim (superseded current socket_id) [
        | some other ↦ (other, c)
        | none ↦
            save_state
              (record (state_or_base current user_id socket_id now) {
                user_id = user_id;
                socket_id = socket_id;
                room_id = some room_id;
                status = connected;
                last_seen_at = now;
                disconnected_at = none;
              })
              now c
      ]

  unfoldable pub clear_room :
      String → String → String → ℕ → ConnectionStore → RealtimeConnectionState × ConnectionStore
  clear_room user_id socket_id room_id now c = elim (find_by_user_id user_id now c) [
    | none ↦ save_state (base_state user_id socket_id now) now c
    | some current ↦
        if not (current.socket_id == socket_id)
        then (current, c)
        else if not (same? current.room_id (some room_id))
        then (current, c)
        else save_state
            (record current {
              user_id = user_id;
              socket_id = socket_id;
              room_id = none;
              status = connected;
              last_seen_at = now;
              disconnected_at = none;
            })
            now c
  ]
