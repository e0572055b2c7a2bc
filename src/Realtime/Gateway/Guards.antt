-- ===== src/Realtime/Gateway/Guards.antt =====
-- The guards of apps/api/src/realtime/realtime.gateway.ts: when a message, a timer or a connection may
-- change the game.
pub mod Messages
pub mod Meetings
pub mod Steps
pub mod Polls
use mafia_casefile.Prelude.{ℕ, ◌≡◌, ◌⊎◌, String, true, false, Option, none, some, Dict}
use mafia_casefile.Prelude.Results.{ok}
use mafia_casefile.Session.{GameSession}
use mafia_casefile.Rooms.{Room}
use mafia_casefile.Rooms.Operations.{MaxPlayersInput, create_room}
use mafia_casefile.World.{World}
use mafia_casefile.Sessions.{find_by_game_id, mark_player_connected, mark_player_disconnected}
use mafia_casefile.Commands.{GameCommandUser, GameCommandEnvelope}
use mafia_casefile.Commands.Dispatch.{handle_command}
use mafia_casefile.Commands.Phases.{advance_phase_automatically}
use mafia_casefile.Realtime.Redis.{Redis}
use mafia_casefile.Realtime.Requests.{request_key}
use mafia_casefile.Realtime.Locks.{GameCommandLock, got, acquire}
use mafia_casefile.Realtime.Timers.{PhaseTimerEntry}
use mafia_casefile.Realtime.Gateway.{Platform, Server}
use mafia_casefile.Realtime.Gateway.Handling.{Delivery, request_of}
use mafia_casefile.Realtime.Gateway.Timing.{Tick, is_current}
use mafia_casefile.Realtime.Gateway.Connecting.{Meeting}

module _ (p : Platform) (s : Server p) where
  -- The wait for the lock of the game ends with the lock.
  abbrev pub GetsLock :
      (ℕ → ℕ) → (ℕ → String) → (ℕ → Redis.Store p.locks → Redis.Store p.locks) → String → Type 0
  GetsLock clock tokens others game_id =
      (lock : GameCommandLock) × ((acquire p.locks p.lock_settings clock tokens others game_id
          s.locks).0
        ≡ got lock)

  -- A command may be carried out: nobody is signed in on its socket, or Redis fails the records of
  -- requests, or its request has no record yet and its game's lock is had or Redis fails that.
  pub data IsAdmitted (c : GameCommandEnvelope) (d : Delivery p)
      : Option GameCommandUser → Type 0 where
    anonymous : IsAdmitted c d none
    unrecorded : (user : GameCommandUser) → d.begin_fails ≡ true → IsAdmitted c d (some user)
    fresh :
        (user : GameCommandUser)
        → Redis.get p.requests d.begun_at (request_key (request_of c user)) s.requests ≡ none
        → (d.acquire_fails ≡ true) ⊎ GetsLock d.clock d.tokens d.others c.game_id
        → IsAdmitted c d (some user)

  abbrev pub sessions_of : World → Dict GameSession
  sessions_of w = w.sessions

  -- What may become of the world in one step of the server.
  pub data IsGuarded : World → Type 0 where
    stays : IsGuarded s.world
    commanded :
        (c : GameCommandEnvelope) (user : Option GameCommandUser) (d : Delivery p)
        → IsAdmitted c d user
        → IsGuarded ((handle_command p.env d.seats d.cards c user d.executed_at s.world).1)
    timed :
        (entry : PhaseTimerEntry) (t : Tick p)
        → is_current p.dates entry (find_by_game_id entry.game_id (sessions_of s.world)) ≡ true
        → GetsLock t.clock t.tokens t.others entry.game_id
        → IsGuarded
            ((advance_phase_automatically p.env entry.game_id t.request_id t.advanced_at s.world).1)
    returned :
        (game_id user_id : String) (m : Meeting p) (session : GameSession)
        (sessions : Dict GameSession)
        → GetsLock m.clock m.tokens m.others game_id
        → mark_player_connected game_id user_id m.marked_at (sessions_of s.world)
          ≡ ok (session, sessions)
        → IsGuarded (record (Server.world s) { sessions = sessions })
    lost :
        (game_id user_id : String) (at : ℕ) (m : Meeting p) (session : GameSession)
        (sessions : Dict GameSession)
        → GetsLock m.clock m.tokens m.others game_id
        → mark_player_disconnected game_id user_id at (sessions_of s.world) ≡ ok (session, sessions)
        → IsGuarded (record (Server.world s) { sessions = sessions })
    opened :
        (host name : Option String) (max_players : MaxPlayersInput) (uuid : String) (now : ℕ)
        (r : Room) (rooms : Dict Room)
        → create_room host name max_players uuid now (World.rooms (Server.world s)) ≡ ok (r, rooms)
        → IsGuarded (record (Server.world s) { rooms = rooms })
