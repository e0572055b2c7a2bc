-- ===== src/Realtime/Gateway/Guards/Steps.antt =====
-- The steps of the server of apps/api/src/realtime/realtime.gateway.ts.
use mafia_casefile.Prelude.{ℕ, ◌≡◌, String, Option, Dict}
use mafia_casefile.Prelude.Results.{ok}
use mafia_casefile.Rooms.{Room}
use mafia_casefile.Rooms.Operations.{MaxPlayersInput, create_room}
use mafia_casefile.World.{World}
use mafia_casefile.Realtime.Redis.{Redis}
use mafia_casefile.Realtime.Timers.{PhaseTimerEntry}
use mafia_casefile.Realtime.Envelope.{Body}
use mafia_casefile.Realtime.Gateway.{Client, Platform, Server}
use mafia_casefile.Realtime.Gateway.Handling.{Delivery, handle_message}
use mafia_casefile.Realtime.Gateway.Timing.{Tick}
use mafia_casefile.Realtime.Gateway.Connecting.{Meeting, handle_connection, handle_disconnect}
use mafia_casefile.Realtime.Timers.{list_due}
use mafia_casefile.Realtime.Gateway.Timing.{advance_phase_from_timer, due_limit}
use mafia_casefile.Realtime.Gateway.Guards.{IsGuarded}

module _ (p : Platform) (s : Server p) where
  abbrev Good : Server p → Type 0
  Good s' = IsGuarded p s (Server.world s')

-- One step of the server. A poll for timers is several: see Guards/Polls.
pub data ServerStep (p : Platform) : Server p → Server p → Type 0 where
  messaged :
      (client : Client) (body : Body) (d : Delivery p) (s : Server p)
      → ServerStep p s (handle_message p client body d s)
  listed :
      (now : ℕ) (raw_limit : Option ℕ) (s : Server p)
      → ServerStep p s
          (record s { timers = (list_due p.timers p.dates now (due_limit raw_limit) s.timers).1 })
  ticked :
      (entry : PhaseTimerEntry) (t : Tick p) (s : Server p)
      → ServerStep p s (advance_phase_from_timer p entry t s)
  connects :
      (client : Client) (m : Meeting p) (s : Server p)
      → ServerStep p s (handle_connection p client m s)
  disconnects :
      (client : Client) (m : Meeting p) (s : Server p)
      → ServerStep p s (handle_disconnect p client m s)
  creates :
      (host name : Option String) (max_players : MaxPlayersInput) (uuid : String) (now : ℕ)
      (r : Room) (rooms : Dict Room) (s : Server p)
      → create_room host name max_players uuid now (World.rooms (Server.world s)) ≡ ok (r, rooms)
      → ServerStep p s (record s { world = record (Server.world s) { rooms = rooms } })
