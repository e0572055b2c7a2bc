-- ===== src/Realtime/Gateway/Timing/Advances.antt =====
-- `advancePhaseFromTimer` of apps/api/src/realtime/realtime.gateway.ts, for a timer that is current.
use mafia_casefile.Prelude.{ℕ, ◌≡◌, none, some}
use mafia_casefile.Session.{GameSession}
use mafia_casefile.World.{World}
use mafia_casefile.Sessions.{find_by_game_id}
use mafia_casefile.Commands.Phases.{change_phase}
use mafia_casefile.Commands.Phases.Running.{HasChanged}
use mafia_casefile.Commands.Reachable.{Reachable}
use mafia_casefile.Realtime.Redis.{Redis}
use mafia_casefile.Realtime.Locks.{lock_key}
use mafia_casefile.Realtime.Timers.{PhaseTimerEntry, SortedSet}
use mafia_casefile.Realtime.Gateway.{Platform, Server}
use mafia_casefile.Realtime.Gateway.Effects.Untouched.{Untouched}
use mafia_casefile.Realtime.Gateway.Timing.{Tick}

-- What a timer does that brings the next phase to a game in the session `session`: the change of phase
-- goes through, as `HasChanged` has it, the game's session afterwards is the one that it leaves, the
-- timer is gone, and the game's lock is free.
pub record HasAdvanced (p : Platform) (entry : PhaseTimerEntry) (t : Tick p) (session : GameSession)
    (s s' : Server p) : Type 0 where
  pub went_through :
      HasChanged p.env entry.game_id t.request_id none t.advanced_at session s.world
        (change_phase p.env entry.game_id none t.request_id t.advanced_at s.world)
  pub stands :
      find_by_game_id entry.game_id (World.sessions s'.world)
      ≡ some (HasChanged.session went_through)
  pub world_after :
      s'.world ≡ (change_phase p.env entry.game_id none t.request_id t.advanced_at s.world).1
  pub timer_gone : SortedSet.score p.timers entry s'.timers ≡ none
  pub lock_free : (at : ℕ) → Redis.get p.locks at (lock_key entry.game_id) s'.locks ≡ none
