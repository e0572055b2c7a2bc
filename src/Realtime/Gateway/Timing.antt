-- ===== src/Realtime/Gateway/Timing.antt =====
-- apps/api/src/realtime/realtime.gateway.ts: phases that end by their timer.
pub mod Advances
use mafia_casefile.Prelude.{
  ℕ, String, Bool, true, false, not, ◌&&◌, Option, none, some, List, [], ◌∷◌, ◌==◌, same?,
  if◌then◌else◌,
}
use mafia_casefile.Shared.{finished, phase_eq}
use mafia_casefile.Session.{GameSession}
use mafia_casefile.World.{World}
use mafia_casefile.Sessions.{find_by_game_id}
use mafia_casefile.Commands.{GameCommandResult, accepted, rejected}
use mafia_casefile.Commands.Phases.{advance_phase_automatically}
use mafia_casefile.Realtime.Redis.{Redis, positive_or}
use mafia_casefile.Realtime.Locks.{
  GameCommandLock, Waited, got, busy, out_of_fuel, acquire, release,
}
use mafia_casefile.Realtime.Timers.{Dates, PhaseTimerEntry, list_due, complete}
use mafia_casefile.Realtime.Gateway.{Platform, Server}
use mafia_casefile.Realtime.Gateway.Effects.{apply_system_command_effects}

-- What the handling of one due timer meets.
pub record Tick (p : Platform) : Type 0 where
  pub clock : ℕ → ℕ
  pub tokens : ℕ → String
  pub others : ℕ → Redis.Store p.locks → Redis.Store p.locks
  pub request_id : String
  pub advanced_at : ℕ
  pub released_at : ℕ
  pub acquire_fails : Bool
  pub release_fails : Bool

-- `session.phaseEndsAt?.toISOString()`
abbrev pub deadline_text : Dates → Option ℕ → Option String
deadline_text dates none = none
deadline_text dates (some at) = some (dates.to_iso at)

-- The timer is of the phase that the game is in.
abbrev pub is_current : Dates → PhaseTimerEntry → Option GameSession → Bool
is_current dates entry none = false
is_current dates entry (some s) =
    not (phase_eq s.phase finished)
    && same? (deadline_text dates s.phase_ends_at) (some entry.phase_ends_at)

-- `PHASE_TIMER_DUE_LIMIT`
abbrev pub due_limit : Option ℕ → ℕ
due_limit raw = positive_or 100 raw

module _ (p : Platform) where
  -- `this.phaseTimerService.complete(entry)`
  unfoldable pub complete_timer : PhaseTimerEntry → Server p → Server p
  complete_timer entry s = record s { timers = complete p.timers p.dates entry s.timers }

  abbrev pub apply_if_accepted : GameCommandResult → Server p → Server p
  apply_if_accepted (accepted request_id type effects) s = apply_system_command_effects p effects s
  apply_if_accepted (rejected request_id reason message) s = s

  -- With the lock held.
  unfoldable pub advance_locked : PhaseTimerEntry → Tick p → Server p → Server p
  advance_locked entry t s =
      let (result, w) =
        advance_phase_automatically p.env entry.game_id t.request_id t.advanced_at s.world in
      complete_timer entry (apply_if_accepted result (record s { world = w }))

  unfoldable pub release_timer_lock : GameCommandLock → Tick p → Server p → Server p
  release_timer_lock lock t s =
      if t.release_fails
      then s
      else record s { locks = (release p.locks lock t.released_at s.locks).1 }

  unfoldable pub advance_waited : PhaseTimerEntry → Tick p → Waited → Server p → Server p
  advance_waited entry t (got lock) s = release_timer_lock lock t (advance_locked entry t s)
  advance_waited entry t busy s = s
  advance_waited entry t out_of_fuel s = s

  unfoldable pub advance_phase_from_timer : PhaseTimerEntry → Tick p → Server p → Server p
  advance_phase_from_timer entry t s =
      let world = s.world in
      let (waited, locks) =
        acquire p.locks p.lock_settings t.clock t.tokens t.others entry.game_id s.locks in
      if not (is_current p.dates entry (find_by_game_id entry.game_id world.sessions))
      then complete_timer entry s
      else if t.acquire_fails
      then s
      else advance_waited entry t waited (record s { locks = locks })

  -- The entries are handled one after the other; the source starts them all at once.
  unfoldable pub advance_each :
      List PhaseTimerEntry → (PhaseTimerEntry → Tick p) → Server p → Server p
  advance_each [] ticks s = s
  advance_each (e ∷ es) ticks s = advance_each es ticks (advance_phase_from_timer e (ticks e) s)

  -- `pollDuePhaseTimers`
  unfoldable pub poll_due_phase_timers :
      ℕ → Option ℕ → (PhaseTimerEntry → Tick p) → Server p → Server p
  poll_due_phase_timers now raw_limit ticks s =
      let (entries, timers) = list_due p.timers p.dates now (due_limit raw_limit) s.timers in
      advance_each entries ticks (record s { timers = timers })
