-- ===== src/Realtime/Gateway/Guards/Polls.antt =====
-- `pollDuePhaseTimers` of apps/api/src/realtime/realtime.gateway.ts, as steps of the server.
use mafia_casefile.Prelude.{ℕ, Option, List, [], ◌∷◌}
use mafia_casefile.Realtime.Timers.{PhaseTimerEntry, list_due}
use mafia_casefile.Realtime.Gateway.{Platform, Server}
use mafia_casefile.Realtime.Gateway.Timing.{
  Tick, advance_each, poll_due_phase_timers, due_limit, advance_phase_from_timer,
}
use mafia_casefile.Realtime.Gateway.Guards.Steps.{ServerStep, listed, ticked}

data ServerSteps (p : Platform) : Server p → Server p → Type 0 where
  done : (s : Server p) → ServerSteps p s s
  first : {s s' s'' : Server p} → ServerStep p s s' → ServerSteps p s' s'' → ServerSteps p s s''

module _ (p : Platform) (ticks : PhaseTimerEntry → Tick p) where
  advance_each-ServerSteps :
      (entries : List PhaseTimerEntry) (s : Server p)
      → ServerSteps p s (advance_each p entries ticks s)
  unfolding advance_each
  advance_each-ServerSteps [] s = done s
  advance_each-ServerSteps (e ∷ es) s =
      first (ticked e (ticks e) s)
        (advance_each-ServerSteps es (advance_phase_from_timer p e (ticks e) s))

  -- A poll lists the timers that are due and then handles each of them, in guarded steps.
  poll_due_phase_timers-ServerSteps :
      (now : ℕ) (raw_limit : Option ℕ) (s : Server p)
      → ServerSteps p s (poll_due_phase_timers p now raw_limit ticks s)
  unfolding poll_due_phase_timers
  poll_due_phase_timers-ServerSteps now raw_limit s =
      let due = list_due p.timers p.dates now (due_limit raw_limit) s.timers in
      first (listed now raw_limit s) (advance_each-ServerSteps due.0 (record s { timers = due.1 }))
