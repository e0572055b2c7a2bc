-- ===== src/Realtime/Locks.antt =====
-- apps/api/src/realtime/game-command-lock.service.ts: a lock for each game, held by a random token
-- until it is released or expires.
pub mod Exclusion
pub mod Holding
pub mod Free
use Prim.Native.String
use mafia_casefile.Prelude.{
  ℕ, zero, suc, ◌+◌, ◌-◌, ◌≤◌, String, Bool, true, false, Option, none, some, leb, eqb, same?,
  if◌then◌else◌,
}
use mafia_casefile.Realtime.Redis.{Redis, positive_or}

pub record GameCommandLock : Type 0 where
  pub game_id : String
  pub token : String

unfoldable pub lock_key : String → String
lock_key game_id = String.◌++◌ "lock:game:" game_id

-- The settings `GAME_COMMAND_LOCK_TTL_MS`, `…_WAIT_MS` and `…_RETRY_MS`.
pub record LockSettings : Type 0 where
  pub raw_ttl : Option ℕ
  pub raw_wait : Option ℕ
  pub raw_retry : Option ℕ

abbrev pub ttl_ms : LockSettings → ℕ
ttl_ms settings = positive_or 5000 settings.raw_ttl

abbrev pub wait_ms : LockSettings → ℕ
wait_ms settings = positive_or 1000 settings.raw_wait

abbrev pub retry_ms : LockSettings → ℕ
retry_ms settings = positive_or 50 settings.raw_retry

-- What a wait for the lock comes to.
pub data Waited : Type 0 where
  got : GameCommandLock → Waited
  busy : Waited
  out_of_fuel : Waited

module _ (redis : Redis String) where
  open redis use {Store, get, set, set_nx, del}

  -- One `SET … NX PX` of a waiting command.
  unfoldable pub try_lock : LockSettings → String → String → ℕ → Store → Bool × Store
  try_lock settings game_id token now s = set_nx now (lock_key game_id) token (ttl_ms settings) s

  -- The loop from its `i`-th round on. `clock` is what `Date.now()` reads in each round, `tokens` what
  -- `randomUUID()` gives, and `others` what the rest of the server does to the store between two
  -- rounds.
  unfoldable pub acquire_from :
      LockSettings
      → (ℕ → ℕ)
      → (ℕ → String)
      → (ℕ → Store → Store)
      → String
      → ℕ
      → ℕ
      → ℕ
      → Store
      → Waited × Store
  acquire_from settings clock tokens others game_id started zero i s = (out_of_fuel, s)
  acquire_from settings clock tokens others game_id started (suc fuel) i s =
      let elapsed = clock i - started in
      let (ok, s') = try_lock settings game_id (tokens i) (clock i) s in
      let rest =
        acquire_from settings clock tokens others game_id started fuel (suc i) (others i s') in
      if leb elapsed (wait_ms settings)
      then (if ok
          then (got (record { game_id = game_id; token = tokens i }), s')
          else if eqb (wait_ms settings - elapsed) 0
          then (busy, s')
          else rest)
      else (busy, s)

  -- A round for each millisecond of the wait, and two more, are enough.
  unfoldable pub acquire :
      LockSettings → (ℕ → ℕ) → (ℕ → String) → (ℕ → Store → Store) → String → Store → Waited × Store
  acquire settings clock tokens others game_id s =
      acquire_from settings clock tokens others game_id (clock 0) (wait_ms settings + 2) 0 s

  -- The script `if GET == token then DEL`.
  unfoldable pub release : GameCommandLock → ℕ → Store → Bool × Store
  release lock now s =
      if same? (get now (lock_key lock.game_id) s) (some lock.token)
      then (true, del (lock_key lock.game_id) s)
      else (false, s)

  -- After the wait: `none` when the lock stayed busy. `release_fails` is whether the release throws.
  unfoldable pub run_held :
      {A : Type 0} → (Store → A × Store) → ℕ → Bool → Waited → Store → Option A × Store
  run_held callback released_at release_fails (got lock) s =
      let (value, s') = callback s in
      (some value, if release_fails then s' else (release lock released_at s').1)
  run_held callback released_at release_fails busy s = (none, s)
  run_held callback released_at release_fails out_of_fuel s = (none, s)

  unfoldable pub with_lock :
      {A : Type 0}
      → LockSettings
      → (ℕ → ℕ)
      → (ℕ → String)
      → (ℕ → Store → Store)
      → String
      → (Store → A × Store)
      → ℕ
      → Bool
      → Store
      → Option A × Store
  with_lock settings clock tokens others game_id callback released_at release_fails s =
      let (waited, s') = acquire settings clock tokens others game_id s in
      run_held callback released_at release_fails waited s'
