-- ===== src/Realtime/Locks/Exclusion.antt =====
-- The waiting loop of `acquire` in apps/api/src/realtime/game-command-lock.service.ts.
use Prim.Native.Nat.{min}
use mafia_casefile.Prelude.{
  ℕ, zero, suc, ◌+◌, ◌-◌, ◌≤◌, ◌≡◌, refl, String, Bool, true, false, leb, eqb, Bool-cases, inl, inr,
  arith,
}
use mafia_casefile.Realtime.Redis.{Redis, positive_or-pos}
use mafia_casefile.Realtime.Locks.{
  LockSettings, wait_ms, retry_ms, Waited, got, busy, out_of_fuel, try_lock, acquire_from, acquire,
}

-- `sleep(Math.min(retryMs, remaining))` takes at least as long as it says.
abbrev pub Sleeps : LockSettings → (ℕ → ℕ) → Type 0
Sleeps settings clock =
    (i : ℕ)
    → clock i + min (retry_ms settings) (wait_ms settings - (clock i - clock 0)) ≤ clock (suc i)

-- The wait has come to an end.
abbrev pub is_settled : Waited → Bool
is_settled (got lock) = true
is_settled busy = true
is_settled out_of_fuel = false

module _ (redis : Redis String) (settings : LockSettings) (clock : ℕ → ℕ) (tokens : ℕ → String)
    (sleeps : Sleeps settings clock) where
  open redis use {Store}

  acquire_from_settles :
      (others : ℕ → Store → Store) (game_id : String) (fuel i : ℕ) (s : Store)
      → clock 0 ≤ clock i
      → 1 ≤ fuel
      → wait_ms settings + 2 ≤ fuel + (clock i - clock 0)
      → is_settled (acquire_from redis settings clock tokens others game_id (clock 0) fuel i s).0
        ≡ true
  unfolding acquire_from
  acquire_from_settles others game_id zero i s h one enough = absurd (omega arith)
  acquire_from_settles others game_id (suc fuel) i s h one enough =
      let elapsed = clock i - clock 0 in
      let tried = try_lock redis settings game_id (tokens i) (clock i) s in
      elim (Bool-cases (leb elapsed (wait_ms settings))) [
        | inr late ↦ rw (late, acquire_from) refl
        | inl early ↦ elim (Bool-cases tried.0) [
          | inl ok ↦ rw (early, acquire_from, ok) refl
          | inr taken ↦ elim (Bool-cases (eqb (wait_ms settings - elapsed) 0)) [
            | inl over ↦ rw (early, acquire_from, taken, over) refl
            | inr more ↦
                let slept : suc (clock i) ≤ clock (suc i) = ground (arith, sleeps i, retry_pos) in
                rw (early, acquire_from, taken, more)
                  (acquire_from_settles others game_id fuel (suc i) (others i tried.1) (omega arith)
                    (ground arith) (ground arith))
          ]
        ]
      ]
    where
      retry_pos : 1 ≤ retry_ms settings
      retry_pos = positive_or-pos 50 settings.raw_retry (omega arith)

  -- If sleeping takes the time that it should, a wait for the lock ends, whatever the others do to the
  -- store meanwhile: the fuel of `acquire` is enough.
  pub acquire-is_settled :
      (others : ℕ → Store → Store) (game_id : String) (s : Store)
      → is_settled ((acquire redis settings clock tokens others game_id s).0) ≡ true
  unfolding acquire
  acquire-is_settled others game_id s =
      acquire_from_settles others game_id (wait_ms settings + 2) 0 s (omega arith) (omega arith)
        (omega arith)
