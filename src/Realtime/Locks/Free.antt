-- ===== src/Realtime/Locks/Free.antt =====
-- Locks of apps/api/src/realtime/game-command-lock.service.ts that nobody holds: their first attempt and
-- their release.
use mafia_casefile.Prelude.{
  ℕ, zero, suc, ◌+◌, ◌-◌, ◌≤◌, ◌<◌, ◌≡◌, refl, ◌∙◌, String, true, none, some, leb, ltb, eq_self,
  arith,
}
use mafia_casefile.Realtime.Redis.{Redis}
use mafia_casefile.Realtime.Locks.{
  GameCommandLock, LockSettings, lock_key, ttl_ms, wait_ms, got, try_lock, acquire_from, acquire,
  release,
}

module _ (redis : Redis String) (settings : LockSettings) (clock : ℕ → ℕ) (tokens : ℕ → String)
    (others : ℕ → Redis.Store redis → Redis.Store redis) (game_id : String)
    (s : Redis.Store redis) where
  open redis use {Store, get, set, set_nx, del, get-set, set_nx-eq, get-del}

  abbrev pub first_lock : GameCommandLock
  first_lock = record { game_id = game_id; token = tokens 0 }

  -- The store with the lock taken in the first round.
  abbrev pub taken_store : Store
  taken_store = set (clock 0) (lock_key game_id) (tokens 0) (ttl_ms settings) s

  acquire_from-free :
      (fuel : ℕ)
      → get (clock 0) (lock_key game_id) s ≡ none
      → 1 ≤ fuel
      → acquire_from redis settings clock tokens others game_id (clock 0) fuel 0 s
        ≡ (got first_lock, taken_store)
  unfolding acquire_from try_lock
  acquire_from-free zero free one = absurd (omega arith)
  acquire_from-free (suc fuel) free one =
      let took : set_nx (clock 0) (lock_key game_id) (tokens 0) (ttl_ms settings) s
          ≡ (true, taken_store) =
        set_nx-eq (clock 0) (lock_key game_id) (tokens 0) (ttl_ms settings) s ∙ rw free refl in
      let in_time : leb (clock 0 - clock 0) (wait_ms settings) ≡ true = ground arith in
      rw (took, in_time) refl

  -- A lock that is free when a command comes is had in the first round.
  pub acquire-free :
      get (clock 0) (lock_key game_id) s ≡ none
      → acquire redis settings clock tokens others game_id s ≡ (got first_lock, taken_store)
  unfolding acquire
  acquire-free free = acquire_from-free (wait_ms settings + 2) free (omega arith)

  -- Released before it expires, the lock is free.
  pub release-free :
      (now at : ℕ)
      → clock 0 ≤ now
      → now < clock 0 + ttl_ms settings
      → get at (lock_key game_id) ((release redis first_lock now taken_store).1) ≡ none
  unfolding release
  release-free now at h lt =
      let key = lock_key game_id in
      let before : ltb now (clock 0 + ttl_ms settings) ≡ true = ground arith in
      let own : get now key taken_store ≡ some (tokens 0) =
        get-set (clock 0) now key key (tokens 0) (ttl_ms settings) s h
        ∙ rw (eq_self key, before) refl in
      rw (own, release, eq_self (tokens 0)) (get-del at key key taken_store ∙ rw (eq_self key) refl)
