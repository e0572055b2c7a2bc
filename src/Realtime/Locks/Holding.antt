-- ===== src/Realtime/Locks/Holding.antt =====
-- Interleavings of commands, on any API instance, that try to take locks and release them.
use mafia_casefile.Prelude.{
  ℕ, ◌+◌, ◌≤◌, ◌<◌, ◌≡◌, ◌≢◌, refl, ap, sym, ◌∙◌, ◌⊎◌, String, true, false, none, some, List, [],
  ◌∷◌, ltb, eq_self, eq_ne, same?, Option-cases, Bool-cases, text_cases, inl, inr, arith,
}
use mafia_casefile.Realtime.Redis.{Redis}
use mafia_casefile.Realtime.Locks.{
  GameCommandLock, LockSettings, lock_key, ttl_ms, try_lock, release,
}

-- One command on the store at some time: an attempt under a token, or a release by one.
pub data LockMove : Type 0 where
  tries : GameCommandLock → ℕ → LockMove
  releases : GameCommandLock → ℕ → LockMove

abbrev pub lock_of : LockMove → GameCommandLock
lock_of (tries lock at) = lock
lock_of (releases lock at) = lock

abbrev pub time_of : LockMove → ℕ
time_of (tries lock at) = at
time_of (releases lock at) = at

-- The move is about another key, or made by another token.
abbrev pub Foreign : GameCommandLock → LockMove → Type 0
Foreign held m =
    let lock = lock_of m in
    (lock_key lock.game_id ≢ lock_key held.game_id) ⊎ (lock.token ≢ held.token)

-- The moves are made in the order of time, from one time up to another, and none by the holder.
abbrev pub InOrder : GameCommandLock → ℕ → ℕ → List LockMove → Type 0
InOrder held from until [] = Unit
InOrder held from until (m ∷ ms) =
    (from ≤ time_of m) × (time_of m < until) × Foreign held m × InOrder held (time_of m) until ms

module _ (redis : Redis String) (settings : LockSettings) where
  open redis use {Store, get, set, set_nx, del, get-set, set_nx-eq, get-del}

  abbrev pub move : LockMove → Store → Store
  move (tries lock at) s = (try_lock redis settings lock.game_id lock.token at s).1
  move (releases lock at) s = (release redis lock at s).1

  abbrev pub run : List LockMove → Store → Store
  run [] s = s
  run (m ∷ ms) s = run ms (move m s)

  -- From one time until another, the lock is found to be held by this token.
  abbrev pub HeldFrom : GameCommandLock → ℕ → ℕ → Store → Type 0
  HeldFrom held from until s =
      (at : ℕ) → from ≤ at → at < until → get at (lock_key held.game_id) s ≡ some held.token

  set_nx-free :
      (now : ℕ) (k v : String) (ttl : ℕ) (s : Store)
      → get now k s ≡ none
      → set_nx now k v ttl s ≡ (true, set now k v ttl s)
  set_nx-free now k v ttl s free = set_nx-eq now k v ttl s ∙ rw free refl

  set_nx-full :
      (now : ℕ) (k v w : String) (ttl : ℕ) (s : Store)
      → get now k s ≡ some w
      → set_nx now k v ttl s ≡ (false, s)
  set_nx-full now k v w ttl s taken = set_nx-eq now k v ttl s ∙ rw taken refl

  try_lock-HeldFrom :
      (held : GameCommandLock) (now : ℕ) (s : Store)
      → get now (lock_key held.game_id) s ≡ none
      → (try_lock redis settings held.game_id held.token now s).0 ≡ true
        × HeldFrom held now
            (now + ttl_ms settings)
            ((try_lock redis settings held.game_id held.token now s).1)
  unfolding try_lock
  try_lock-HeldFrom held now s free =
      let took = set_nx-free now (lock_key held.game_id) held.token (ttl_ms settings) s free in
      (
        ap (λ r. r.0) took,
        λ at h lt.
            let before : ltb at (now + ttl_ms settings) ≡ true = ground arith in
            ap (λ r. get at (lock_key held.game_id) r.1) took
            ∙ get-set now at (lock_key held.game_id) (lock_key held.game_id) held.token
                (ttl_ms settings) s h
            ∙ rw (eq_self (lock_key held.game_id), before) refl,
      )

  set_nx-other :
      (now at : ℕ) (k j v : String) (ttl : ℕ) (s : Store)
      → k ≢ j
      → now ≤ at
      → get at j ((set_nx now k v ttl s).1) ≡ get at j s
  set_nx-other now at k j v ttl s ne le = elim (Option-cases (get now k s)) [
    | inl free ↦
        ap (λ r. get at j r.1) (set_nx-free now k v ttl s free)
        ∙ get-set now at k j v ttl s le
        ∙ rw (eq_ne k j ne) refl
    | inr (w, taken) ↦ ap (λ r. get at j r.1) (set_nx-full now k v w ttl s taken)
  ]

  set_nx-taken :
      (now : ℕ) (k v w : String) (ttl : ℕ) (s : Store)
      → get now k s ≡ some w
      → (set_nx now k v ttl s).1 ≡ s
  set_nx-taken now k v w ttl s taken = ap (λ r. r.1) (set_nx-full now k v w ttl s taken)

  release-other :
      (lock : GameCommandLock) (now at : ℕ) (j : String) (s : Store)
      → lock_key lock.game_id ≢ j
      → get at j ((release redis lock now s).1) ≡ get at j s
  unfolding release
  release-other lock now at j s ne =
      elim (Bool-cases (same? (get now (lock_key lock.game_id) s) (some lock.token))) [
        | inl own ↦
            rw (own, release)
              (get-del at (lock_key lock.game_id) j s
                ∙ rw (eq_ne (lock_key lock.game_id) j ne) refl)
        | inr foreign ↦ rw (foreign, release) refl
      ]

  release-foreign :
      (lock : GameCommandLock) (now : ℕ) (held : String) (s : Store)
      → get now (lock_key lock.game_id) s ≡ some held
      → held ≢ lock.token
      → release redis lock now s ≡ (false, s)
  unfolding release
  release-foreign lock now held s taken ne = rw (taken, release, eq_ne held lock.token ne) refl

  -- A move of another token leaves the lock with its holder.
  move-HeldFrom :
      (held : GameCommandLock) (from until : ℕ) (m : LockMove) (s : Store)
      → HeldFrom held from until s
      → from ≤ time_of m
      → time_of m < until
      → Foreign held m
      → HeldFrom held (time_of m) until (move m s)
  unfolding try_lock
  move-HeldFrom held from until (tries lock now) s h le lt foreign at le' lt' =
      let here = h at (omega arith) lt' in
      let key = lock_key lock.game_id in
      elim (text_cases key (lock_key held.game_id)) [
        | inr (other, _) ↦
            set_nx-other now at key (lock_key held.game_id) lock.token (ttl_ms settings) s other le'
            ∙ here
        | inl (same, _) ↦
            let taken : get now key s ≡ some held.token =
              ap (λ k. get now k s) same ∙ h now le lt in
            ap (get at (lock_key held.game_id))
              (set_nx-taken now key lock.token held.token (ttl_ms settings) s taken)
            ∙ here
      ]
  move-HeldFrom held from until (releases lock now) s h le lt (inl other) at le' lt' =
      release-other lock now at (lock_key held.game_id) s other ∙ h at (omega arith) lt'
  move-HeldFrom held from until (releases lock now) s h le lt (inr other) at le' lt' =
      let here = h at (omega arith) lt' in
      elim (text_cases (lock_key lock.game_id) (lock_key held.game_id)) [
        | inr (ne, _) ↦ release-other lock now at (lock_key held.game_id) s ne ∙ here
        | inl (same, _) ↦
            let taken : get now (lock_key lock.game_id) s ≡ some held.token =
              ap (λ k. get now k s) same ∙ h now le lt in
            ap (λ r. get at (lock_key held.game_id) r.1)
              (release-foreign lock now held.token s taken (λ e. other (sym e)))
            ∙ here
      ]

  -- The time of the last move.
  abbrev pub ends : ℕ → List LockMove → ℕ
  ends from [] = from
  ends from (m ∷ ms) = ends (time_of m) ms

  run-HeldFrom :
      (held : GameCommandLock) (from until : ℕ) (moves : List LockMove) (s : Store)
      → HeldFrom held from until s
      → InOrder held from until moves
      → HeldFrom held (ends from moves) until (run moves s)
  run-HeldFrom held from until [] s h o = h
  run-HeldFrom held from until (m ∷ ms) s h (le, lt, foreign, o) =
      run-HeldFrom held (time_of m) until ms (move m s)
        (move-HeldFrom held from until m s h le lt foreign) o

  try_lock-taken :
      (game_id token held : String) (now : ℕ) (s : Store)
      → get now (lock_key game_id) s ≡ some held
      → (try_lock redis settings game_id token now s).0 ≡ false
  unfolding try_lock
  try_lock-taken game_id token held now s taken =
      ap (λ r. r.0) (set_nx-full now (lock_key game_id) token held (ttl_ms settings) s taken)

  release-own :
      (lock : GameCommandLock) (now : ℕ) (s : Store)
      → get now (lock_key lock.game_id) s ≡ some lock.token
      → (release redis lock now s).0 ≡ true
  unfolding release
  release-own lock now s own = rw (own, release, eq_self lock.token) refl

  -- A command that finds the lock of its game free gets it. Until the lock expires, whatever attempts
  -- and releases are made under other tokens or on other keys, in any order: nobody else gets the
  -- lock, and the holder can release it.
  pub lock-excludes :
      (held : GameCommandLock) (token : String) (now at : ℕ) (moves : List LockMove) (s : Store)
      → get now (lock_key held.game_id) s ≡ none
      → InOrder held now (now + ttl_ms settings) moves
      → ends now moves ≤ at
      → at < now + ttl_ms settings
      → (let taken = try_lock redis settings held.game_id held.token now s in
          let later = run moves taken.1 in
          (taken.0 ≡ true)
          × ((try_lock redis settings held.game_id token at later).0 ≡ false)
          × ((release redis held at later).0 ≡ true))
  lock-excludes held token now at moves s free o le lt =
      let (got, kept) = try_lock-HeldFrom held now s free in
      let first = (try_lock redis settings held.game_id held.token now s).1 in
      let here = run-HeldFrom held now (now + ttl_ms settings) moves first kept o at le lt in
      (
        got,
        try_lock-taken held.game_id token held.token at (run moves first) here,
        release-own held at (run moves first) here,
      )
