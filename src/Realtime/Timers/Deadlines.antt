-- ===== src/Realtime/Timers/Deadlines.antt =====
-- The timers of one game in apps/api/src/realtime/phase-timer.service.ts.
use mafia_casefile.Prelude.{
  ℕ, ◌≤◌, ◌≡◌, refl, ap, sym, ◌∙◌, String, Bool, true, false, not, ◌&&◌, none, some, List, [], ◌∷◌,
  keep, any, ◌==◌, eq_iff, if◌then◌else◌, Option-cases, Bool-cases, inl, inr, arith,
}
use mafia_casefile.Realtime.Timers.{
  PhaseTimerEntry, entry_eq, Dates, SortedSet, is_of_game, is_invalid, zrem_if_any, clear_game,
  schedule, list_due,
}

-- The entry can be read back.
abbrev pub IsReadable : PhaseTimerEntry → Type 0
IsReadable e = is_invalid e ≡ false

pub entry_eq-path : (a b : PhaseTimerEntry) → entry_eq a b ≡ true → a ≡ b
entry_eq-path a b e =
    let p : a.game_id ≡ b.game_id = (eq_iff a.game_id b.game_id).0 (ground arith) in
    let q : a.phase_ends_at ≡ b.phase_ends_at =
      (eq_iff a.phase_ends_at b.phase_ends_at).0 (ground arith) in
    λ i. record { game_id = p i; phase_ends_at = q i }

is_of_game-readable :
    (e : PhaseTimerEntry) (game_id : String)
    → is_invalid e ≡ false
    → e.game_id ≡ game_id
    → is_of_game game_id e ≡ true
is_of_game-readable e game_id r same =
    let own : (e.game_id == game_id) ≡ true = (eq_iff e.game_id game_id).1 same in ground arith

-- A filter keeps an entry that passes, and no entry that does not.
pub any-keep :
    (p : PhaseTimerEntry → Bool) (e : PhaseTimerEntry) (ms : List PhaseTimerEntry)
    → any (λ v. entry_eq v e) (keep p ms) ≡ any (λ v. entry_eq v e) ms && p e
any-keep p e [] = refl
any-keep p e (m ∷ ms) = elim (Bool-cases (entry_eq m e)) [
  | inl same ↦
      let agree : p m ≡ p e = ap p (entry_eq-path m e same) in ground (arith, any-keep p e ms)
  | inr differs ↦ ground (arith, any-keep p e ms)
]

module _ (set : SortedSet) (dates : Dates) where
  open set use {
    Store, score, zadd, zrem, zrange, score-zadd, score-zrem, zrange-all, zrangebyscore,
    zrangebyscore-due,
  }

  zrem_if_any-score :
      (e : PhaseTimerEntry) (ms : List PhaseTimerEntry) (s : Store)
      → score e (zrem_if_any set dates ms s)
        ≡ (if any (λ v. entry_eq v e) ms then none else score e s)
  unfolding zrem_if_any
  zrem_if_any-score e [] s = refl
  zrem_if_any-score e (m ∷ ms) s = score-zrem (m ∷ ms) e s

  clear_game-score :
      (game_id : String) (e : PhaseTimerEntry) (s : Store)
      → score e (clear_game set dates game_id s)
        ≡ (if is_of_game game_id e then none else score e s)
  unfolding clear_game
  clear_game-score game_id e s =
      let members = zrange s in
      let removed = zrem_if_any-score e (keep (is_of_game game_id) members) s in
      let filtered = any-keep (is_of_game game_id) e members in
      elim (Option-cases (score e s)) [
        | inl absent ↦ ground (arith, removed, filtered)
        | inr (n, found) ↦ let present = zrange-all e n s found in ground (arith, removed, filtered)
      ]

  -- Scheduling the end of a phase at a time puts this entry in place of every entry of the game that
  -- can be read back, and leaves the timers of other games.
  pub schedule-score :
      (entry e : PhaseTimerEntry) (at : ℕ) (s : Store)
      → dates.date_parse entry.phase_ends_at ≡ some at
      → score e (schedule set dates entry s) ≡ (
          if entry_eq entry e
          then some at
          else if is_of_game entry.game_id e
          then none
          else score e s)
  unfolding schedule
  schedule-score entry e at s dated =
      rw (dated, schedule)
        (score-zadd at entry e (clear_game set dates entry.game_id s)
          ∙ ap (λ old. if entry_eq entry e then some at else old)
              (clear_game-score entry.game_id e s))

  listed-due :
      (e : PhaseTimerEntry) (now limit : ℕ) (s : Store)
      → any (λ v. entry_eq v e) ((list_due set dates now limit s).0) ≡ true
      → (n : ℕ) × ((score e s ≡ some n) × (n ≤ now) × (is_invalid e ≡ false))
  unfolding list_due
  listed-due e now limit s listed =
      let members = zrangebyscore now limit s in
      let kept = any-keep (λ m. not (is_invalid m)) e members in
      let in_range : any (λ v. entry_eq v e) members ≡ true = ground arith in
      let readable : is_invalid e ≡ false = ground arith in
      let (n, (found, due)) = zrangebyscore-due now limit e s in_range in
      (n, (found, due, readable))

  -- After the end of a phase was scheduled at a time, the only entry of the game that is ever listed as
  -- due is this one, and not before that time.
  pub list_due-schedule :
      (entry e : PhaseTimerEntry) (at now limit : ℕ) (s : Store)
      → dates.date_parse entry.phase_ends_at ≡ some at
      → e.game_id ≡ entry.game_id
      → any (λ v. entry_eq v e) ((list_due set dates now limit (schedule set dates entry s)).0)
        ≡ true
      → (e ≡ entry) × (at ≤ now)
  list_due-schedule entry e at now limit s dated same listed =
      let (n, (found, due, readable)) =
        listed-due e now limit (schedule set dates entry s) listed in
      let own : is_of_game entry.game_id e ≡ true =
        is_of_game-readable e entry.game_id readable same in
      let there : score e (schedule set dates entry s)
          ≡ (if entry_eq entry e then some at else none) =
        schedule-score entry e at s dated ∙ rw own refl in
      elim (Bool-cases (entry_eq entry e)) [
        | inl is_it ↦ (sym (entry_eq-path entry e is_it), ground arith)
        | inr is_not ↦ ground arith
      ]
