-- ===== src/Realtime/Timers.antt =====
-- apps/api/src/realtime/phase-timer.service.ts: when the phase of each game ends, in a sorted set of
-- Redis. The set's commands are parameters, as are the functions of JavaScript on dates. A member is
-- stored as JSON and read back.
pub mod Deadlines
pub mod Memory
use mafia_casefile.Prelude.{
  ℕ, ◌≤◌, ◌≡◌, ◌⊎◌, String, Bool, true, false, not, ◌&&◌, ◌||◌, Option, none, some, List, [], ◌∷◌,
  keep, any, length, ltb, leb, ◌==◌, if◌then◌else◌,
}

pub record PhaseTimerEntry : Type 0 where
  pub game_id : String
  pub phase_ends_at : String

abbrev pub entry_eq : PhaseTimerEntry → PhaseTimerEntry → Bool
entry_eq a b = (a.game_id == b.game_id) && (a.phase_ends_at == b.phase_ends_at)

-- `Date.parse`, which finds no number in some strings, and `toISOString`.
pub record Dates : Type 0 where
  pub date_parse : String → Option ℕ
  pub to_iso : ℕ → String

-- `ZADD`, `ZREM`, `ZRANGE 0 -1` and `ZRANGEBYSCORE -inf max LIMIT 0 limit`; `score` is the score of a
-- member.
pub record SortedSet : Type 1 where
  pub Store : Type 0
  pub score : PhaseTimerEntry → Store → Option ℕ
  pub zadd : ℕ → PhaseTimerEntry → Store → Store
  pub zrem : List PhaseTimerEntry → Store → Store
  pub zrange : Store → List PhaseTimerEntry
  pub zrangebyscore : ℕ → ℕ → Store → List PhaseTimerEntry
  pub score-zadd :
      (n : ℕ) (v w : PhaseTimerEntry) (s : Store)
      → score w (zadd n v s) ≡ (if entry_eq v w then some n else score w s)
  pub score-zrem :
      (vs : List PhaseTimerEntry) (w : PhaseTimerEntry) (s : Store)
      → score w (zrem vs s) ≡ (if any (λ v. entry_eq v w) vs then none else score w s)
  pub zrange-all :
      (w : PhaseTimerEntry) (n : ℕ) (s : Store)
      → score w s ≡ some n
      → any (λ v. entry_eq v w) (zrange s) ≡ true
  pub zrangebyscore-due :
      (max limit : ℕ) (w : PhaseTimerEntry) (s : Store)
      → any (λ v. entry_eq v w) (zrangebyscore max limit s) ≡ true
      → (n : ℕ) × ((score w s ≡ some n) × (n ≤ max))
  pub zrangebyscore-all :
      (max limit : ℕ) (w : PhaseTimerEntry) (n : ℕ) (s : Store)
      → score w s ≡ some n
      → n ≤ max
      → (any (λ v. entry_eq v w) (zrangebyscore max limit s) ≡ true)
        ⊎ (length (zrangebyscore max limit s) ≡ limit)

-- `deserialize`, of a member that was stored by `serialize`
abbrev pub deserialize : PhaseTimerEntry → Option PhaseTimerEntry
deserialize e = if (e.game_id == "") || (e.phase_ends_at == "") then none else some e

-- `this.deserialize(member)?.gameId === gameId`
abbrev pub is_of_game : String → PhaseTimerEntry → Bool
is_of_game game_id member = elim (deserialize member) [
  | none ↦ false
  | some entry ↦ entry.game_id == game_id
]

abbrev pub is_invalid : PhaseTimerEntry → Bool
is_invalid member = elim (deserialize member) [ none ↦ true | some entry ↦ false ]

module _ (set : SortedSet) (dates : Dates) where
  open set use {Store, zadd, zrem, zrange, zrangebyscore}

  -- `if (members.length > 0) { await client.zrem(key, ...members); }`
  unfoldable pub zrem_if_any : List PhaseTimerEntry → Store → Store
  zrem_if_any [] s = s
  zrem_if_any (m ∷ ms) s = zrem (m ∷ ms) s

  unfoldable pub clear_game : String → Store → Store
  clear_game game_id s = zrem_if_any (keep (is_of_game game_id) (zrange s)) s

  unfoldable pub schedule : PhaseTimerEntry → Store → Store
  schedule entry s = elim (dates.date_parse entry.phase_ends_at) [
    | none ↦ clear_game entry.game_id s
    | some score ↦ zadd score entry (clear_game entry.game_id s)
  ]

  unfoldable pub list_due : ℕ → ℕ → Store → List PhaseTimerEntry × Store
  list_due now limit s =
      let members = zrangebyscore now limit s in
      (keep (λ m. not (is_invalid m)) members, zrem_if_any (keep is_invalid members) s)

  unfoldable pub complete : PhaseTimerEntry → Store → Store
  complete entry s = zrem (entry ∷ []) s
