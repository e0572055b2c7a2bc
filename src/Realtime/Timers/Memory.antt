-- ===== src/Realtime/Timers/Memory.antt =====
-- An instance of `SortedSet`, which keeps its members in a list.
use mafia_casefile.Prelude.{
  ℕ, zero, suc, ◌≤◌, ◌≡◌, refl, ap, ◌⊎◌, inl, inr, Bool, true, false, Option, none, some, List, [],
  ◌∷◌, keep, any, length, leb, if◌then◌else◌, Bool-cases, Option-cases, arith,
}
use mafia_casefile.Realtime.Timers.{PhaseTimerEntry, entry_eq, SortedSet}
use mafia_casefile.Realtime.Timers.Deadlines.{any-keep, entry_eq-path}

abbrev pub Members : Type 0
Members = List (PhaseTimerEntry × ℕ)

unfoldable pub score_in : PhaseTimerEntry → Members → Option ℕ
score_in e [] = none
score_in e ((m, n) ∷ s) = let rest = score_in e s in if entry_eq m e then some n else rest

unfoldable pub without : List PhaseTimerEntry → Members → Members
without vs [] = []
without vs ((m, n) ∷ s) =
    let rest = without vs s in if any (λ v. entry_eq v m) vs then rest else (m, n) ∷ rest

unfoldable pub members_of : Members → List PhaseTimerEntry
members_of [] = []
members_of ((m, n) ∷ s) = m ∷ members_of s

unfoldable pub is_due : ℕ → Members → PhaseTimerEntry → Bool
is_due max s m = elim (score_in m s) [ none ↦ false | some n ↦ leb n max ]

unfoldable pub take : ℕ → List PhaseTimerEntry → List PhaseTimerEntry
take zero ms = []
take (suc n) [] = []
take (suc n) (m ∷ ms) = m ∷ take n ms

pub score_in-without :
    (vs : List PhaseTimerEntry) (e : PhaseTimerEntry) (s : Members)
    → score_in e (without vs s) ≡ (if any (λ v. entry_eq v e) vs then none else score_in e s)
unfolding score_in without
score_in-without vs e [] = ground arith
score_in-without vs e ((m, n) ∷ s) = elim (Bool-cases (entry_eq m e)) [
  | inl same ↦
      let agree : any (λ v. entry_eq v m) vs ≡ any (λ v. entry_eq v e) vs =
        ap (λ x. any (λ v. entry_eq v x) vs) (entry_eq-path m e same) in
      ground (arith, score_in-without vs e s)
  | inr differs ↦ ground (arith, score_in-without vs e s)
]

pub score_in-add :
    (n : ℕ) (v e : PhaseTimerEntry) (s : Members)
    → score_in e ((v, n) ∷ without (v ∷ []) s) ≡ (if entry_eq v e then some n else score_in e s)
unfolding score_in
score_in-add n v e s = ground (arith, score_in-without (v ∷ []) e s)

pub members_of-all :
    (e : PhaseTimerEntry) (n : ℕ) (s : Members)
    → score_in e s ≡ some n
    → any (λ v. entry_eq v e) (members_of s) ≡ true
unfolding score_in members_of
members_of-all e n [] h = ground arith
members_of-all e n ((m, k) ∷ s) h = elim (Bool-cases (entry_eq m e)) [
  | inl same ↦ ground arith
  | inr differs ↦
      let found : score_in e s ≡ some n = ground arith in ground (arith, members_of-all e n s found)
]

any-take :
    (e : PhaseTimerEntry) (n : ℕ) (ms : List PhaseTimerEntry)
    → any (λ v. entry_eq v e) (take n ms) ≡ true
    → any (λ v. entry_eq v e) ms ≡ true
unfolding take
any-take e zero ms h = ground arith
any-take e (suc n) [] h = h
any-take e (suc n) (m ∷ ms) h = elim (Bool-cases (entry_eq m e)) [
  | inl same ↦ ground arith
  | inr differs ↦
      let later : any (λ v. entry_eq v e) (take n ms) ≡ true = ground arith in
      ground (arith, any-take e n ms later)
]

take-any :
    (e : PhaseTimerEntry) (n : ℕ) (ms : List PhaseTimerEntry)
    → any (λ v. entry_eq v e) ms ≡ true
    → (any (λ v. entry_eq v e) (take n ms) ≡ true) ⊎ (length (take n ms) ≡ n)
unfolding take
take-any e zero ms h = inr refl
take-any e (suc n) [] h = inl h
take-any e (suc n) (m ∷ ms) h = elim (Bool-cases (entry_eq m e)) [
  | inl same ↦ inl (ground arith)
  | inr differs ↦ elim (take-any e n ms (ground arith)) [
    | inl there ↦ inl (ground arith)
    | inr full ↦ inr (ap suc full)
  ]
]

pub zrangebyscore_in-due :
    (max limit : ℕ) (e : PhaseTimerEntry) (s : Members)
    → any (λ v. entry_eq v e) (take limit (keep (is_due max s) (members_of s))) ≡ true
    → (n : ℕ) × ((score_in e s ≡ some n) × (n ≤ max))
unfolding is_due
zrangebyscore_in-due max limit e s h =
    let listed = any-take e limit (keep (is_due max s) (members_of s)) h in
    let passes = any-keep (is_due max s) e (members_of s) in
    elim (Option-cases (score_in e s)) [
      | inl absent ↦ absurd (ground arith)
      | inr (n, found) ↦ (n, (found, ground arith))
    ]

pub zrangebyscore_in-all :
    (max limit : ℕ) (e : PhaseTimerEntry) (n : ℕ) (s : Members)
    → score_in e s ≡ some n
    → n ≤ max
    → (any (λ v. entry_eq v e) (take limit (keep (is_due max s) (members_of s))) ≡ true)
      ⊎ (length (take limit (keep (is_due max s) (members_of s))) ≡ limit)
unfolding is_due
zrangebyscore_in-all max limit e n s found due =
    let there = members_of-all e n s found in
    let passes = any-keep (is_due max s) e (members_of s) in
    take-any e limit (keep (is_due max s) (members_of s)) (ground arith)

abbrev pub memory_timers : SortedSet
memory_timers = record {
  Store = Members;
  score = score_in;
  zadd = λ n v s. (v, n) ∷ without (v ∷ []) s;
  zrem = without;
  zrange = members_of;
  zrangebyscore = λ max limit s. take limit (keep (is_due max s) (members_of s));
  score-zadd = score_in-add;
  score-zrem = score_in-without;
  zrange-all = members_of-all;
  zrangebyscore-due = zrangebyscore_in-due;
  zrangebyscore-all = zrangebyscore_in-all;
}
