-- ===== src/Session/Ballots.antt =====
-- The vote tally against an independent count: one entry for each target that was voted for, with
-- its number of votes, sorted by that number.
use mafia_casefile.Prelude.{
  ℕ, ◌+◌, ◌≤◌, ◌≡◌, refl, String, false, some, List, [], ◌∷◌, Dict, insert, lookup-insert, values,
  All, arith, eq_iff, ◌==◌, if◌then◌else◌, Bool-cases, subst, inl, inr, text_cases, tally,
}
use mafia_casefile.Shared.{Env}
use mafia_casefile.Session.Tally.{
  VoteTallyEntry, count_of, count_votes, entries, comes_after, sort_insert, sort,
  calculate_vote_tally, select_vote_winner,
}

-- How many of the votes are for `id`: the specification.
abbrev pub votes_for : String → List String → ℕ
votes_for id votes = tally (λ v. v == id) votes

-- The votes that the entries of a tally give to `id`.
abbrev pub weight : String → List VoteTallyEntry → ℕ
weight id [] = 0
weight id (e ∷ es) =
    let rest = weight id es in if e.target_user_id == id then e.count + rest else rest

-- No entry of the list is for `id`.
abbrev pub Unlisted : String → List VoteTallyEntry → Type 0
Unlisted id [] = Unit
Unlisted id (e ∷ es) = ((e.target_user_id == id) ≡ false) × Unlisted id es

abbrev pub Separate : List VoteTallyEntry → Type 0
Separate [] = Unit
Separate (e ∷ es) = Unlisted e.target_user_id es × Separate es

-- The counts do not rise, and start at `top` at most.
abbrev pub Descends : ℕ → List VoteTallyEntry → Type 0
Descends top [] = Unit
Descends top (e ∷ es) = (e.count ≤ top) × Descends e.count es

count_of-insert :
    (k j : String) (n : ℕ) (d : Dict ℕ)
    → count_of j (insert k n d) ≡ (if k == j then n else count_of j d)
unfolding count_of
count_of-insert k j n d = ground (arith, lookup-insert k j n d)

pub count_of-count_votes :
    (id : String) (votes : List String) (d : Dict ℕ)
    → count_of id (count_votes votes d) ≡ count_of id d + votes_for id votes
unfolding count_votes
count_of-count_votes id [] d = omega arith
count_of-count_votes id (v ∷ vs) d =
    rw (count_of-count_votes id vs (insert v (count_of v d + 1) d)) (
      rw (count_of-insert v id (count_of v d + 1) d) (elim (text_cases v id) [
        | inl (e, t) ↦ rw t (rw e (omega arith))
        | inr (n, t) ↦ rw t (omega arith)
      ]))

-- Whoever is chosen is the target of the first entry.
pub select_vote_winner-head :
    (f : VoteTallyEntry) (es : List VoteTallyEntry) (id : String)
    → select_vote_winner (f ∷ es) ≡ some id
    → f.target_user_id ≡ id
unfolding select_vote_winner
select_vote_winner-head f [] id e = ground arith
select_vote_winner-head f (g ∷ es) id e = ground arith

-- Every entry's target satisfies what all votes satisfy.
module _ {ℓ} (P : String → Type ℓ) where
  abbrev Keys : Dict ℕ → Type ℓ
  Keys [] = Unit
  Keys ((id, n) ∷ d) = P id × Keys d

  insert-Keys : (k : String) (n : ℕ) (d : Dict ℕ) → P k → Keys d → Keys (insert k n d)
  unfolding insert
  insert-Keys k n [] h hd = (h, tt)
  insert-Keys k n ((j, m) ∷ d) h hd = elim (Bool-cases (j == k)) [
    | inl e ↦ rw e hd
    | inr e ↦ rw e (hd.0, insert-Keys k n d h hd.1)
  ]

  count_votes-Keys :
      (votes : List String) (d : Dict ℕ) → All P votes → Keys d → Keys (count_votes votes d)
  unfolding count_votes
  count_votes-Keys [] d h hd = hd
  count_votes-Keys (v ∷ vs) d h hd =
      count_votes-Keys vs (insert v (count_of v d + 1) d) h.1
        (insert-Keys v (count_of v d + 1) d h.0 hd)

  abbrev pub Targets : List VoteTallyEntry → Type ℓ
  Targets es = All (λ e. P e.target_user_id) es

  entries-Targets : (d : Dict ℕ) → Keys d → Targets (entries d)
  unfolding entries
  entries-Targets [] h = tt
  entries-Targets ((id, n) ∷ d) h = (h.0, entries-Targets d h.1)

  sort_insert-Targets :
      (env : Env) (e : VoteTallyEntry) (es : List VoteTallyEntry)
      → P e.target_user_id
      → Targets es
      → Targets (sort_insert env e es)
  unfolding sort_insert
  sort_insert-Targets env e [] h hs = (h, tt)
  sort_insert-Targets env e (f ∷ fs) h hs = elim (Bool-cases (comes_after env e f)) [
    | inl c ↦ rw c (hs.0, sort_insert-Targets env e fs h hs.1)
    | inr c ↦ rw c (h, hs)
  ]

  sort-Targets : (env : Env) (es : List VoteTallyEntry) → Targets es → Targets (sort env es)
  unfolding sort
  sort-Targets env [] h = tt
  sort-Targets env (e ∷ es) h =
      sort_insert-Targets env e (sort env es) h.0 (sort-Targets env es h.1)

  pub calculate_vote_tally-Targets :
      (env : Env) (votes : Dict String)
      → All P (values votes)
      → Targets (calculate_vote_tally env votes)
  unfolding calculate_vote_tally
  calculate_vote_tally-Targets env votes h =
      sort-Targets env _ (entries-Targets _ (count_votes-Keys (values votes) [] h tt))

  pub select_vote_winner-Targets :
      (es : List VoteTallyEntry) (id : String) → Targets es → select_vote_winner es ≡ some id → P id
  unfolding select_vote_winner
  select_vote_winner-Targets [] id h e = cc
  select_vote_winner-Targets (f ∷ es) id h e = subst P (select_vote_winner-head f es id e) h.0

-- The sort keeps the weight of each target, keeps the targets apart, and orders the counts.
module _ (env : Env) where
  weight-sort_insert :
      (id : String) (e : VoteTallyEntry) (es : List VoteTallyEntry)
      → weight id (sort_insert env e es) ≡ weight id (e ∷ es)
  unfolding sort_insert
  weight-sort_insert id e [] = refl
  weight-sort_insert id e (f ∷ fs) = ground (arith, weight-sort_insert id e fs)

  pub weight-sort :
      (id : String) (es : List VoteTallyEntry) → weight id (sort env es) ≡ weight id es
  unfolding sort
  weight-sort id [] = refl
  weight-sort id (e ∷ es) =
      rw (weight-sort_insert id e (sort env es)) (ground (arith, weight-sort id es))

  sort_insert-Unlisted :
      (id : String) (e : VoteTallyEntry) (es : List VoteTallyEntry)
      → (e.target_user_id == id) ≡ false
      → Unlisted id es
      → Unlisted id (sort_insert env e es)
  unfolding sort_insert
  sort_insert-Unlisted id e [] h hs = (h, tt)
  sort_insert-Unlisted id e (f ∷ fs) h hs = elim (Bool-cases (comes_after env e f)) [
    | inl c ↦ rw c (hs.0, sort_insert-Unlisted id e fs h hs.1)
    | inr c ↦ rw c (h, hs)
  ]

  sort_insert-Separate :
      (e : VoteTallyEntry) (es : List VoteTallyEntry)
      → Unlisted e.target_user_id es
      → Separate es
      → Separate (sort_insert env e es)
  unfolding sort_insert
  sort_insert-Separate e [] h hs = (tt, tt)
  sort_insert-Separate e (f ∷ fs) h hs = elim (Bool-cases (comes_after env e f)) [
    | inl c ↦ rw c (
      sort_insert-Unlisted f.target_user_id e fs
          (ground (
            arith,
            eq_iff e.target_user_id f.target_user_id,
            eq_iff f.target_user_id e.target_user_id,
          ))
          hs.0,
      sort_insert-Separate e fs h.1 hs.1,
    )
    | inr c ↦ rw c (h, hs)
  ]

  sort-Unlisted :
      (id : String) (es : List VoteTallyEntry) → Unlisted id es → Unlisted id (sort env es)
  unfolding sort
  sort-Unlisted id [] h = tt
  sort-Unlisted id (e ∷ es) h =
      sort_insert-Unlisted id e (sort env es) h.0 (sort-Unlisted id es h.1)

  pub sort-Separate : (es : List VoteTallyEntry) → Separate es → Separate (sort env es)
  unfolding sort
  sort-Separate [] h = tt
  sort-Separate (e ∷ es) h =
      sort_insert-Separate e (sort env es) (sort-Unlisted e.target_user_id es h.0)
        (sort-Separate es h.1)
