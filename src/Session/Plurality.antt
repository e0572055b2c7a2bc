-- ===== src/Session/Plurality.antt =====
-- Who is executed: the player with strictly more votes than any other, in whatever order
-- `localeCompare` puts the names.
use mafia_casefile.Prelude.{
  ℕ, ◌+◌, ◌≤◌, ◌<◌, ◌≡◌, ◌≢◌, ◌↔◌, refl, sym, subst, ap, ◌∙◌, String, false, some, List, [], ◌∷◌,
  Dict, lookup, insert, values, All, All-map_mono, arith, eq_iff, ◌==◌, Bool-cases, inl, inr,
  text_cases, eq_self, eq_ne, eqb,
}
use mafia_casefile.Shared.{Env}
use mafia_casefile.Session.Tally.{
  VoteTallyEntry, count_of, count_votes, entries, comes_after, sort_insert, sort,
  calculate_vote_tally, select_vote_winner,
}
use mafia_casefile.Session.Ballots.{
  votes_for, weight, Unlisted, Separate, Descends, count_of-count_votes, select_vote_winner-head,
  select_vote_winner-Targets, calculate_vote_tally-Targets, weight-sort, sort-Separate,
}

entries-insert-Unlisted :
    (id k : String) (n : ℕ) (d : Dict ℕ)
    → (k == id) ≡ false
    → Unlisted id (entries d)
    → Unlisted id (entries (insert k n d))
unfolding insert entries
entries-insert-Unlisted id k n [] h hd = (h, tt)
entries-insert-Unlisted id k n ((j, m) ∷ d) h hd = elim (Bool-cases (j == k)) [
  | inl e ↦ rw e hd
  | inr e ↦ rw e (hd.0, entries-insert-Unlisted id k n d h hd.1)
]

entries-insert-Separate :
    (k : String) (n : ℕ) (d : Dict ℕ) → Separate (entries d) → Separate (entries (insert k n d))
unfolding insert entries
entries-insert-Separate k n [] h = (tt, tt)
entries-insert-Separate k n ((j, m) ∷ d) h = elim (Bool-cases (j == k)) [
  | inl e ↦ rw e h
  | inr e ↦ rw e (
    entries-insert-Unlisted j k n d (ground (arith, eq_iff j k, eq_iff k j)) h.0,
    entries-insert-Separate k n d h.1,
  )
]

count_votes-Separate :
    (votes : List String) (d : Dict ℕ)
    → Separate (entries d)
    → Separate (entries (count_votes votes d))
unfolding count_votes
count_votes-Separate [] d h = h
count_votes-Separate (v ∷ vs) d h =
    count_votes-Separate vs _ (entries-insert-Separate v (count_of v d + 1) d h)

weight-Unlisted : (id : String) (es : List VoteTallyEntry) → Unlisted id es → weight id es ≡ 0
weight-Unlisted id [] h = refl
weight-Unlisted id (e ∷ es) h = rw h.0 (weight-Unlisted id es h.1)

weight-entries :
    (id : String) (d : Dict ℕ) → Separate (entries d) → weight id (entries d) ≡ count_of id d
unfolding entries count_of lookup
weight-entries id [] h = refl
weight-entries id ((j, n) ∷ d) h = elim (text_cases j id) [
  | inl (e, t) ↦
      let others = weight-Unlisted id (entries d) (subst (λ x. Unlisted x (entries d)) e h.0) in
      ground arith
  | inr (e, t) ↦ ground (arith, weight-entries id d h.1)
]

-- The tally gives each player exactly the votes cast for them.
pub weight-calculate_vote_tally :
    (env : Env) (votes : Dict String) (id : String)
    → weight id (calculate_vote_tally env votes) ≡ votes_for id (values votes)
unfolding calculate_vote_tally entries
weight-calculate_vote_tally env votes id =
    rw
      (
        weight-sort env id,
        weight-entries id (count_votes (values votes) [])
            (count_votes-Separate (values votes) [] tt),
        count_of-count_votes id (values votes) [],
      )
      (unfold count_of lookup in omega arith)

pub calculate_vote_tally-Separate :
    (env : Env) (votes : Dict String) → Separate (calculate_vote_tally env votes)
unfolding calculate_vote_tally entries
calculate_vote_tally-Separate env votes =
    sort-Separate env _ (count_votes-Separate (values votes) [] tt)

abbrev pub Sorted : List VoteTallyEntry → Type 0
Sorted [] = Unit
Sorted (e ∷ es) = Descends e.count es

sort_insert-Descends :
    (env : Env) (top : ℕ) (e : VoteTallyEntry) (es : List VoteTallyEntry)
    → e.count ≤ top
    → Descends top es
    → Descends top (sort_insert env e es)
unfolding sort_insert comes_after
sort_insert-Descends env top e [] h hs = (h, tt)
sort_insert-Descends env top e (f ∷ fs) h hs = ground (arith, sort_insert-Descends env f.count e fs)

sort_insert-Sorted :
    (env : Env) (e : VoteTallyEntry) (es : List VoteTallyEntry)
    → Sorted es
    → Sorted (sort_insert env e es)
unfolding sort_insert comes_after
sort_insert-Sorted env e [] h = tt
sort_insert-Sorted env e (f ∷ fs) h = ground (arith, sort_insert-Descends env f.count e fs)

sort-Sorted : (env : Env) (es : List VoteTallyEntry) → Sorted (sort env es)
unfolding sort
sort-Sorted env [] = tt
sort-Sorted env (e ∷ es) = sort_insert-Sorted env e (sort env es) (sort-Sorted env es)

pub calculate_vote_tally-Sorted :
    (env : Env) (votes : Dict String) → Sorted (calculate_vote_tally env votes)
unfolding calculate_vote_tally
calculate_vote_tally-Sorted env votes = sort-Sorted env (entries (count_votes (values votes) []))

weight-le :
    (id : String) (top : ℕ) (es : List VoteTallyEntry)
    → Descends top es
    → Separate es
    → weight id es ≤ top
weight-le id top [] h s = omega arith
weight-le id top (e ∷ es) h s = elim (text_cases e.target_user_id id) [
  | inl (q, t) ↦ rw (t, weight-Unlisted id es (subst (λ x. Unlisted x es) q s.0)) (omega arith)
  | inr (q, t) ↦ rw t (omega (arith, weight-le id e.count es h.1 s.1))
]

-- Strictly more votes than anybody else.
abbrev pub Wins : String → List String → Type 0
Wins id votes =
    (0 < votes_for id votes)
    × ((other : String) → other ≢ id → votes_for other votes < votes_for id votes)

-- Everybody who was voted for has a vote.
votes_for_pos : (votes : List String) → All (λ v. 0 < votes_for v votes) votes
votes_for_pos [] = tt
votes_for_pos (v ∷ vs) =
    (rw (eq_self v) (omega arith), All-map_mono _ _ (λ w h. ground arith) vs (votes_for_pos vs))

-- A winner that is not alone has more votes than the next entry.
select_vote_winner_ahead :
    (f g : VoteTallyEntry) (es : List VoteTallyEntry) (id : String)
    → select_vote_winner (f ∷ g ∷ es) ≡ some id
    → g.count ≤ f.count
    → g.count < f.count
unfolding select_vote_winner
select_vote_winner_ahead f g es id e h = ground arith

-- The winner of a sorted tally of separate entries has more weight than anybody else.
winner_outweighs :
    (es : List VoteTallyEntry) (id other : String)
    → Sorted es
    → Separate es
    → select_vote_winner es ≡ some id
    → 0 < weight id es
    → other ≢ id
    → weight other es < weight id es
winner_outweighs [] id other o s e pos ne = absurd (omega arith)
winner_outweighs (f ∷ []) id other o s e pos ne =
    ground (arith, select_vote_winner-head f [] id e, eq_iff f.target_user_id other)
winner_outweighs (f ∷ g ∷ es) id other o s e pos ne =
    rw (eq_ne f.target_user_id other (λ q. ne (sym q ∙ head)), (eq_iff f.target_user_id id).1 head)
      (omega (
        arith,
        select_vote_winner_ahead f g es id e o.0,
        weight-le other g.count (g ∷ es) (omega arith, o.1) s.1,
      ))
  where
    head : f.target_user_id ≡ id
    head = select_vote_winner-head f (g ∷ es) id e

-- Whoever outweighs all others comes first.
outweighing_head :
    (f : VoteTallyEntry) (es : List VoteTallyEntry) (id : String)
    → Descends f.count es
    → Separate es
    → ((other : String) → other ≢ id → weight other (f ∷ es) < weight id (f ∷ es))
    → f.target_user_id ≡ id
outweighing_head f es id o s h = elim (text_cases f.target_user_id id) [
  | inl (q, t) ↦ q
  | inr (n, t) ↦ absurd (
      omega (
        arith,
        rw (t, eq_self f.target_user_id) at (h f.target_user_id n),
        weight-le id f.count es o s,
      ))
]

outweighing_wins :
    (es : List VoteTallyEntry) (id : String)
    → Sorted es
    → Separate es
    → 0 < weight id es
    → ((other : String) → other ≢ id → weight other es < weight id es)
    → select_vote_winner es ≡ some id
unfolding select_vote_winner
outweighing_wins [] id o s pos h = absurd (omega arith)
outweighing_wins (f ∷ []) id o s pos h = ap some (outweighing_head f [] id o tt h)
outweighing_wins (f ∷ g ∷ es) id o s pos h = elim (Bool-cases (eqb g.count f.count)) [
  | inl t ↦ absurd (
      ground (
        arith,
        h g.target_user_id,
        head,
        weight-Unlisted id (g ∷ es) (subst (λ x. Unlisted x (g ∷ es)) head s.0),
        eq_iff g.target_user_id f.target_user_id,
        eq_iff f.target_user_id g.target_user_id,
        eq_iff g.target_user_id g.target_user_id,
        eq_iff f.target_user_id id,
      ))
  | inr t ↦ rw t (ap some head)
]
  where
    head : f.target_user_id ≡ id
    head = outweighing_head f (g ∷ es) id o s.1 h

-- A player wins the tally of some votes exactly when strictly more votes are for them than for any
-- other; with a tie at the top, or without votes, nobody does.
pub select_vote_winner-Wins :
    (env : Env) (votes : Dict String) (id : String)
    → (select_vote_winner (calculate_vote_tally env votes) ≡ some id) ↔ Wins id (values votes)
select_vote_winner-Wins env votes id = (
  λ e. (
    voted e,
    λ other ne.
        rw (← same other, ← same id)
          (winner_outweighs es id other sorted separate e (rw (same id) (voted e)) ne),
  ),
  λ w.
      outweighing_wins es id sorted separate (rw (same id) w.0)
        (λ other ne. rw (same other, same id) (w.1 other ne)),
)
  where
    es : List VoteTallyEntry
    es = calculate_vote_tally env votes

    same : (x : String) → weight x es ≡ votes_for x (values votes)
    same x = weight-calculate_vote_tally env votes x

    sorted : Sorted es
    sorted = calculate_vote_tally-Sorted env votes

    separate : Separate es
    separate = calculate_vote_tally-Separate env votes

    voted : select_vote_winner es ≡ some id → 0 < votes_for id (values votes)
    voted e =
        select_vote_winner-Targets (λ v. 0 < votes_for v (values votes)) es id
          (calculate_vote_tally-Targets (λ v. 0 < votes_for v (values votes)) env votes
            (votes_for_pos (values votes)))
          e
