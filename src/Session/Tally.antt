-- ===== src/Session/Tally.antt =====
-- apps/api/src/game-session/game-session.service.ts: counting votes and choosing who is executed.
use mafia_casefile.Prelude.{
  ℕ, ◌+◌, String, Bool, not, Option, none, some, List, [], ◌∷◌, Dict, lookup, insert, values, eqb,
  ltb, if◌then◌else◌,
}
use mafia_casefile.Shared.{Env}

pub record VoteTallyEntry : Type 0 where
  pub target_user_id : String
  pub count : ℕ

-- `counts.get(targetUserId) ?? 0`
unfoldable pub count_of : String → Dict ℕ → ℕ
count_of id counts = elim (lookup id counts) [ none ↦ 0 | some n ↦ n ]

-- the loop over `Object.values(session.votes)`
unfoldable pub count_votes : List String → Dict ℕ → Dict ℕ
count_votes [] counts = counts
count_votes (target ∷ targets) counts =
    count_votes targets (insert target (count_of target counts + 1) counts)

unfoldable pub entries : Dict ℕ → List VoteTallyEntry
entries [] = []
entries ((id, n) ∷ d) = record { target_user_id = id; count = n } ∷ entries d

-- The comparator of the sort is positive: `left` comes after `right`.
unfoldable pub comes_after : Env → VoteTallyEntry → VoteTallyEntry → Bool
comes_after env left right =
    if not (eqb right.count left.count)
    then ltb left.count right.count
    else env.locale_after left.target_user_id right.target_user_id

-- `Array.prototype.sort` is stable, so insertion from the back gives its result.
unfoldable pub sort_insert : Env → VoteTallyEntry → List VoteTallyEntry → List VoteTallyEntry
sort_insert env e [] = e ∷ []
sort_insert env e (f ∷ fs) = if comes_after env e f then f ∷ sort_insert env e fs else e ∷ f ∷ fs

unfoldable pub sort : Env → List VoteTallyEntry → List VoteTallyEntry
sort env [] = []
sort env (e ∷ es) = sort_insert env e (sort env es)

unfoldable pub calculate_vote_tally : Env → Dict String → List VoteTallyEntry
calculate_vote_tally env votes = sort env (entries (count_votes (values votes) []))

unfoldable pub select_vote_winner : List VoteTallyEntry → Option String
select_vote_winner [] = none
select_vote_winner (first ∷ []) = some first.target_user_id
select_vote_winner (first ∷ second ∷ _) =
    if eqb second.count first.count then none else some first.target_user_id
