-- ===== src/Events/Timeline.antt =====
-- The numbers of the log: each game's events are numbered from 1 in the order of their recording,
-- and the timeline shows them in that order.
use mafia_casefile.Prelude.{
  ℕ, suc, ◌+◌, ◌≡◌, refl, ap, sym, ◌∙◌, String, Bool, true, false, List, [], ◌∷◌, ◌++◌, arith, keep,
  All-append, max, leb, length, All, ◌==◌, eq_iff, Bool-cases, inl, inr,
}
use mathlib.Core.List.{append-nil, append_assoc}
use mafia_casefile.Events.{
  RecordEventInput, GameEventLog, is_of, max_seq, record_event, insert_by_seq, sort_by_seq,
  get_timeline,
}

-- The log after recording some events in turn.
unfoldable pub record_all : List RecordEventInput → List GameEventLog → List GameEventLog
record_all [] rows = rows
record_all (input ∷ inputs) rows = record_all inputs (record_event input rows)

abbrev pub is_in : String → RecordEventInput → Bool
is_in game_id input = input.game_id == game_id

-- The rows with these events, numbered upwards from the first number.
abbrev pub numbered : ℕ → List RecordEventInput → List GameEventLog
numbered n [] = []
numbered n (input ∷ inputs) = record { event = input; seq = n } ∷ numbered (suc n) inputs

numbered-append :
    (n : ℕ) (xs : List RecordEventInput) (input : RecordEventInput)
    → numbered n (xs ++ input ∷ [])
      ≡ numbered n xs ++ record { event = input; seq = n + length xs } ∷ []
numbered-append n [] input = ap (λ m. record { event = input; seq = m } ∷ []) (omega arith)
numbered-append n (x ∷ xs) input =
    ap (λ rows. record { event = x; seq = n } ∷ rows)
      (numbered-append (suc n) xs input
        ∙ ap (λ m. numbered (suc n) xs ++ record { event = input; seq = m } ∷ []) (omega arith))

keep-append :
    {A : Type 0} (p : A → Bool) (xs ys : List A) → keep p (xs ++ ys) ≡ keep p xs ++ keep p ys
keep-append p [] ys = refl
keep-append p (x ∷ xs) ys = elim (Bool-cases (p x)) [
  | inl e ↦ rw e (ap (λ zs. x ∷ zs) (keep-append p xs ys))
  | inr e ↦ rw e (keep-append p xs ys)
]

max_seq-own :
    (game_id : String) (row : GameEventLog) (rows : List GameEventLog)
    → is_of game_id row ≡ true
    → max_seq game_id (row ∷ rows) ≡ max row.seq (max_seq game_id rows)
unfolding max_seq
max_seq-own game_id row rows e = rw e refl

max_seq-other :
    (game_id : String) (row : GameEventLog) (rows : List GameEventLog)
    → is_of game_id row ≡ false
    → max_seq game_id (row ∷ rows) ≡ max_seq game_id rows
unfolding max_seq
max_seq-other game_id row rows e = rw e refl

-- The largest number of a game is that among its own rows.
max_seq-keep :
    (game_id : String) (rows : List GameEventLog)
    → max_seq game_id rows ≡ max_seq game_id (keep (is_of game_id) rows)
max_seq-keep game_id [] = refl
max_seq-keep game_id (row ∷ rows) = elim (Bool-cases (is_of game_id row)) [
  | inl e ↦ rw e (
      max_seq-own game_id row rows e
      ∙ ap (max row.seq) (max_seq-keep game_id rows)
      ∙ sym (max_seq-own game_id row (keep (is_of game_id) rows) e))
  | inr e ↦ rw e (max_seq-other game_id row rows e ∙ max_seq-keep game_id rows)
]

max_seq-nil : (game_id : String) → max_seq game_id [] ≡ 0
unfolding max_seq
max_seq-nil game_id = refl

max_seq-numbered_cons :
    (game_id : String) (n : ℕ) (x : RecordEventInput) (xs : List RecordEventInput)
    → All (λ x. is_in game_id x ≡ true) (x ∷ xs)
    → max_seq game_id (numbered (suc n) (x ∷ xs)) ≡ n + suc (length xs)
max_seq-numbered_cons game_id n x [] h =
    max_seq-own game_id _ [] h.0 ∙ ground (arith, max_seq-nil game_id)
max_seq-numbered_cons game_id n x (y ∷ xs) h =
    max_seq-own game_id _ (numbered (suc (suc n)) (y ∷ xs)) h.0
    ∙ ap (max (suc n)) (max_seq-numbered_cons game_id (suc n) y xs h.1)
    ∙ ground arith

max_seq-numbered :
    (game_id : String) (xs : List RecordEventInput)
    → All (λ x. is_in game_id x ≡ true) xs
    → max_seq game_id (numbered 1 xs) ≡ length xs
unfolding max_seq
max_seq-numbered game_id [] h = refl
max_seq-numbered game_id (x ∷ xs) h = max_seq-numbered_cons game_id 0 x xs h ∙ omega arith

All-keep : {A : Type 0} (p : A → Bool) (xs : List A) → All (λ x. p x ≡ true) (keep p xs)
All-keep p [] = tt
All-keep p (x ∷ xs) = elim (Bool-cases (p x)) [
  | inl e ↦ rw e (e, All-keep p xs)
  | inr e ↦ rw e (All-keep p xs)
]

-- Recording an event gives its game the next number, and leaves the other games' rows alone.
keep-record_event :
    (game_id : String) (input : RecordEventInput) (rows : List GameEventLog)
    (xs : List RecordEventInput)
    → All (λ x. is_in game_id x ≡ true) xs
    → keep (is_of game_id) rows ≡ numbered 1 xs
    → keep (is_of game_id) (record_event input rows)
      ≡ numbered 1 (xs ++ keep (is_in game_id) (input ∷ []))
unfolding record_event
keep-record_event game_id input rows xs h e = elim (Bool-cases (is_in game_id input)) [
  | inl same ↦
      let row : GameEventLog = record { event = input; seq = max_seq input.game_id rows + 1 } in
      let next : max_seq input.game_id rows + 1 ≡ 1 + length xs =
        rw
          (
            (eq_iff input.game_id game_id).0 same,
            max_seq-keep game_id rows,
            e,
            max_seq-numbered game_id xs h,
          )
          (omega arith) in
      keep-append (is_of game_id) rows (row ∷ [])
      ∙ rw (same, e)
          (ap (λ m. numbered 1 xs ++ record { event = input; seq = m } ∷ []) next
            ∙ sym (numbered-append 1 xs input))
  | inr other ↦
      let row : GameEventLog = record { event = input; seq = max_seq input.game_id rows + 1 } in
      keep-append (is_of game_id) rows (row ∷ [])
      ∙ rw (other, e) (append-nil (numbered 1 xs) ∙ sym (ap (numbered 1) (append-nil xs)))
]

get-record_all :
    (game_id : String) (inputs : List RecordEventInput) (rows : List GameEventLog)
    (xs : List RecordEventInput)
    → All (λ x. is_in game_id x ≡ true) xs
    → keep (is_of game_id) rows ≡ numbered 1 xs
    → keep (is_of game_id) (record_all inputs rows) ≡ numbered 1 (xs ++ keep (is_in game_id) inputs)
unfolding record_all
get-record_all game_id [] rows xs h e = e ∙ sym (ap (numbered 1) (append-nil xs))
get-record_all game_id (input ∷ inputs) rows xs h e =
    let own = keep (is_in game_id) (input ∷ []) in
    get-record_all game_id inputs (record_event input rows) (xs ++ own)
      (All-append (λ x. is_in game_id x ≡ true) xs own h (All-keep (is_in game_id) (input ∷ [])))
      (keep-record_event game_id input rows xs h e)
    ∙ ap (numbered 1) (
        append_assoc xs own (keep (is_in game_id) inputs)
        ∙ ap (λ ys. xs ++ ys) (sym (keep-append (is_in game_id) (input ∷ []) inputs)))

-- Numbered rows are in order already.
sort_by_seq-numbered :
    (n : ℕ) (xs : List RecordEventInput) → sort_by_seq (numbered n xs) ≡ numbered n xs
unfolding sort_by_seq insert_by_seq
sort_by_seq-numbered n [] = refl
sort_by_seq-numbered n (x ∷ []) = refl
sort_by_seq-numbered n (x ∷ y ∷ xs) =
    ap (insert_by_seq (record { event = x; seq = n })) (sort_by_seq-numbered (suc n) (y ∷ xs))
    ∙ (let ordered : leb n (suc n) ≡ true = ground arith in rw ordered refl)

-- Whatever events are recorded, of however many games: the timeline service gives for each game its
-- own events, in the order of their recording, numbered 1, 2, 3 and so on without a gap.
pub get_timeline-record_all :
    (game_id : String) (inputs : List RecordEventInput)
    → get_timeline game_id (record_all inputs []) ≡ numbered 1 (keep (is_in game_id) inputs)
unfolding get_timeline
get_timeline-record_all game_id inputs =
    ap sort_by_seq (get-record_all game_id inputs [] [] tt refl)
    ∙ sort_by_seq-numbered 1 (keep (is_in game_id) inputs)
