-- ===== src/Commands/Roles/Deals.antt =====
-- Shuffling rearranges a list, whatever is drawn, and dealing gives every participant one card.
use mafia_casefile.Prelude.{
  ℕ, zero, suc, ◌+◌, ◌-◌, ◌≤◌, ◌≡◌, refl, ap, ◌∙◌, String, Bool, some, List, [], ◌∷◌, arith, length,
  get_elem?, tally, if◌then◌else◌, Option-cases, inl, inr, ◌⊎◌, ◌==◌,
}
use mafia_casefile.Shared.{Role, mafia, citizen, doctor, police, role_eq}
use mafia_casefile.Rooms.{RoomParticipant}
use mafia_casefile.Rooms.Laws.{seated}
use mafia_casefile.Commands.Roles.{
  set, swap, shuffle_from, shuffle, RoleAssignment, citizens, role_pool, assign,
  build_role_assignments,
}

module _ {ℓ} {A : Type ℓ} where
  length-set : (xs : List A) (i : ℕ) (v : A) → length (set xs i v) ≡ length xs
  unfolding set
  length-set [] i v = refl
  length-set (x ∷ xs) zero v = refl
  length-set (x ∷ xs) (suc i) v = ap suc (length-set xs i v)

  -- A swap writes each of two members in the other's place, or does nothing out of range.
  swap-cases :
      (i j : ℕ) (xs : List A)
      → (swap i j xs ≡ xs)
        ⊎ ((a b : A) × (get_elem? xs i ≡ some a)
            × (get_elem? xs j ≡ some b)
            × (swap i j xs ≡ set (set xs i b) j a))
  unfolding swap
  swap-cases i j xs = elim (Option-cases (get_elem? xs i)) [
    | inl e ↦ inl (rw (e, swap))
    | inr (a, e) ↦ elim (Option-cases (get_elem? xs j)) [
      | inl f ↦ inl (rw (e, f, swap))
      | inr (b, f) ↦ inr (a, b, e, f, rw (e, f, swap))
    ]
  ]

  length-swap : (i j : ℕ) (xs : List A) → length (swap i j xs) ≡ length xs
  length-swap i j xs = elim (swap-cases i j xs) [
    | inl same ↦ ap length same
    | inr (a, b, e, f, both) ↦ ap length both ∙ length-set (set xs i b) j a ∙ length-set xs i b
  ]

  -- A write moves the count by the member that goes and the one that comes.
  tally-set :
      (p : A → Bool) (xs : List A) (i : ℕ) (a v : A)
      → get_elem? xs i ≡ some a
      → tally p (set xs i v) + (if p a then 1 else 0) ≡ tally p xs + (if p v then 1 else 0)
  unfolding set
  tally-set p [] i a v e = absurd (ground arith)
  tally-set p (x ∷ xs) zero a v e = ground arith
  tally-set p (x ∷ xs) (suc i) a v e = ground (arith, tally-set p xs i a v e)

  -- What stands at an index after a write elsewhere, or after a write of the same member.
  get_elem?-set :
      (xs : List A) (i j : ℕ) (b : A) → get_elem? xs j ≡ some b → get_elem? (set xs i b) j ≡ some b
  unfolding set
  get_elem?-set [] i j b e = e
  get_elem?-set (x ∷ xs) zero zero b e = refl
  get_elem?-set (x ∷ xs) zero (suc j) b e = e
  get_elem?-set (x ∷ xs) (suc i) zero b e = e
  get_elem?-set (x ∷ xs) (suc i) (suc j) b e = get_elem?-set xs i j b e

  tally-swap : (p : A → Bool) (i j : ℕ) (xs : List A) → tally p (swap i j xs) ≡ tally p xs
  tally-swap p i j xs = elim (swap-cases i j xs) [
    | inl same ↦ ap (tally p) same
    | inr (a, b, e, f, both) ↦
        ap (tally p) both
        ∙ omega (
          arith,
          tally-set p xs i a b e,
          tally-set p (set xs i b) j b a (get_elem?-set xs i j b f),
        )
  ]

  tally-shuffle_from :
      (p : A → Bool) (draw : ℕ → ℕ) (i : ℕ) (xs : List A)
      → tally p (shuffle_from draw i xs) ≡ tally p xs
  unfolding shuffle_from
  tally-shuffle_from p draw zero xs = refl
  tally-shuffle_from p draw (suc i) xs =
      tally-shuffle_from p draw i (swap (suc i) (draw (suc i)) xs)
      ∙ tally-swap p (suc i) (draw (suc i)) xs

  length-shuffle_from :
      (draw : ℕ → ℕ) (i : ℕ) (xs : List A) → length (shuffle_from draw i xs) ≡ length xs
  unfolding shuffle_from
  length-shuffle_from draw zero xs = refl
  length-shuffle_from draw (suc i) xs =
      length-shuffle_from draw i (swap (suc i) (draw (suc i)) xs)
      ∙ length-swap (suc i) (draw (suc i)) xs

  -- Whatever is drawn, a shuffle neither adds nor loses a member.
  pub tally-shuffle :
      (p : A → Bool) (draw : ℕ → ℕ) (xs : List A) → tally p (shuffle draw xs) ≡ tally p xs
  unfolding shuffle
  tally-shuffle p draw xs = tally-shuffle_from p draw (length xs - 1) xs

  pub length-shuffle : (draw : ℕ → ℕ) (xs : List A) → length (shuffle draw xs) ≡ length xs
  unfolding shuffle
  length-shuffle draw xs = length-shuffle_from draw (length xs - 1) xs

length-citizens : (n : ℕ) → length (citizens n) ≡ n
unfolding citizens
length-citizens zero = refl
length-citizens (suc n) = ap suc (length-citizens n)

-- How many of some assignments deal this role, and how many deal one to this id.
abbrev pub dealt : Role → List RoleAssignment → ℕ
dealt role cards = tally (λ a. role_eq a.role role) cards

abbrev pub dealt_to : String → List RoleAssignment → ℕ
dealt_to id cards = tally (λ a. a.user_id == id) cards

length-assign :
    (ps : List RoomParticipant) (rs : List Role)
    → length ps ≡ length rs
    → length (assign ps rs) ≡ length ps
unfolding assign
length-assign [] rs e = refl
length-assign (p ∷ ps) [] e = absurd (omega arith)
length-assign (p ∷ ps) (r ∷ rs) e = ap suc (length-assign ps rs (omega arith))

dealt-assign :
    (role : Role) (ps : List RoomParticipant) (rs : List Role)
    → length ps ≡ length rs
    → dealt role (assign ps rs) ≡ tally (λ r. role_eq r role) rs
unfolding assign
dealt-assign role [] [] e = refl
dealt-assign role [] (r ∷ rs) e = absurd (omega arith)
dealt-assign role (p ∷ ps) [] e = absurd (omega arith)
dealt-assign role (p ∷ ps) (r ∷ rs) e = ground (arith, dealt-assign role ps rs)

dealt_to-assign :
    (id : String) (ps : List RoomParticipant) (rs : List Role)
    → length ps ≡ length rs
    → dealt_to id (assign ps rs) ≡ seated id ps
unfolding assign
dealt_to-assign id [] rs e = refl
dealt_to-assign id (p ∷ ps) [] e = absurd (omega arith)
dealt_to-assign id (p ∷ ps) (r ∷ rs) e = ground (arith, dealt_to-assign id ps rs)

tally-citizens :
    (role : Role) (n : ℕ)
    → tally (λ r. role_eq r role) (citizens n) ≡ (if role_eq citizen role then n else 0)
unfolding citizens
tally-citizens role zero = ground arith
tally-citizens role (suc n) = ground (arith, tally-citizens role n)

-- A fair deal: each participant gets a card, and there is one mafia, one doctor, one police officer,
-- and a citizen for everybody else.
pub record IsDeal (ps : List RoomParticipant) (cards : List RoleAssignment) : Type 0 where
  pub to_each : (id : String) → dealt_to id cards ≡ seated id ps
  pub to_all : length cards ≡ length ps
  pub one_mafia : dealt mafia cards ≡ 1
  pub one_doctor : dealt doctor cards ≡ 1
  pub one_police : dealt police cards ≡ 1
  pub citizens_else : dealt citizen cards + 3 ≡ length ps

-- Whatever the two shuffles draw, at least three participants get a fair deal.
pub build_role_assignments-IsDeal :
    (seats cards : ℕ → ℕ) (ps : List RoomParticipant)
    → 3 ≤ length ps
    → IsDeal ps (build_role_assignments seats cards ps)
unfolding build_role_assignments
build_role_assignments-IsDeal seats cards ps three = record {
  to_each = λ id.
      dealt_to-assign id seated_ps roles enough ∙ tally-shuffle (λ p. p.user_id == id) seats ps;
  to_all = length-assign seated_ps roles enough ∙ length-shuffle seats ps;
  one_mafia = dealt_roles mafia ∙ ap (λ n. suc n) (tally-citizens mafia left_over);
  one_doctor = dealt_roles doctor ∙ ap (λ n. suc n) (tally-citizens doctor left_over);
  one_police = dealt_roles police ∙ ap (λ n. suc n) (tally-citizens police left_over);
  citizens_else = omega (
    arith,
    dealt_roles citizen,
    tally-citizens citizen left_over,
    length-shuffle seats ps,
    three,
  );
}
  where
    seated_ps : List RoomParticipant
    seated_ps = shuffle seats ps

    left_over : ℕ
    left_over = length seated_ps - 3

    roles : List Role
    roles = shuffle cards (role_pool (length seated_ps))

    enough : length seated_ps ≡ length roles
    enough = omega (
      arith,
      length-shuffle seats ps,
      length-shuffle cards (role_pool (length seated_ps)),
      length-citizens left_over,
      three,
    )

    dealt_roles :
        (role : Role)
        → dealt role (assign seated_ps roles)
          ≡ tally (λ r. role_eq r role) (role_pool (length seated_ps))
    dealt_roles role =
        dealt-assign role seated_ps roles enough
        ∙ tally-shuffle (λ r. role_eq r role) cards (role_pool (length seated_ps))
