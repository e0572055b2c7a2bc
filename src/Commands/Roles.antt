-- ===== src/Commands/Roles.antt =====
-- apps/api/src/game-commands/game-command.service.ts: shuffling, and who gets which role. A draw is
-- the function from an index to what `Math.floor(Math.random() * (index + 1))` gave for it.
pub mod Deals
use mafia_casefile.Prelude.{
  ℕ, zero, suc, ◌-◌, String, Option, none, some, List, [], ◌∷◌, length, get_elem?,
}
use mafia_casefile.Shared.{Role, mafia, citizen, doctor, police}
use mafia_casefile.Rooms.{RoomParticipant}

module _ {ℓ} {A : Type ℓ} where
  -- A write out of range, which does not occur, changes nothing.
  unfoldable pub set : List A → ℕ → A → List A
  set [] i v = []
  set (x ∷ xs) zero v = v ∷ xs
  set (x ∷ xs) (suc i) v = x ∷ set xs i v

  abbrev set? : List A → ℕ → Option A → List A
  set? xs i none = xs
  set? xs i (some v) = set xs i v

  -- `[values[i], values[j]] = [values[j], values[i]]`, both read before both are written
  unfoldable pub swap : ℕ → ℕ → List A → List A
  swap i j xs = elim (get_elem? xs i) [
    | none ↦ xs
    | some a ↦ elim (get_elem? xs j) [ none ↦ xs | some b ↦ set (set xs i b) j a ]
  ]

  -- the loop, from the given index down to 1
  unfoldable pub shuffle_from : (ℕ → ℕ) → ℕ → List A → List A
  shuffle_from draw zero xs = xs
  shuffle_from draw (suc i) xs = shuffle_from draw i (swap (suc i) (draw (suc i)) xs)

  unfoldable pub shuffle : (ℕ → ℕ) → List A → List A
  shuffle draw xs = shuffle_from draw (length xs - 1) xs

pub record RoleAssignment : Type 0 where
  pub user_id : String
  pub role : Role

unfoldable pub citizens : ℕ → List Role
citizens zero = []
citizens (suc n) = citizen ∷ citizens n

abbrev pub role_pool : ℕ → List Role
role_pool players = mafia ∷ doctor ∷ police ∷ citizens (players - 3)

-- `participants.map((participant, index) => ({ userId, role: roles[index]! }))`; there are as many
-- roles as participants, or more.
unfoldable pub assign : List RoomParticipant → List Role → List RoleAssignment
assign [] roles = []
assign (p ∷ ps) [] = []
assign (p ∷ ps) (r ∷ rs) = record { user_id = p.user_id; role = r } ∷ assign ps rs

-- One draw shuffles the participants, the other the roles.
unfoldable pub build_role_assignments :
    (ℕ → ℕ) → (ℕ → ℕ) → List RoomParticipant → List RoleAssignment
build_role_assignments seats cards participants =
    let seated = shuffle seats participants in
    assign seated (shuffle cards (role_pool (length seated)))
