-- ===== src/Examples/RoomTests.antt =====
-- A room of four, the deal of its roles, and instances of the theorems on rooms and deals.
use mafia_casefile.Prelude.{
  ◌≡◌, refl, ℕ, String, true, some, [], ◌∷◌, insert, trim, text_cases, inl, inr, subst, ◌≤◌, arith,
}
use mafia_casefile.Prelude.Results.{ok}
use mafia_casefile.Session.Operations.{start_session}
use mafia_casefile.Session.Invariant.{IsValid}
use mafia_casefile.Rooms.{
  Room, RoomStatus, RoomParticipant, is_non_empty_string, normalize_room, save_room,
}
use mafia_casefile.Rooms.Operations.{undefined, create_room, new_room}
use mafia_casefile.Rooms.Laws.{IsSeated, seated}
use mafia_casefile.Rooms.Reachable.{RoomsValid, empty, after, created, Reachable-RoomsValid}
use mafia_casefile.Commands.Roles.{build_role_assignments}
use mafia_casefile.Commands.Roles.Deals.{IsDeal, build_role_assignments-IsDeal}
use mafia_casefile.Commands.StartGame.Begins.{begin_input, start_session-IsValid}
use mafia_casefile.Examples.{env}

abbrev pub seat : String → RoomParticipant
seat id = record { user_id = id; nickname = id; is_ready = true; joined_at = 0 }

abbrev pub den : Room
den = record {
  room_id = "g";
  name = "den";
  host_user_id = "ann";
  status = RoomStatus.in_progress;
  player_count = 4;
  max_players = 8;
  participants = seat "ann" ∷ seat "bob" ∷ seat "cy" ∷ seat "dee" ∷ [];
  created_at = 0;
  updated_at = 0;
}

pub den-IsSeated : IsSeated den
den-IsSeated = record { once = once; named = refl; fits = omega arith }
  where
    at_most_one : String → Type 0
    at_most_one id = seated id den.participants ≤ 1

    once : (id : String) → at_most_one id
    once id = elim (text_cases "ann" id) [
      | inl (q, _) ↦ subst at_most_one q (omega arith)
      | inr (_, a) ↦ elim (text_cases "bob" id) [
        | inl (q, _) ↦ subst at_most_one q (omega arith)
        | inr (_, b) ↦ elim (text_cases "cy" id) [
          | inl (q, _) ↦ subst at_most_one q (omega arith)
          | inr (_, c) ↦ rw (a, b, c) (ground arith)
        ]
      ]
    ]

-- Draws that always take the first card.
abbrev first : ℕ → ℕ
first index = 0

build_role_assignments-IsDeal_example :
    IsDeal den.participants (build_role_assignments first first den.participants)
build_role_assignments-IsDeal_example =
    build_role_assignments-IsDeal first first den.participants (omega arith)

start_session-IsValid_example :
    IsValid (start_session env (begin_input first first "g" "ann" den.participants 1))
start_session-IsValid_example =
    start_session-IsValid env first first "g" "ann" 1 den den-IsSeated (omega arith)

abbrev opened : Room
opened = normalize_room (new_room "ann" (some "den") 8 "g" 0)

opens : create_room (some "ann") (some "den") undefined "g" 0 [] ≡ ok (opened, ("g", opened) ∷ [])
unfolding create_room is_non_empty_string trim save_room insert normalize_room
opens = refl

Reachable-RoomsValid_example : RoomsValid (("g", opened) ∷ [])
Reachable-RoomsValid_example =
    Reachable-RoomsValid (("g", opened) ∷ [])
      (after empty (created (some "ann") (some "den") undefined "g" 0 opened [] _ opens))
