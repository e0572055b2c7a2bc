-- ===== src/Rooms/Reachable.antt =====
-- The store of rooms, as the methods of `RoomsService` take it from one state to the next.
use mafia_casefile.Prelude.{
  ℕ, ◌≤◌, ◌≡◌, refl, String, Bool, true, Option, none, some, [], Dict, arith, lookup, lookup-insert,
  inl, inr, text_cases, length,
}
use mafia_casefile.Prelude.Results.{Result-cases, ok}
use mafia_casefile.Rooms.{Room, is_non_empty_string, normalize_room, save_room}
use mafia_casefile.Rooms.Operations.{
  MaxPlayersInput, undefined, not_number, not_integer, negative, integer, max_players_of, new_room,
  create_room, join, join_room, ready, change_ready, leave, leave_room, start, start_game,
}
use mafia_casefile.Rooms.Laws.{
  IsSeated, join-IsSeated, ready-IsSeated, leave-IsSeated, start-IsSeated,
}

-- A room stands under its own id, its count is right, and its participants are in order.
pub record IsKept (room_id : String) (r : Room) : Type 0 where
  pub own : r.room_id ≡ room_id
  pub counted : r.player_count ≡ length r.participants
  pub in_order : IsSeated r

abbrev pub RoomsValid : Dict Room → Type 0
RoomsValid rooms = (room_id : String) (r : Room) → lookup room_id rooms ≡ some r → IsKept room_id r

-- A room that is saved replaces the one of its id only.
save_room-RoomsValid :
    (r : Room) (rooms : Dict Room)
    → IsSeated r
    → RoomsValid rooms
    → RoomsValid (save_room (normalize_room r) rooms)
unfolding save_room normalize_room
save_room-RoomsValid r rooms h v room_id t e = elim (text_cases r.room_id room_id) [
  | inl (q, b) ↦
      let same : some (normalize_room r) ≡ some t = rw (lookup-insert, b) at e in
      let st : normalize_room r ≡ t = cc in
      rw (← st) (record {
        own = q;
        counted = refl;
        in_order = record { once = h.once; named = h.named; fits = h.fits };
      })
  | inr (n, b) ↦ v room_id t (rw (lookup-insert, b) at e)
]

-- One call of a method that succeeds, or a read.
pub data RoomStep : Dict Room → Dict Room → Type 0 where
  created :
      (host name : Option String) (max_players : MaxPlayersInput) (uuid : String) (now : ℕ)
      (r : Room) (rooms rooms' : Dict Room)
      → create_room host name max_players uuid now rooms ≡ ok (r, rooms')
      → RoomStep rooms rooms'
  joined :
      (room_id user_id nickname : String) (now : ℕ) (r : Room) (rooms rooms' : Dict Room)
      → join_room room_id user_id nickname now rooms ≡ ok (r, rooms')
      → RoomStep rooms rooms'
  readied :
      (room_id user_id : String) (is_ready : Bool) (now : ℕ) (r : Room) (rooms rooms' : Dict Room)
      → change_ready room_id user_id is_ready now rooms ≡ ok (r, rooms')
      → RoomStep rooms rooms'
  left :
      (room_id user_id : String) (now : ℕ) (r : Room) (rooms rooms' : Dict Room)
      → leave_room room_id user_id now rooms ≡ ok (r, rooms')
      → RoomStep rooms rooms'
  started :
      (room_id user_id : String) (now : ℕ) (r : Room) (rooms rooms' : Dict Room)
      → start_game room_id user_id now rooms ≡ ok (r, rooms')
      → RoomStep rooms rooms'

pub data Reachable : Dict Room → Type 0 where
  empty : Reachable []
  after : {rooms rooms' : Dict Room} → Reachable rooms → RoomStep rooms rooms' → Reachable rooms'

-- What each method that succeeds has saved.
join_room-eq-ok :
    (room_id user_id nickname : String) (now : ℕ) (r : Room) (rooms rooms' : Dict Room)
    → join_room room_id user_id nickname now rooms ≡ ok (r, rooms')
    → (is_non_empty_string user_id ≡ true)
      × ((before after : Room) × (lookup room_id rooms ≡ some before)
          × (join user_id nickname now before ≡ ok after)
          × (rooms' ≡ save_room (normalize_room after) rooms))
unfolding join_room
join_room-eq-ok room_id user_id nickname now r rooms rooms' e = ground arith

change_ready-eq-ok :
    (room_id user_id : String) (is_ready : Bool) (now : ℕ) (r : Room) (rooms rooms' : Dict Room)
    → change_ready room_id user_id is_ready now rooms ≡ ok (r, rooms')
    → (before after : Room) × (lookup room_id rooms ≡ some before)
      × (ready user_id is_ready now before ≡ ok after)
      × (rooms' ≡ save_room (normalize_room after) rooms)
unfolding change_ready
change_ready-eq-ok room_id user_id is_ready now r rooms rooms' e = ground arith

leave_room-eq-ok :
    (room_id user_id : String) (now : ℕ) (r : Room) (rooms rooms' : Dict Room)
    → leave_room room_id user_id now rooms ≡ ok (r, rooms')
    → (before after : Room) × (lookup room_id rooms ≡ some before)
      × (leave user_id now before ≡ ok after)
      × (rooms' ≡ save_room (normalize_room after) rooms)
unfolding leave_room
leave_room-eq-ok room_id user_id now r rooms rooms' e = ground arith

pub start_game-eq-ok :
    (room_id user_id : String) (now : ℕ) (r : Room) (rooms rooms' : Dict Room)
    → start_game room_id user_id now rooms ≡ ok (r, rooms')
    → (before after : Room) × (lookup room_id rooms ≡ some before)
      × (start user_id now before ≡ ok after)
      × (r ≡ normalize_room after)
      × (rooms' ≡ save_room (normalize_room after) rooms)
unfolding start_game
start_game-eq-ok room_id user_id now r rooms rooms' e = ground arith

create_room-eq-ok :
    (host name : Option String) (max_players : MaxPlayersInput) (uuid : String) (now : ℕ) (r : Room)
    (rooms rooms' : Dict Room)
    → create_room host name max_players uuid now rooms ≡ ok (r, rooms')
    → (host_user_id : String) × (max : ℕ) × (is_non_empty_string host_user_id ≡ true)
      × (max_players_of max_players ≡ ok max)
      × (rooms' ≡ save_room (normalize_room (new_room host_user_id name max uuid now)) rooms)
unfolding create_room
create_room-eq-ok none name max_players uuid now r rooms rooms' e = absurd (ground arith)
create_room-eq-ok (some host) name max_players uuid now r rooms rooms' e =
    elim (Result-cases (max_players_of max_players)) [
      | inl (max, m) ↦ (host, max, ground arith, m, ground arith)
      | inr (message, m) ↦ absurd (ground arith)
    ]

max_players_of-pos : (m : MaxPlayersInput) (max : ℕ) → max_players_of m ≡ ok max → 1 ≤ max
max_players_of-pos undefined max e = ground arith
max_players_of-pos not_number max e = cc
max_players_of-pos not_integer max e = cc
max_players_of-pos negative max e = cc
max_players_of-pos (integer n) max e = ground arith

new_room-IsSeated :
    (host_user_id : String) (name : Option String) (max : ℕ) (uuid : String) (now : ℕ)
    → is_non_empty_string host_user_id ≡ true
    → 1 ≤ max
    → IsSeated (new_room host_user_id name max uuid now)
unfolding is_non_empty_string
new_room-IsSeated host_user_id name max uuid now ne two = record {
  once = λ id. ground arith;
  named = ground arith;
  fits = omega arith;
}

pub step-RoomsValid :
    (rooms rooms' : Dict Room) → RoomStep rooms rooms' → RoomsValid rooms → RoomsValid rooms'
step-RoomsValid rooms rooms' (created host name max_players uuid now r _ _ e) v =
    let (h, max, ne, two, saved) =
      create_room-eq-ok host name max_players uuid now r rooms rooms' e in
    rw saved (
      save_room-RoomsValid (new_room h name max uuid now) rooms
        (new_room-IsSeated h name max uuid now ne (max_players_of-pos max_players max two)) v)
step-RoomsValid rooms rooms' (joined room_id user_id nickname now r _ _ e) v =
    let (ne, (b, a, found, done, saved)) =
      join_room-eq-ok room_id user_id nickname now r rooms rooms' e in
    let kept = v room_id b found in
    let (_, h) = join-IsSeated user_id nickname now b a ne kept.in_order done in
    rw saved (save_room-RoomsValid a rooms h v)
step-RoomsValid rooms rooms' (readied room_id user_id is_ready now r _ _ e) v =
    let (b, a, found, done, saved) =
      change_ready-eq-ok room_id user_id is_ready now r rooms rooms' e in
    let kept = v room_id b found in
    let (_, h) = ready-IsSeated user_id is_ready now b a kept.in_order done in
    rw saved (save_room-RoomsValid a rooms h v)
step-RoomsValid rooms rooms' (left room_id user_id now r _ _ e) v =
    let (b, a, found, done, saved) = leave_room-eq-ok room_id user_id now r rooms rooms' e in
    let kept = v room_id b found in
    let (_, h) = leave-IsSeated user_id now b a kept.in_order done in
    rw saved (save_room-RoomsValid a rooms h v)
step-RoomsValid rooms rooms' (started room_id user_id now r _ _ e) v =
    let (b, a, found, done, _, saved) = start_game-eq-ok room_id user_id now r rooms rooms' e in
    let kept = v room_id b found in
    let (_, h) = start-IsSeated user_id now b a kept.in_order done in
    rw saved (save_room-RoomsValid a rooms h v)

-- Every room that the service can come to, from an empty store and by any calls that succeed, stands
-- under its own id, counts its participants, seats nobody twice or without an id, and is not overfull.
pub Reachable-RoomsValid : (rooms : Dict Room) → Reachable rooms → RoomsValid rooms
unfolding lookup
Reachable-RoomsValid [] empty room_id r e = absurd (ground arith)
Reachable-RoomsValid rooms' (after {rooms} before step) room_id r e =
    step-RoomsValid rooms rooms' step (Reachable-RoomsValid rooms before) room_id r e
