-- ===== src/Web/PlayUi/Seats.antt =====
-- The seats of `buildLobbySeats` in apps/web/app/play/lib/play-ui.ts.
use mafia_casefile.Prelude.{
  ℕ, zero, suc, ◌+◌, ◌≤◌, ◌≡◌, refl, ap, ◌∙◌, String, Bool, true, false, not, Option, none, some,
  List, [], ◌∷◌, keep, tally, tally-le-length, length, get_elem?, ◌==◌, eq_iff, text_cases,
  if◌then◌else◌, Bool-cases, Option-cases, inl, inr, arith,
}
use mafia_casefile.Rooms.{Room, RoomParticipant, find_participant}
use mafia_casefile.Rooms.Laws.{IsSeated}
use mafia_casefile.Web.PlayUi.{seats_from, with_current_first, build_lobby_seats}

abbrev pub is_user : String → RoomParticipant → Bool
is_user id p = p.user_id == id

-- The seat is taken by this user.
abbrev pub is_seat_of : String → Option RoomParticipant → Bool
is_seat_of id none = false
is_seat_of id (some p) = is_user id p

length-seats_from : (n : ℕ) (ps : List RoomParticipant) → length (seats_from n ps) ≡ n
unfolding seats_from
length-seats_from zero ps = refl
length-seats_from (suc n) [] = ap suc (length-seats_from n [])
length-seats_from (suc n) (p ∷ ps) = ap suc (length-seats_from n ps)

tally-seats_from :
    (id : String) (n : ℕ) (ps : List RoomParticipant)
    → length ps ≤ n
    → tally (is_seat_of id) (seats_from n ps) ≡ tally (is_user id) ps
unfolding seats_from
tally-seats_from id zero [] h = refl
tally-seats_from id zero (p ∷ ps) h = absurd (omega arith)
tally-seats_from id (suc n) [] h = tally-seats_from id n [] (omega arith)
tally-seats_from id (suc n) (p ∷ ps) h = ground (arith, tally-seats_from id n ps (omega arith))

-- Without the user, the others stay.
tally-others :
    (id me : String) (ps : List RoomParticipant)
    → tally (is_user id) (keep (λ p. not (p.user_id == me)) ps)
      ≡ (if id == me then 0 else tally (is_user id) ps)
tally-others id me [] = ground arith
tally-others id me (p ∷ ps) =
    ground (arith, tally-others id me ps, eq_iff p.user_id id, eq_iff p.user_id me, eq_iff id me)

length-others :
    (me : String) (ps : List RoomParticipant)
    → length (keep (λ p. not (p.user_id == me)) ps) + tally (is_user me) ps ≡ length ps
length-others me [] = refl
length-others me (p ∷ ps) = ground (arith, length-others me ps)

found_participant :
    (id : String) (ps : List RoomParticipant) (p : RoomParticipant)
    → find_participant id ps ≡ some p
    → ((p.user_id == id) ≡ true) × (1 ≤ tally (is_user id) ps)
unfolding find_participant
found_participant id [] p e = absurd (ground arith)
found_participant id (q ∷ ps) p e = elim (Bool-cases (q.user_id == id)) [
  | inl own ↦
      let same : some q ≡ some p = rw (own) at e in
      let st : q ≡ p = cc in (rw (← st) own, ground arith)
  | inr other ↦
      let later : find_participant id ps ≡ some p = rw other at e in
      let (own, there) = found_participant id ps p later in (own, ground arith)
]

first-seats_from :
    (n : ℕ) (p : RoomParticipant) (ps : List RoomParticipant)
    → 1 ≤ n
    → get_elem? (seats_from n (p ∷ ps)) 0 ≡ some (some p)
unfolding seats_from
first-seats_from zero p ps h = absurd (omega arith)
first-seats_from (suc n) p ps h = refl

-- With the user's own entry first, everybody is there as often as before, and nobody is added.
module _ (me : String) (participants : List RoomParticipant)
    (once : (id : String) → tally (is_user id) participants ≤ 1) where
  abbrev ordered : Option RoomParticipant → List RoomParticipant
  ordered current = with_current_first me current participants

  tally-ordered :
      (id : String)
      → tally (is_user id) (ordered (find_participant me participants))
        ≡ tally (is_user id) participants
  tally-ordered id = elim (Option-cases (find_participant me participants)) [
    | inl absent ↦ rw absent refl
    | inr (p, found) ↦
        let (own, there) = found_participant me participants p found in
        rw found (elim (text_cases id me) [
          | inl (same, t) ↦ ground (
            arith,
            tally-others id me participants,
            once id,
            eq_iff p.user_id id,
            eq_iff p.user_id me,
          )
          | inr (differs, t) ↦
              ground
                (arith, tally-others id me participants, eq_iff p.user_id id, eq_iff p.user_id me)
        ])
  ]

  length-ordered : length (ordered (find_participant me participants)) ≤ length participants
  length-ordered = elim (Option-cases (find_participant me participants)) [
    | inl absent ↦ rw absent (omega arith)
    | inr (p, found) ↦
        let (own, there) = found_participant me participants p found in
        rw found (omega (arith, length-others me participants, there))
  ]

-- Of a room that seats nobody twice and has seats for all, the lobby shows as many seats as the room
-- has; every user has as many of them as entries in the room; and a user who takes part has the first.
pub build_lobby_seats-seated :
    (room : Room) (me : String)
    → IsSeated room
    → (let seats = build_lobby_seats (some room) me in
        (length seats ≡ room.max_players)
        × ((id : String) → tally (is_seat_of id) seats ≡ tally (is_user id) room.participants)
        × ((p : RoomParticipant)
            → find_participant me room.participants ≡ some p
            → get_elem? seats 0 ≡ some (some p)))
unfolding build_lobby_seats
build_lobby_seats-seated room me h =
    let participants = room.participants in
    let shown = with_current_first me (find_participant me participants) participants in
    (
      length-seats_from room.max_players shown,
      λ id.
          tally-seats_from id room.max_players shown
            (omega (arith, length-ordered me participants h.once, h.fits))
          ∙ tally-ordered me participants h.once id,
      λ p found.
          let (own, there) = found_participant me participants p found in
          rw found (
            first-seats_from room.max_players p _
              (omega (arith, there, h.fits, tally-le-length (is_user me) participants))),
    )
