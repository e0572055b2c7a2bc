-- ===== src/Rooms/Laws.antt =====
-- What holds of every room: who is seated, and that each method keeps it.
use mafia_casefile.Prelude.{
  ℕ, suc, ◌≤◌, ◌<◌, ◌≡◌, refl, String, Bool, true, false, not, none, List, [], ◌∷◌, ◌++◌, arith,
  eq_iff, ◌==◌, if◌then◌else◌, Option-cases, inl, inr, ◌⊎◌, trim, length, tally, tally-append,
  length-append, any,
}
use mafia_casefile.Prelude.Results.{ok}
use mafia_casefile.Rooms.{
  Room, RoomParticipant, RoomStatus, status_eq, is_non_empty_string, find_participant,
}
use mafia_casefile.Rooms.Operations.{join, ready, leave, start, rename, set_ready, remove}

-- How many participants have this id.
abbrev pub seated : String → List RoomParticipant → ℕ
seated id ps = tally (λ p. p.user_id == id) ps

find_participant-seated :
    (id : String) (ps : List RoomParticipant) → find_participant id ps ≡ none → seated id ps ≡ 0
unfolding find_participant
find_participant-seated id [] e = refl
find_participant-seated id (p ∷ ps) e = ground (arith, find_participant-seated id ps)

seated-rename :
    (id u nickname : String) (ps : List RoomParticipant)
    → seated id (rename u nickname ps) ≡ seated id ps
unfolding rename
seated-rename id u nickname [] = refl
seated-rename id u nickname (p ∷ ps) = ground (arith, seated-rename id u nickname ps)

seated-set_ready :
    (id u : String) (b : Bool) (ps : List RoomParticipant)
    → seated id (set_ready u b ps) ≡ seated id ps
unfolding set_ready
seated-set_ready id u b [] = refl
seated-set_ready id u b (p ∷ ps) = ground (arith, seated-set_ready id u b ps)

seated-remove : (id u : String) (ps : List RoomParticipant) → seated id (remove u ps) ≤ seated id ps
unfolding remove
seated-remove id u [] = omega arith
seated-remove id u (p ∷ ps) = ground (arith, seated-remove id u ps)

length-rename :
    (u nickname : String) (ps : List RoomParticipant) → length (rename u nickname ps) ≡ length ps
unfolding rename
length-rename u nickname [] = refl
length-rename u nickname (p ∷ ps) = ground (arith, length-rename u nickname ps)

length-set_ready :
    (u : String) (b : Bool) (ps : List RoomParticipant) → length (set_ready u b ps) ≡ length ps
unfolding set_ready
length-set_ready u b [] = refl
length-set_ready u b (p ∷ ps) = ground (arith, length-set_ready u b ps)

length-remove : (u : String) (ps : List RoomParticipant) → length (remove u ps) ≤ length ps
unfolding remove
length-remove u [] = omega arith
length-remove u (p ∷ ps) = ground (arith, length-remove u ps)

-- Nobody sits twice, nobody is nameless, and there are seats for all.
pub record IsSeated (r : Room) : Type 0 where
  pub once : (id : String) → seated id r.participants ≤ 1
  pub named : seated "" r.participants ≡ 0
  pub fits : length r.participants ≤ r.max_players

abbrev newcomer : String → String → ℕ → RoomParticipant
newcomer user_id nickname now = record {
  user_id = trim user_id;
  nickname = trim nickname;
  is_ready = false;
  joined_at = now;
}

-- Who joins is seated last, if a seat is free, or has the nickname changed.
join-eq-ok :
    (user_id nickname : String) (now : ℕ) (r r' : Room)
    → join user_id nickname now r ≡ ok r'
    → ((find_participant (trim user_id) r.participants ≡ none)
        × (length r.participants < r.max_players)
        × (r' ≡ record r {
          participants = r.participants ++ newcomer user_id nickname now ∷ [];
          updated_at = now;
        }))
      ⊎ (r' ≡ record r {
        participants = rename (trim user_id) (trim nickname) r.participants;
        updated_at = now;
      })
unfolding join
join-eq-ok user_id nickname now r r' e =
    elim (Option-cases (find_participant (trim user_id) r.participants)) [
      | inl absent ↦ inl (ground arith)
      | inr (p, found) ↦ inr (ground arith)
    ]

seated-newcomer :
    (id user_id nickname : String) (now : ℕ) (ps : List RoomParticipant)
    → seated id (ps ++ newcomer user_id nickname now ∷ [])
      ≡ (if trim user_id == id then suc (seated id ps) else seated id ps)
seated-newcomer id user_id nickname now ps =
    ground (arith, tally-append (λ p. p.user_id == id) ps (newcomer user_id nickname now ∷ []))

trim_ne : (user_id : String) → is_non_empty_string user_id ≡ true → (trim user_id == "") ≡ false
unfolding is_non_empty_string
trim_ne user_id ne = ground arith

-- A player who joins under a proper id leaves the participants in order.
pub join-IsSeated :
    (user_id nickname : String) (now : ℕ) (r r' : Room)
    → is_non_empty_string user_id ≡ true
    → IsSeated r
    → join user_id nickname now r ≡ ok r'
    → (r'.room_id ≡ r.room_id) × IsSeated r'
join-IsSeated user_id nickname now r r' ne h e = elim (join-eq-ok user_id nickname now r r' e) [
  | inl (absent, free, same) ↦ rw same (
    refl,
    record {
      once = λ id. ground (
        arith,
        seated-newcomer id user_id nickname now r.participants,
        eq_iff (trim user_id) id,
        find_participant-seated (trim user_id) r.participants absent,
        h.once id,
      );
      named =
          rw (seated-newcomer "" user_id nickname now r.participants, trim_ne user_id ne) h.named;
      fits = omega (arith, length-append r.participants (newcomer user_id nickname now ∷ []), free);
    },
  )
  | inr same ↦ rw same (
    refl,
    record {
      once = λ id. rw (seated-rename id (trim user_id) (trim nickname) r.participants) (h.once id);
      named = rw (seated-rename "" (trim user_id) (trim nickname) r.participants) h.named;
      fits = rw (length-rename (trim user_id) (trim nickname) r.participants) h.fits;
    },
  )
]

ready-eq-ok :
    (user_id : String) (b : Bool) (now : ℕ) (r r' : Room)
    → ready user_id b now r ≡ ok r'
    → r' ≡ record r { participants = set_ready (trim user_id) b r.participants; updated_at = now }
unfolding ready
ready-eq-ok user_id b now r r' e = ground arith

pub ready-IsSeated :
    (user_id : String) (b : Bool) (now : ℕ) (r r' : Room)
    → IsSeated r
    → ready user_id b now r ≡ ok r'
    → (r'.room_id ≡ r.room_id) × IsSeated r'
ready-IsSeated user_id b now r r' h e = rw (ready-eq-ok user_id b now r r' e) (
  refl,
  record {
    once = λ id. rw (seated-set_ready id (trim user_id) b r.participants) (h.once id);
    named = rw (seated-set_ready "" (trim user_id) b r.participants) h.named;
    fits = rw (length-set_ready (trim user_id) b r.participants) h.fits;
  },
)

leave-eq-ok :
    (user_id : String) (now : ℕ) (r r' : Room)
    → leave user_id now r ≡ ok r'
    → r' ≡ record r { participants = remove (trim user_id) r.participants; updated_at = now }
unfolding leave
leave-eq-ok user_id now r r' e = ground arith

pub leave-IsSeated :
    (user_id : String) (now : ℕ) (r r' : Room)
    → IsSeated r
    → leave user_id now r ≡ ok r'
    → (r'.room_id ≡ r.room_id) × IsSeated r'
leave-IsSeated user_id now r r' h e = rw (leave-eq-ok user_id now r r' e) (
  refl,
  record {
    once = λ id. omega (arith, seated-remove id (trim user_id) r.participants, h.once id);
    named = omega (arith, seated-remove "" (trim user_id) r.participants, h.named);
    fits = omega (arith, length-remove (trim user_id) r.participants, h.fits);
  },
)

-- What a start needs, and what it changes.
pub start-eq-ok :
    (user_id : String) (now : ℕ) (r r' : Room)
    → start user_id now r ≡ ok r'
    → (status_eq r.status RoomStatus.waiting ≡ true)
      × ((r.host_user_id == trim user_id) ≡ true)
      × (4 ≤ length r.participants)
      × (any (λ p. not p.is_ready) r.participants ≡ false)
      × (r' ≡ record r { status = RoomStatus.in_progress; updated_at = now })
unfolding start
start-eq-ok user_id now r r' e = ground arith

pub start-IsSeated :
    (user_id : String) (now : ℕ) (r r' : Room)
    → IsSeated r
    → start user_id now r ≡ ok r'
    → (r'.room_id ≡ r.room_id) × IsSeated r'
start-IsSeated user_id now r r' h e =
    let (_, _, _, _, same) = start-eq-ok user_id now r r' e in
    rw same (refl, record { once = h.once; named = h.named; fits = h.fits })
