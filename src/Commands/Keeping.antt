-- ===== src/Commands/Keeping.antt =====
-- Every command, and every change of phase by the timer, keeps the stores of sessions and rooms valid.
pub mod Rooms
pub mod Start
pub mod Play
pub mod Chat
pub mod Phases
use mafia_casefile.Prelude.{
  ℕ, ◌≤◌, ◌≡◌, refl, ap, sym, subst, String, Bool, true, false, not, Option, none, some, List, [],
  ◌∷◌, ◌++◌, Dict, lookup, if◌then◌else◌, Option-cases, Bool-cases, inl, inr, ◌==◌, arith,
}
use mafia_casefile.Prelude.Results.{Result, Result-cases, ok, err}
use mafia_casefile.Session.{GameSession}
use mafia_casefile.Rooms.{Room}
use mafia_casefile.Rooms.Reachable.{RoomsValid, RoomStep, step-RoomsValid}
use mafia_casefile.World.{
  World, Action, continue, put_sessions, put_rooms, ◌>>=◌, ◌>>◌, return, gets, on_sessions,
  on_rooms, try, log, log_if,
}
use mafia_casefile.Events.{GameEventLog}
use mafia_casefile.Sessions.Laws.{StoreValid}
use mafia_casefile.Commands.{
  GameCommandEnvelope, GameCommandEffect, GameCommandResult, CommandRejectReason, answer, Payload,
  not_object, object, Field,
}

-- Every session and every room is valid.
pub record WorldValid (w : World) : Type 0 where
  pub sessions_valid : StoreValid w.sessions
  pub rooms_valid : RoomsValid w.rooms

-- A call returns with `Q`, or throws in a valid world.
abbrev pub Post : {A : Type 0} → (A → World → Type 0) → Result A × World → Type 0
Post Q (ok a, w) = Q a w
Post Q (err message, w) = WorldValid w

abbrev pub Valid : {A : Type 0} → A → World → Type 0
Valid a w = WorldValid w

-- Sequencing hands on what the first call established.
pub continue-Post :
    {A B : Type 0} (Q : A → World → Type 0) (R : B → World → Type 0) (f : A → Action B)
    → ((a : A) (w : World) → Q a w → Post R (f a w))
    → (out : Result A × World) → Post Q out
    → Post R (continue f out)
continue-Post Q R f h (ok a, w) q = h a w q
continue-Post Q R f h (err message, w) q = q

pub put_rooms-Post :
    {A : Type 0} (Q : A → World → Type 0) (w : World) (r : Result (A × Dict Room))
    → ((a : A) (rooms : Dict Room) → r ≡ ok (a, rooms) → Q a (record w { rooms = rooms }))
    → WorldValid w
    → Post Q (put_rooms w r)
put_rooms-Post Q w (ok (a, rooms)) h v = h a rooms refl
put_rooms-Post Q w (err message) h v = v

pub put_sessions-Post :
    {A : Type 0} (Q : A → World → Type 0) (w : World) (r : Result (A × Dict GameSession))
    → ((a : A) (sessions : Dict GameSession)
        → r ≡ ok (a, sessions)
        → Q a (record w { sessions = sessions }))
    → WorldValid w
    → Post Q (put_sessions w r)
put_sessions-Post Q w (ok (a, sessions)) h v = h a sessions refl
put_sessions-Post Q w (err message) h v = v

-- The log bears on neither store.
pub logged :
    (w : World) (logs : List GameEventLog) → WorldValid w → WorldValid (record w { logs = logs })
logged w logs v = record { sessions_valid = v.sessions_valid; rooms_valid = v.rooms_valid }

pub stepped :
    (w : World) (rooms : Dict Room)
    → WorldValid w
    → RoomStep w.rooms rooms
    → WorldValid (record w { rooms = rooms })
stepped w rooms v step = record {
  sessions_valid = v.sessions_valid;
  rooms_valid = step-RoomsValid w.rooms rooms step v.rooms_valid;
}

pub restored :
    (w : World) (sessions : Dict GameSession)
    → WorldValid w
    → StoreValid sessions
    → WorldValid (record w { sessions = sessions })
restored w sessions v s = record { sessions_valid = s; rooms_valid = v.rooms_valid }

pub Post-WorldValid : {A : Type 0} (out : Result A × World) → Post Valid out → WorldValid (out.1)
Post-WorldValid (ok a, w) h = h
Post-WorldValid (err message, w) h = h

-- The answer to a command leaves the world as its action does.
answer-world :
    (c : GameCommandEnvelope) (reason_of : String → CommandRejectReason)
    (m : Action (List GameCommandEffect)) (w : World)
    → (answer c reason_of m w).1 ≡ (m w).1
unfolding answer
answer-world c reason_of m w = elim (Result-cases (m w).0) [
  | inl (a, e) ↦ rw (e, answer) refl
  | inr (message, e) ↦ rw (e, answer) refl
]

pub answer-WorldValid :
    (c : GameCommandEnvelope) (reason_of : String → CommandRejectReason)
    (m : Action (List GameCommandEffect)) (w : World)
    → Post Valid (m w)
    → WorldValid ((answer c reason_of m w).1)
answer-WorldValid c reason_of m w h =
    subst WorldValid (sym (answer-world c reason_of m w)) (Post-WorldValid (m w) h)

-- A handler that turns a payload away if it is no object.
pub payload-WorldValid :
    (p : Payload) (turned_away : GameCommandResult)
    (handle : Dict Field → GameCommandResult × World) (w : World)
    → WorldValid w
    → ((fields : Dict Field) → WorldValid ((handle fields).1))
    → (let out : GameCommandResult × World = elim p [
      | not_object ↦ (turned_away, w)
      | object fields ↦ handle fields
    ] in
        WorldValid (out.1))
payload-WorldValid not_object turned_away handle w v h = v
payload-WorldValid (object fields) turned_away handle w v h = h fields

-- A handler that goes on only if a test holds.
pub if-WorldValid :
    (b : Bool) (there here : GameCommandResult × World)
    → WorldValid (there.1)
    → WorldValid (here.1)
    → WorldValid ((if b then there else here).1)
if-WorldValid true there here h k = h
if-WorldValid false there here h k = k
