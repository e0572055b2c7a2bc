-- ===== src/World.antt =====
-- The stores behind the services (sessions, rooms, event log), and a call that reads and writes
-- them and may throw. What was written before a throw stays written.
use mafia_casefile.Prelude.{◌≡◌, ap, Option, none, some, List, Dict}
use mafia_casefile.Prelude.Results.{Result, ok, err}
use mafia_casefile.Session.{GameSession}
use mafia_casefile.Rooms.{Room}
use mafia_casefile.Events.{GameEventLog, RecordEventInput, record_event}

pub record World : Type 0 where
  pub sessions : Dict GameSession
  pub rooms : Dict Room
  pub logs : List GameEventLog

abbrev pub Action : Type 0 → Type 0
Action A = World → Result A × World

abbrev pub continue : {A B : Type 0} → (A → Action B) → Result A × World → Result B × World
continue f (ok a, w) = f a w
continue f (err e, w) = (err e, w)

infixl 5 ◌>>=◌ ◌>>◌
abbrev pub ◌>>=◌ : {A B : Type 0} → Action A → (A → Action B) → Action B
◌>>=◌ m f w = continue f (m w)

abbrev pub ◌>>◌ : {B : Type 0} → Action (Unit {0}) → Action B → Action B
m >> k = m >>= λ _. k

abbrev pub return : {A : Type 0} → A → Action A
return a w = (ok a, w)

abbrev pub gets : {A : Type 0} → (World → A) → Action A
gets f w = (ok (f w), w)

-- A method of a service that saves only when it succeeds.
abbrev pub put_sessions : {A : Type 0} → World → Result (A × Dict GameSession) → Result A × World
put_sessions w (ok (a, sessions)) = (ok a, record w { sessions = sessions })
put_sessions w (err e) = (err e, w)

abbrev pub on_sessions :
    {A : Type 0} → (Dict GameSession → Result (A × Dict GameSession)) → Action A
on_sessions f w = put_sessions w (f w.sessions)

abbrev pub put_rooms : {A : Type 0} → World → Result (A × Dict Room) → Result A × World
put_rooms w (ok (a, rooms)) = (ok a, record w { rooms = rooms })
put_rooms w (err e) = (err e, w)

abbrev pub on_rooms : {A : Type 0} → (Dict Room → Result (A × Dict Room)) → Action A
on_rooms f w = put_rooms w (f w.rooms)

abbrev pub try : {A : Type 0} → Result A → Action A
try r w = (r, w)

abbrev pub log : RecordEventInput → Action (Unit {0})
log input w = (ok tt, record w { logs = record_event input w.logs })

abbrev pub record_if : Option RecordEventInput → List GameEventLog → List GameEventLog
record_if none logs = logs
record_if (some input) logs = record_event input logs

abbrev pub log_if : Option RecordEventInput → Action (Unit {0})
log_if input w = (ok tt, record w { logs = record_if input w.logs })

-- A step that returns hands its value and the new world to what follows.
pub >>=_returned :
    {A B : Type 0} (m : Action A) (f : A → Action B) (w w' : World) (a : A)
    → m w ≡ (ok a, w')
    → (m >>= f) w ≡ f a w'
>>=_returned m f w w' a e = ap (continue f) e

pub on_sessions_returned :
    {A : Type 0} (f : Dict GameSession → Result (A × Dict GameSession)) (w : World) (a : A)
    (sessions : Dict GameSession)
    → f w.sessions ≡ ok (a, sessions)
    → on_sessions f w ≡ (ok a, record w { sessions = sessions })
on_sessions_returned f w a sessions e = ap (put_sessions w) e
