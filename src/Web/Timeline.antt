-- ===== src/Web/Timeline.antt =====
-- apps/web/lib/timeline.ts: the timeline of a game as the client reads it.
pub mod Reads
use mafia_casefile.Prelude.{
  ℕ, String, Bool, true, false, Option, none, some, List, [], ◌∷◌, Dict, lookup, leb, if◌then◌else◌,
}

-- The value of a field, as far as the parser looks at it.
pub data Value : Type 0 where
  null : Value
  text : String → Value
  number : ℕ → Value
  other : Value

-- A member of `events`: no record, or one with fields.
pub data EventValue : Type 0 where
  not_record : EventValue
  event_fields : Dict Value → EventValue

-- A response: no record, or one with a `gameId`, if any, and the members of `events`, if it is an
-- array.
pub data ResponseValue : Type 0 where
  not_response : ResponseValue
  response_with : Option Value → Option (List EventValue) → ResponseValue

pub record TimelineEvent : Type 0 where
  pub id : String
  pub game_id : String
  pub seq : ℕ
  pub type : String
  pub turn : ℕ
  pub phase : String
  pub actor_user_id : Option String
  pub payload : Option Value
  pub visibility_during_game : String
  pub visibility_after_game : String
  pub request_id : Option String
  pub created_at : String

pub record TimelineResponse : Type 0 where
  pub game_id : String
  pub events : List TimelineEvent

infixl 5 ◌>>=◌
abbrev pub ◌>>=◌ : {A B : Type 0} → Option A → (A → Option B) → Option B
none >>= f = none
(some a) >>= f = f a

-- `typeof value === "string"`, and so on, with the value
abbrev pub string_of : Option Value → Option String
string_of (some (text t)) = some t
string_of _ = none

abbrev pub number_of : Option Value → Option ℕ
number_of (some (number n)) = some n
number_of _ = none

-- `isNullableString`
abbrev pub nullable_string_of : Option Value → Option (Option String)
nullable_string_of (some null) = some none
nullable_string_of (some (text t)) = some (some t)
nullable_string_of _ = none

unfoldable pub parse_event : EventValue → Option TimelineEvent
parse_event not_record = none
parse_event (event_fields fields) = do
  id ← string_of (lookup "id" fields)
  game_id ← string_of (lookup "gameId" fields)
  seq ← number_of (lookup "seq" fields)
  type ← string_of (lookup "type" fields)
  turn ← number_of (lookup "turn" fields)
  phase ← string_of (lookup "phase" fields)
  actor_user_id ← nullable_string_of (lookup "actorUserId" fields)
  during ← string_of (lookup "visibilityDuringGame" fields)
  after ← string_of (lookup "visibilityAfterGame" fields)
  request_id ← nullable_string_of (lookup "requestId" fields)
  created_at ← string_of (lookup "createdAt" fields)
  some (record {
    id = id;
    game_id = game_id;
    seq = seq;
    type = type;
    turn = turn;
    phase = phase;
    actor_user_id = actor_user_id;
    payload = lookup "payload" fields;
    visibility_during_game = during;
    visibility_after_game = after;
    request_id = request_id;
    created_at = created_at;
  })

unfoldable pub parse_events : List EventValue → Option (List TimelineEvent)
parse_events [] = some []
parse_events (v ∷ vs) = do event ← parse_event v; events ← parse_events vs; some (event ∷ events)

unfoldable pub parse_timeline_response : ResponseValue → Option TimelineResponse
parse_timeline_response not_response = none
parse_timeline_response (response_with game_id none) = none
parse_timeline_response (response_with game_id (some values)) = do
  id ← string_of game_id
  events ← parse_events values
  some (record { game_id = id; events = events })

-- `Array.prototype.sort` by `seq`, which is stable
unfoldable pub insert_event : TimelineEvent → List TimelineEvent → List TimelineEvent
insert_event e [] = e ∷ []
insert_event e (f ∷ fs) =
    let rest = insert_event e fs in if leb e.seq f.seq then e ∷ f ∷ fs else f ∷ rest

unfoldable pub sort_timeline_events : List TimelineEvent → List TimelineEvent
sort_timeline_events [] = []
sort_timeline_events (e ∷ es) = insert_event e (sort_timeline_events es)
