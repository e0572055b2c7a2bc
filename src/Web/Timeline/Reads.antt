-- ===== src/Web/Timeline/Reads.antt =====
-- The responses of apps/api/src/game-events/game-events.controller.ts, in apps/web/lib/timeline.ts.
use mafia_casefile.Prelude.{
  ◌≤◌, ◌≡◌, refl, ◌∙◌, String, Bool, Option, none, some, List, [], ◌∷◌, map, All, tally, if_both,
  Dict, lookup, leb, Bool-cases, inl, inr, arith,
}
use mafia_casefile.Web.Timeline.{
  Value, null, text, number, event_fields, ResponseValue, response_with, TimelineEvent, parse_event,
  parse_events, parse_timeline_response, insert_event, sort_timeline_events,
}

abbrev pub nullable : Option String → Value
nullable none = null
nullable (some t) = text t

-- The fields of an event, as game-events.controller.ts of the server writes them.
abbrev pub fields_of : TimelineEvent → Value → Dict Value
fields_of e payload =
    ("id", text e.id)
    ∷ ("gameId", text e.game_id)
    ∷ ("seq", number e.seq)
    ∷ ("type", text e.type)
    ∷ ("turn", number e.turn)
    ∷ ("phase", text e.phase)
    ∷ ("actorUserId", nullable e.actor_user_id)
    ∷ ("payload", payload)
    ∷ ("visibilityDuringGame", text e.visibility_during_game)
    ∷ ("visibilityAfterGame", text e.visibility_after_game)
    ∷ ("requestId", nullable e.request_id)
    ∷ ("createdAt", text e.created_at)
    ∷ []

-- An event with its payload.
abbrev pub with_payload : TimelineEvent × Value → TimelineEvent
with_payload (e, payload) = record e { payload = some payload }

abbrev pub response_of : String → List (TimelineEvent × Value) → ResponseValue
response_of game_id events =
    response_with (some (text game_id)) (some (map (λ e. event_fields (fields_of e.0 e.1)) events))

parse_event-fields_of :
    (e : TimelineEvent) (payload : Value)
    → parse_event (event_fields (fields_of e payload)) ≡ some (with_payload (e, payload))
unfolding parse_event lookup
parse_event-fields_of e payload = ground arith

parse_events-map :
    (events : List (TimelineEvent × Value))
    → parse_events (map (λ e. event_fields (fields_of e.0 e.1)) events)
      ≡ some (map with_payload events)
unfolding parse_events
parse_events-map [] = refl
parse_events-map ((e, payload) ∷ es) =
    rw (parse_event-fields_of e payload, parse_events-map es) refl

-- The client reads a response of the server as the timeline that was written, event by event and in
-- its order, whatever the payloads are.
pub parse_timeline_response-response_of :
    (game_id : String) (events : List (TimelineEvent × Value))
    → parse_timeline_response (response_of game_id events)
      ≡ some (record { game_id = game_id; events = map with_payload events })
unfolding parse_timeline_response
parse_timeline_response-response_of game_id events = rw (parse_events-map events) refl

-- The numbers rise.
abbrev pub IsSorted : List TimelineEvent → Type 0
IsSorted [] = Unit
IsSorted (e ∷ es) = All (λ f. e.seq ≤ f.seq) es × IsSorted es

All-insert_event :
    (P : TimelineEvent → Type 0) (e : TimelineEvent) (es : List TimelineEvent)
    → P e
    → All P es
    → All P (insert_event e es)
unfolding insert_event
All-insert_event P e [] h hs = (h, tt)
All-insert_event P e (f ∷ fs) h (hf, hfs) =
    if_both (All P) (leb e.seq f.seq) (e ∷ f ∷ fs) (f ∷ insert_event e fs) (h, (hf, hfs))
      (hf, All-insert_event P e fs h hfs)

All-later :
    (e f : TimelineEvent) (fs : List TimelineEvent)
    → e.seq ≤ f.seq
    → All (λ g. f.seq ≤ g.seq) fs
    → All (λ g. e.seq ≤ g.seq) fs
All-later e f [] h hs = tt
All-later e f (g ∷ gs) h (hg, hgs) = (omega arith, All-later e f gs h hgs)

insert_event-IsSorted :
    (e : TimelineEvent) (es : List TimelineEvent) → IsSorted es → IsSorted (insert_event e es)
unfolding insert_event
insert_event-IsSorted e [] h = (tt, tt)
insert_event-IsSorted e (f ∷ fs) (hf, hfs) = elim (Bool-cases (leb e.seq f.seq)) [
  | inl before ↦
      let le : e.seq ≤ f.seq = ground arith in rw before ((le, All-later e f fs le hf), (hf, hfs))
  | inr after ↦
      let le : f.seq ≤ e.seq = ground arith in
      rw after (All-insert_event (λ g. f.seq ≤ g.seq) e fs le hf, insert_event-IsSorted e fs hfs)
]

tally-insert_event :
    (p : TimelineEvent → Bool) (e : TimelineEvent) (es : List TimelineEvent)
    → tally p (insert_event e es) ≡ tally p (e ∷ es)
unfolding insert_event
tally-insert_event p e [] = refl
tally-insert_event p e (f ∷ fs) = ground (arith, tally-insert_event p e fs)

-- Sorting puts the events in the order of their numbers, and keeps each as often as it was there.
pub sort_timeline_events-IsSorted :
    (es : List TimelineEvent)
    → IsSorted (sort_timeline_events es)
      × ((p : TimelineEvent → Bool) → tally p (sort_timeline_events es) ≡ tally p es)
unfolding sort_timeline_events
sort_timeline_events-IsSorted [] = (tt, λ p. refl)
sort_timeline_events-IsSorted (e ∷ es) =
    let (sorted, same) = sort_timeline_events-IsSorted es in
    (
      insert_event-IsSorted e (sort_timeline_events es) sorted,
      λ p. tally-insert_event p e (sort_timeline_events es) ∙ ground (arith, same p),
    )
