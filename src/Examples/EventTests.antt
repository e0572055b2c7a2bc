-- ===== src/Examples/EventTests.antt =====
-- The log of two games, and an instance of the theorem on their timelines.
use mafia_casefile.Prelude.{◌≡◌, String, none, [], ◌∷◌}
use mafia_casefile.Shared.{night}
use mafia_casefile.Events.{
  GameEventType, GameEventPayload, RecordEventInput, public_event, mafia_only, get_timeline,
}
use mafia_casefile.Events.Timeline.{record_all, numbered, get_timeline-record_all}

abbrev event : String → String → RecordEventInput
event game_id target_id = record {
  game_id = game_id;
  type = GameEventType.mafia_target_selected;
  turn = 0;
  phase = night;
  actor_user_id = none;
  payload = GameEventPayload.target target_id;
  visibility_during_game = mafia_only;
  visibility_after_game = public_event;
  request_id = "r";
}

get_timeline-record_all_example :
    get_timeline "g" (record_all (event "g" "ann" ∷ event "h" "bob" ∷ event "g" "cy" ∷ []) [])
    ≡ numbered 1 (event "g" "ann" ∷ event "g" "cy" ∷ [])
get_timeline-record_all_example =
    get_timeline-record_all "g" (event "g" "ann" ∷ event "h" "bob" ∷ event "g" "cy" ∷ [])
