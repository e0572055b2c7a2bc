-- ===== src/Events.antt =====
-- apps/api/src/game-events: the log of what happened in each game (game-event-recorder.service.ts)
-- and the timeline that is shown of it (game-events.controller.ts). The table is the list of its
-- rows in the order in which they were created; a transaction is one step.
pub mod Timeline
use mafia_casefile.Prelude.{
  ℕ, ◌+◌, String, Bool, true, false, Option, List, [], ◌∷◌, ◌++◌, keep, max, leb, ◌==◌,
  if◌then◌else◌,
}
use mafia_casefile.Shared.{GamePhase, Role, ChatChannel}
use mafia_casefile.Session.Players.{WinnerTeam}
use mafia_casefile.Session.Tally.{VoteTallyEntry}

pub data EventVisibility : Type 0 where
  public_event private_event mafia_only ghost_only system_only : EventVisibility

pub data GameEventType : Type 0 where
  player_joined player_left player_ready_changed game_started role_assigned : GameEventType
  phase_changed player_killed player_executed game_finished vote_casted : GameEventType
  mafia_target_selected doctor_target_selected police_investigated : GameEventType
  chat_message_sent : GameEventType

-- The payloads that the handlers record; a `roomId` or `gameId` that repeats the row's is left out, and so is the
-- reason of a finished game, which the winner decides.
pub data GameEventPayload : Type 0 where
  joined : String → String → GameEventPayload
  left : String → GameEventPayload
  ready : String → Bool → GameEventPayload
  started : String → ℕ → GameEventPayload
  role : String → Role → GameEventPayload
  phase : GamePhase → GamePhase → ℕ → Option String → Option ℕ → GameEventPayload
  killed : String → Bool → GameEventPayload
  executed : String → List VoteTallyEntry → GameEventPayload
  won : WinnerTeam → GameEventPayload
  target : String → GameEventPayload
  investigated : String → Role → GameEventPayload
  chat : ChatChannel → String → String → GameEventPayload

pub record RecordEventInput : Type 0 where
  pub game_id : String
  pub type : GameEventType
  pub turn : ℕ
  pub phase : GamePhase
  pub actor_user_id : Option String
  pub payload : GameEventPayload
  pub visibility_during_game : EventVisibility
  pub visibility_after_game : EventVisibility
  pub request_id : String

-- A row: what was recorded, under its number in the game.
pub record GameEventLog : Type 0 where
  pub event : RecordEventInput
  pub open event use *
  pub seq : ℕ

abbrev pub is_of : String → GameEventLog → Bool
is_of game_id row = row.game_id == game_id

-- `aggregate … _max.seq ?? 0`
unfoldable pub max_seq : String → List GameEventLog → ℕ
max_seq game_id [] = 0
max_seq game_id (row ∷ rows) =
    let rest = max_seq game_id rows in if is_of game_id row then max row.seq rest else rest

unfoldable pub record_event : RecordEventInput → List GameEventLog → List GameEventLog
record_event input rows =
    rows ++ (record { event = input; seq = max_seq input.game_id rows + 1 }) ∷ []

-- `orderBy: { seq: 'asc' }`
unfoldable pub insert_by_seq : GameEventLog → List GameEventLog → List GameEventLog
insert_by_seq row [] = row ∷ []
insert_by_seq row (r ∷ rs) = if leb row.seq r.seq then row ∷ r ∷ rs else r ∷ insert_by_seq row rs

unfoldable pub sort_by_seq : List GameEventLog → List GameEventLog
sort_by_seq [] = []
sort_by_seq (row ∷ rows) = insert_by_seq row (sort_by_seq rows)

unfoldable pub get_timeline : String → List GameEventLog → List GameEventLog
get_timeline game_id rows = sort_by_seq (keep (is_of game_id) rows)

abbrev pub is_public : EventVisibility → Bool
is_public public_event = true
is_public _ = false

-- The controller's answer for a game id that is not blank.
unfoldable pub timeline : String → List GameEventLog → List GameEventLog
timeline game_id rows =
    keep (λ row. is_public row.visibility_after_game) (get_timeline game_id rows)
