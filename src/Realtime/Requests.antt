-- ===== src/Realtime/Requests.antt =====
-- apps/api/src/realtime/request-idempotency.service.ts: which requests are being processed, and how
-- those that are done were answered.
pub mod Answers
use Prim.Native.String
use mafia_casefile.Prelude.{
  ℕ, ◌*◌, String, Bool, true, false, Option, none, some, List, [], ◌∷◌, if◌then◌else◌,
}
use mafia_casefile.Realtime.Redis.{Redis, positive_or}

pub data RequestIdempotencyStatus : Type 0 where
  processing completed : RequestIdempotencyStatus

pub data ResultType : Type 0 where
  command_accepted command_rejected : ResultType

pub record RequestIdempotencyRecord : Type 0 where
  pub game_id : String
  pub user_id : String
  pub request_id : String
  pub command_type : String
  pub status : RequestIdempotencyStatus
  pub result_type : Option ResultType
  pub reason : Option String
  pub message : Option String
  pub received_type : Option String
  pub created_at : ℕ
  pub updated_at : ℕ

-- What identifies a request, with the type of its command.
pub record RequestInput : Type 0 where
  pub game_id : String
  pub user_id : String
  pub request_id : String
  pub command_type : String

pub data RequestIdempotencyBeginResult : Type 0 where
  acquired : RequestIdempotencyRecord → RequestIdempotencyBeginResult
  duplicate_processing : RequestIdempotencyRecord → RequestIdempotencyBeginResult
  duplicate_completed : RequestIdempotencyRecord → RequestIdempotencyBeginResult

unfoldable pub request_key : RequestInput → String
request_key i =
    String.◌++◌ "idempotency:" (
      String.◌++◌ i.game_id
        (String.◌++◌ ":" (String.◌++◌ i.user_id (String.◌++◌ ":" i.request_id))))

-- `REQUEST_ID_TTL_SECONDS`, in milliseconds
abbrev pub request_ttl : Option ℕ → ℕ
request_ttl raw = positive_or 86400 raw * 1000

-- The record of a request on which work begins.
abbrev pub begun_record : RequestInput → ℕ → RequestIdempotencyRecord
begun_record i now = record {
  game_id = i.game_id;
  user_id = i.user_id;
  request_id = i.request_id;
  command_type = i.command_type;
  status = processing;
  result_type = none;
  reason = none;
  message = none;
  received_type = none;
  created_at = now;
  updated_at = now;
}

-- The answer to a request whose key is taken.
abbrev pub duplicate :
    Option RequestIdempotencyRecord → RequestIdempotencyRecord → RequestIdempotencyBeginResult
duplicate none own = duplicate_processing own
duplicate (some current) own = elim current.status [
  | completed ↦ duplicate_completed current
  | processing ↦ duplicate_processing current
]

-- How a command ended, as `completeAccepted` and `completeRejected` take it.
pub data Ending : Type 0 where
  accepted_with : String → Ending
  rejected_with : String → String → Ending

abbrev pub created_at_of : Option RequestIdempotencyRecord → ℕ → ℕ
created_at_of none now = now
created_at_of (some current) now = current.created_at

abbrev pub completed_record : RequestInput → Ending → ℕ → ℕ → RequestIdempotencyRecord
completed_record i (accepted_with received_type) created now = record {
  game_id = i.game_id;
  user_id = i.user_id;
  request_id = i.request_id;
  command_type = i.command_type;
  status = completed;
  result_type = some command_accepted;
  reason = none;
  message = none;
  received_type = some received_type;
  created_at = created;
  updated_at = now;
}
completed_record i (rejected_with reason message) created now = record {
  game_id = i.game_id;
  user_id = i.user_id;
  request_id = i.request_id;
  command_type = i.command_type;
  status = completed;
  result_type = some command_rejected;
  reason = some reason;
  message = some message;
  received_type = none;
  created_at = created;
  updated_at = now;
}

module _ (redis : Redis RequestIdempotencyRecord) (raw_ttl : Option ℕ) where
  open redis use {Store, get, set, set_nx}

  unfoldable pub begin : RequestInput → ℕ → Store → RequestIdempotencyBeginResult × Store
  begin i now s =
      let (fresh, s') = set_nx now (request_key i) (begun_record i now) (request_ttl raw_ttl) s in
      (
        if fresh
            then acquired (begun_record i now)
            else duplicate (get now (request_key i) s') (begun_record i now),
        s',
      )

  -- `completeAccepted` and `completeRejected`, by `complete`
  unfoldable pub complete : RequestInput → Ending → ℕ → Store → Store
  complete i ending now s =
      let created = created_at_of (get now (request_key i) s) now in
      set now (request_key i) (completed_record i ending created now) (request_ttl raw_ttl) s
