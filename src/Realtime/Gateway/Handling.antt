-- ===== src/Realtime/Gateway/Handling.antt =====
-- apps/api/src/realtime/realtime.gateway.ts: a command message, from the socket to its answer.
pub mod Answered
pub mod AtMostOnce
pub mod Unlocks
use mafia_casefile.Prelude.{
  ℕ, String, Bool, true, false, Option, none, some, List, [], ◌∷◌, if◌then◌else◌,
}
use mafia_casefile.Commands.{
  GameCommandUser, GameCommandEnvelope, GameCommandResult, accepted, rejected, game_lock_busy,
  room_command_failed, duplicate_request_in_progress, CommandRejectReason,
}
use mafia_casefile.Commands.Reasons.{reason_name, normalize_command_reject_reason}
use mafia_casefile.Commands.Dispatch.{handle_command}
use mafia_casefile.Realtime.Redis.{Redis}
use mafia_casefile.Realtime.Requests.{
  RequestIdempotencyRecord, ResultType, command_accepted, command_rejected, RequestInput,
  RequestIdempotencyBeginResult, acquired, duplicate_processing, duplicate_completed, begin,
  complete, Ending, accepted_with, rejected_with,
}
use mafia_casefile.Realtime.Locks.{
  GameCommandLock, Waited, got, busy, out_of_fuel, acquire, release,
}
use mafia_casefile.Realtime.Envelope.{
  Body, envelope, refusal, ParsedEnvelope, parse_command_envelope,
}
use mafia_casefile.Realtime.Gateway.{Reply, Emission, to_socket, Client, Platform, Server}
use mafia_casefile.Realtime.Gateway.Effects.{
  emit, emit_accepted, emit_room_rejected, apply_command_effects,
}

-- What a delivery of a message meets: the clock at each step, the draws of a started game, the tokens
-- and the other commands during the wait for the lock, and which calls of Redis throw. The rest of
-- the server stands still during the wait.
pub record Delivery (p : Platform) : Type 0 where
  pub begun_at : ℕ
  pub clock : ℕ → ℕ
  pub tokens : ℕ → String
  pub others : ℕ → Redis.Store p.locks → Redis.Store p.locks
  pub executed_at : ℕ
  pub seats : ℕ → ℕ
  pub cards : ℕ → ℕ
  pub completed_at : ℕ
  pub released_at : ℕ
  pub begin_fails : Bool
  pub acquire_fails : Bool
  pub complete_fails : Bool
  pub release_fails : Bool

abbrev pub request_of : GameCommandEnvelope → GameCommandUser → RequestInput
request_of c user = record {
  game_id = c.game_id;
  user_id = user.id;
  request_id = c.request_id;
  command_type = c.type;
}

-- How the request's record is completed after a result.
abbrev pub ending_of : GameCommandResult → Ending
ending_of (accepted request_id type effects) = accepted_with type
ending_of (rejected request_id reason message) = rejected_with (reason_name reason) message

abbrev pub text_or : Option String → String → String
text_or none default = default
text_or (some value) default = value

-- `normalizeCommandRejectReason(record.reason)`, where the reason may be missing
abbrev pub reason_or_failed : Option String → CommandRejectReason
reason_or_failed none = room_command_failed
reason_or_failed (some name) = normalize_command_reject_reason name

-- The answer that a completed record holds.
abbrev pub completed_reply : Option ResultType → RequestIdempotencyRecord → String → Reply
completed_reply (some command_accepted) done received_type =
    Reply.command_accepted done.request_id (text_or done.received_type received_type)
completed_reply _ done received_type = Reply.command_rejected (record {
  request_id = some done.request_id;
  reason = reason_or_failed done.reason;
  message = text_or done.message "Command failed.";
})

module _ (p : Platform) where
  unfoldable pub respond : Client → GameCommandResult → ℕ → Server p → Server p
  respond client (rejected request_id reason message) now s =
      emit_room_rejected p client request_id reason message s
  respond client (accepted request_id type effects) now s =
      emit_accepted p client request_id type
        (apply_command_effects p client client.user now effects s)

  -- The call of the command service.
  abbrev pub run_command :
      GameCommandEnvelope
      → Option GameCommandUser
      → Delivery p
      → Server p
      → GameCommandResult × Server p
  run_command c user d s =
      let (answered, w) = handle_command p.env d.seats d.cards c user d.executed_at s.world in
      (answered, record s { world = w })

  unfoldable pub handle_command_without_idempotency :
      Client → GameCommandEnvelope → Delivery p → Server p → Server p
  handle_command_without_idempotency client c d s =
      let (answered, s') = run_command c client.user d s in respond client answered d.executed_at s'

  -- `completeRequestAccepted` and `completeRequestRejected`
  unfoldable pub complete_request :
      GameCommandEnvelope → GameCommandUser → Ending → Delivery p → Server p → Server p
  complete_request c user ending d s = if d.complete_fails then s else record s {
    requests =
        complete p.requests p.request_ttl (request_of c user) ending d.completed_at s.requests;
  }

  unfoldable pub execute_command_with_completion :
      Client → GameCommandEnvelope → GameCommandUser → Delivery p → Server p → Server p
  execute_command_with_completion client c user d s =
      let (answered, s') = run_command c client.user d s in
      complete_request c user (ending_of answered) d (respond client answered d.executed_at s')

  unfoldable pub release_lock : GameCommandLock → Delivery p → Server p → Server p
  release_lock lock d s =
      if d.release_fails
      then s
      else record s { locks = (release p.locks lock d.released_at s.locks).1 }

  abbrev pub busy_message : String
  busy_message = "Game command is busy. Retry later."

  -- After the wait for the lock.
  unfoldable pub handle_waited :
      Client → GameCommandEnvelope → GameCommandUser → Delivery p → Waited → Server p → Server p
  handle_waited client c user d (got lock) s =
      release_lock lock d (execute_command_with_completion client c user d s)
  handle_waited client c user d busy s =
      complete_request c user (rejected_with (reason_name game_lock_busy) busy_message) d
        (emit_room_rejected p client c.request_id game_lock_busy busy_message s)
  handle_waited client c user d out_of_fuel s = s

  unfoldable pub handle_command_with_idempotency :
      Client → GameCommandEnvelope → GameCommandUser → Delivery p → Server p → Server p
  handle_command_with_idempotency client c user d s =
      let (waited, locks) =
        acquire p.locks p.lock_settings d.clock d.tokens d.others c.game_id s.locks in
      if d.acquire_fails
      then execute_command_with_completion client c user d s
      else handle_waited client c user d waited (record s { locks = locks })

  unfoldable pub emit_completed_request :
      Client → RequestIdempotencyRecord → String → Server p → Server p
  emit_completed_request client done received_type s =
      emit p (to_socket client.socket_id (completed_reply done.result_type done received_type)) s

  -- After `begin` of the request's record.
  unfoldable pub handle_begun :
      Client
      → GameCommandEnvelope
      → GameCommandUser
      → Delivery p
      → RequestIdempotencyBeginResult
      → Server p
      → Server p
  handle_begun client c user d (duplicate_processing own) s =
      emit_room_rejected p client c.request_id duplicate_request_in_progress
        "Duplicate request is already processing." s
  handle_begun client c user d (duplicate_completed done) s =
      emit_completed_request client done c.type s
  handle_begun client c user d (acquired own) s = handle_command_with_idempotency client c user d s

  unfoldable pub handle_parsed :
      Client → GameCommandEnvelope → Option GameCommandUser → Delivery p → Server p → Server p
  handle_parsed client c none d s = handle_command_without_idempotency client c d s
  handle_parsed client c (some user) d s =
      let (begun, requests) =
        begin p.requests p.request_ttl (request_of c user) d.begun_at s.requests in
      if d.begin_fails
      then handle_command_without_idempotency client c d s
      else handle_begun client c user d begun (record s { requests = requests })

  unfoldable pub handle_message : Client → Body → Delivery p → Server p → Server p
  handle_message client body d s = elim (parse_command_envelope body) [
    | refusal event ↦ emit p (to_socket client.socket_id (Reply.command_rejected event)) s
    | envelope c ↦ handle_parsed client c client.user d s
  ]
