-- ===== src/Realtime/Envelope.antt =====
-- apps/api/src/realtime/command-envelope.ts: a message of a client as a command.
pub mod Exact
use mafia_casefile.Prelude.{String, Bool, true, false, not, ◌||◌, Option, none, some, if◌then◌else◌}
use mafia_casefile.Rooms.{is_non_empty_string}
use mafia_casefile.Commands.{
  CommandRejectReason, invalid_command_envelope, GameCommandEnvelope, Field, text, flag, other,
  Payload,
}
use mafia_casefile.Commands.Reasons.{get_command_reject_message}

-- A message: no object, or one with these fields, where they are there. What else it holds is not
-- looked at.
pub record BodyFields : Type 0 where
  pub type : Option Field
  pub request_id : Option Field
  pub game_id : Option Field
  pub payload : Option Payload

pub data Body : Type 0 where
  no_object : Body
  with_fields : BodyFields → Body

pub record CommandRejectedEvent : Type 0 where
  pub request_id : Option String
  pub reason : CommandRejectReason
  pub message : String

pub data ParsedEnvelope : Type 0 where
  envelope : GameCommandEnvelope → ParsedEnvelope
  refusal : CommandRejectedEvent → ParsedEnvelope

-- `isNonEmptyString`, with the string
abbrev pub non_empty_text : Option Field → Option String
non_empty_text (some (text value)) = if is_non_empty_string value then some value else none
non_empty_text _ = none

-- `typeof value.requestId === 'string' ? value.requestId : undefined`
abbrev pub any_text : Option Field → Option String
any_text (some (text value)) = some value
any_text _ = none

abbrev pub build_rejected_event : Option String → CommandRejectedEvent
build_rejected_event request_id = record {
  request_id = request_id;
  reason = invalid_command_envelope;
  message = get_command_reject_message invalid_command_envelope;
}

-- The envelope of four fields that are all as they should be.
abbrev pub envelope_of :
    Option String
    → Option String
    → Option String
    → Option Payload
    → CommandRejectedEvent
    → ParsedEnvelope
envelope_of (some type) (some request_id) (some game_id) (some payload) bad =
    envelope (record { request_id = request_id; game_id = game_id; type = type; payload = payload })
envelope_of _ _ _ _ bad = refusal bad

unfoldable pub parse_command_envelope : Body → ParsedEnvelope
parse_command_envelope no_object = refusal (build_rejected_event none)
parse_command_envelope (with_fields b) =
    envelope_of (non_empty_text b.type) (non_empty_text b.request_id) (non_empty_text b.game_id)
      b.payload (build_rejected_event (any_text b.request_id))
