-- ===== src/Commands/Echo.antt =====
-- The request ids of the answers of apps/api/src/game-commands/game-command.service.ts.
use mafia_casefile.Prelude.{
  ℕ, ◌≡◌, refl, String, Bool, true, false, Option, none, some, List, Dict, lookup, ◌==◌,
  if◌then◌else◌, inl, inr, arith,
}
use mafia_casefile.Prelude.Results.{Result-cases}
use mafia_casefile.Shared.{
  Env, ChatChannel, lobby_chat, day_chat, mafia_chat, ghost_chat, system_chat,
}
use mafia_casefile.Session.Operations.{TargetKey, mafia_key, doctor_key, police_key}
use mafia_casefile.Rooms.{is_non_empty_string}
use mafia_casefile.World.{World, Action}
use mafia_casefile.Commands.{
  GameCommandUser, GameCommandEnvelope, GameCommandEffect, GameCommandResult, accepted, rejected,
  answer, CommandRejectReason, Payload, not_object, object, Field, text, flag, other,
}
use mafia_casefile.Commands.RoomCommands.{
  handle_join_room, join_with, join_reason, join_action, handle_leave_room, leave_reason,
  leave_action, handle_change_ready, ready_with, ready_reason, ready_action,
}
use mafia_casefile.Commands.StartGame.{handle_start_game, start_reason, start_action}
use mafia_casefile.Commands.Phases.{handle_next_phase, next_phase_reason, next_phase_action}
use mafia_casefile.Commands.Play.{
  handle_cast_vote, vote_with, vote_reason, vote_action, night_reason, night_action,
  handle_night_target_command, night_with,
}
use mafia_casefile.Commands.Chat.{
  handle_send_chat_message, handle_channel, handle_lobby_chat, handle_day_chat, handle_mafia_chat,
  handle_ghost_chat, parse_chat_payload, parsed, refused, ParsedChat,
}
use mafia_casefile.Commands.Dispatch.{handle_command}

abbrev pub request_id_of : GameCommandResult → String
request_id_of (accepted request_id type effects) = request_id
request_id_of (rejected request_id reason message) = request_id

-- The handler's answer is to this command.
abbrev Echoes : GameCommandEnvelope → GameCommandResult × World → Type 0
Echoes c out = request_id_of out.0 ≡ c.request_id

answer-Echoes :
    (c : GameCommandEnvelope) (reason_of : String → CommandRejectReason)
    (m : Action (List GameCommandEffect)) (w : World)
    → Echoes c (answer c reason_of m w)
unfolding answer
answer-Echoes c reason_of m w = elim (Result-cases (m w).0) [
  | inl (a, e) ↦ rw (e, answer) refl
  | inr (message, e) ↦ rw (e, answer) refl
]

-- A handler refuses a payload that is no object, and else goes by the fields.
payload-Echoes :
    (c : GameCommandEnvelope) (payload : Payload) (bad : GameCommandResult × World)
    (f : Dict Field → GameCommandResult × World)
    → Echoes c bad
    → ((fields : Dict Field) → Echoes c (f fields))
    → Echoes c (elim payload [ not_object ↦ bad | object fields ↦ f fields ])
payload-Echoes c not_object bad f b h = b
payload-Echoes c (object fields) bad f b h = h fields

if-Echoes :
    (c : GameCommandEnvelope) (b : Bool) (yes_out no_out : GameCommandResult × World)
    → Echoes c yes_out
    → Echoes c no_out
    → Echoes c (if b then yes_out else no_out)
if-Echoes c true y n hy hn = hy
if-Echoes c false y n hy hn = hn

module _ (c : GameCommandEnvelope) (now : ℕ) (w : World) where
  join_with-Echoes :
      (user : GameCommandUser) (field : Option Field) → Echoes c (join_with c user field now w)
  unfolding join_with
  join_with-Echoes user (some (text nickname)) =
      if-Echoes c (is_non_empty_string nickname) _ _
        (answer-Echoes c join_reason (join_action c user nickname now) w) refl
  join_with-Echoes user (some (flag b)) = refl
  join_with-Echoes user (some other) = refl
  join_with-Echoes user none = refl

  handle_join_room-Echoes :
      (user : Option GameCommandUser) → Echoes c (handle_join_room c user now w)
  unfolding handle_join_room
  handle_join_room-Echoes none = refl
  handle_join_room-Echoes (some user) =
      payload-Echoes c c.payload _ _ refl
        (λ fields. join_with-Echoes user (lookup "nickname" fields))

  handle_leave_room-Echoes :
      (user : Option GameCommandUser) → Echoes c (handle_leave_room c user now w)
  unfolding handle_leave_room
  handle_leave_room-Echoes none = refl
  handle_leave_room-Echoes (some user) = answer-Echoes c leave_reason (leave_action c user now) w

  ready_with-Echoes :
      (user : GameCommandUser) (field : Option Field) → Echoes c (ready_with c user field now w)
  unfolding ready_with
  ready_with-Echoes user (some (flag is_ready)) =
      answer-Echoes c ready_reason (ready_action c user is_ready now) w
  ready_with-Echoes user (some (text t)) = refl
  ready_with-Echoes user (some other) = refl
  ready_with-Echoes user none = refl

  handle_change_ready-Echoes :
      (user : Option GameCommandUser) → Echoes c (handle_change_ready c user now w)
  unfolding handle_change_ready
  handle_change_ready-Echoes none = refl
  handle_change_ready-Echoes (some user) =
      payload-Echoes c c.payload _ _ refl
        (λ fields. ready_with-Echoes user (lookup "isReady" fields))

  handle_start_game-Echoes :
      (env : Env) (seats cards : ℕ → ℕ) (user : Option GameCommandUser)
      → Echoes c (handle_start_game env seats cards c user now w)
  unfolding handle_start_game
  handle_start_game-Echoes env seats cards none = refl
  handle_start_game-Echoes env seats cards (some user) =
      payload-Echoes c c.payload _ _ refl
        (λ fields. answer-Echoes c start_reason (start_action env seats cards c user now) w)

  handle_next_phase-Echoes :
      (env : Env) (user : Option GameCommandUser) → Echoes c (handle_next_phase env c user now w)
  unfolding handle_next_phase
  handle_next_phase-Echoes env none = refl
  handle_next_phase-Echoes env (some user) =
      payload-Echoes c c.payload _ _ refl
        (λ fields. answer-Echoes c next_phase_reason (next_phase_action env c user now) w)

  vote_with-Echoes :
      (env : Env) (user : GameCommandUser) (field : Option Field)
      → Echoes c (vote_with env c user field now w)
  unfolding vote_with
  vote_with-Echoes env user (some (text target_id)) =
      if-Echoes c (is_non_empty_string target_id) _ _
        (answer-Echoes c vote_reason (vote_action env c user target_id now) w) refl
  vote_with-Echoes env user (some (flag b)) = refl
  vote_with-Echoes env user (some other) = refl
  vote_with-Echoes env user none = refl

  handle_cast_vote-Echoes :
      (env : Env) (user : Option GameCommandUser) → Echoes c (handle_cast_vote env c user now w)
  unfolding handle_cast_vote
  handle_cast_vote-Echoes env none = refl
  handle_cast_vote-Echoes env (some user) =
      payload-Echoes c c.payload _ _ refl
        (λ fields. vote_with-Echoes env user (lookup "targetUserId" fields))

  night_with-Echoes :
      (key : TargetKey) (user : GameCommandUser) (field : Option Field)
      → Echoes c (night_with key c user field now w)
  unfolding night_with
  night_with-Echoes key user (some (text target_id)) =
      if-Echoes c (is_non_empty_string target_id) _ _
        (answer-Echoes c night_reason (night_action key c user target_id now) w) refl
  night_with-Echoes key user (some (flag b)) = refl
  night_with-Echoes key user (some other) = refl
  night_with-Echoes key user none = refl

  handle_night_target_command-Echoes :
      (key : TargetKey) (user : Option GameCommandUser)
      → Echoes c (handle_night_target_command key c user now w)
  unfolding handle_night_target_command
  handle_night_target_command-Echoes key none = refl
  handle_night_target_command-Echoes key (some user) =
      payload-Echoes c c.payload _ _ refl
        (λ fields. night_with-Echoes key user (lookup "targetUserId" fields))

  handle_channel-Echoes :
      (channel : ChatChannel) (user : GameCommandUser) (message : String)
      → Echoes c (handle_channel channel c user message now w)
  unfolding handle_lobby_chat handle_day_chat handle_mafia_chat handle_ghost_chat
  handle_channel-Echoes lobby_chat user message = ground arith
  handle_channel-Echoes day_chat user message = ground arith
  handle_channel-Echoes mafia_chat user message = ground arith
  handle_channel-Echoes ghost_chat user message = ground arith
  handle_channel-Echoes system_chat user message = ground arith

  handle_send_chat_message-Echoes :
      (user : Option GameCommandUser) → Echoes c (handle_send_chat_message c user now w)
  unfolding handle_send_chat_message
  handle_send_chat_message-Echoes none = refl
  handle_send_chat_message-Echoes (some user) = said (parse_chat_payload c.payload)
    where
      said :
          (p : ParsedChat)
          → Echoes c (elim p [
            | refused reason message ↦ (rejected c.request_id reason message, w)
            | parsed channel message ↦ handle_channel channel c user message now w
          ])
      said (refused reason message) = refl
      said (parsed channel message) = handle_channel-Echoes channel user message

  -- The answer to a command bears the command's request id.
  pub handle_command-request_id :
      (env : Env) (seats cards : ℕ → ℕ) (user : Option GameCommandUser)
      → request_id_of ((handle_command env seats cards c user now w).0) ≡ c.request_id
  unfolding handle_command
  handle_command-request_id env seats cards user =
      if-Echoes c (c.type == "JOIN_ROOM") _ _ (handle_join_room-Echoes user) (
        if-Echoes c (c.type == "LEAVE_ROOM") _ _ (handle_leave_room-Echoes user) (
          if-Echoes c (c.type == "CHANGE_READY") _ _ (handle_change_ready-Echoes user) (
            if-Echoes c (c.type == "START_GAME") _ _ (handle_start_game-Echoes env seats cards user)
              (if-Echoes c (c.type == "NEXT_PHASE") _ _ (handle_next_phase-Echoes env user) (
                if-Echoes c (c.type == "CAST_VOTE") _ _ (handle_cast_vote-Echoes env user) (
                  if-Echoes c (c.type == "SELECT_MAFIA_TARGET") _ _
                    (handle_night_target_command-Echoes mafia_key user)
                    (if-Echoes c (c.type == "SELECT_DOCTOR_TARGET") _ _
                      (handle_night_target_command-Echoes doctor_key user)
                      (if-Echoes c (c.type == "SELECT_POLICE_TARGET") _ _
                        (handle_night_target_command-Echoes police_key user)
                        (if-Echoes c (c.type == "SEND_CHAT_MESSAGE") _ _
                          (handle_send_chat_message-Echoes user) refl)))))))))
