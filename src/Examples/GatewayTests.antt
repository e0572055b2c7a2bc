-- ===== src/Examples/GatewayTests.antt =====
-- A gateway on servers that keep everything in memory, and instances of the theorems on it.
use mafia_casefile.Prelude.{
  ◌≡◌, refl, ℕ, String, false, none, some, List, [], ◌∷◌, ◌++◌, lookup, trim, arith,
}
use mafia_casefile.Rooms.{is_non_empty_string}
use mafia_casefile.World.{World}
use mafia_casefile.Commands.{
  GameCommandUser, GameCommandEnvelope, text, duplicate_request_in_progress, ChatMessageEvent,
}
use mafia_casefile.Realtime.Redis.{Redis, positive_or, memory, memory_get, live}
use mafia_casefile.Realtime.Requests.{RequestIdempotencyRecord, begin}
use mafia_casefile.Realtime.Connections.{RealtimeConnectionState}
use mafia_casefile.Realtime.ChatCache.{memory_lists}
use mafia_casefile.Realtime.Timers.{PhaseTimerEntry}
use mafia_casefile.Realtime.Timers.Memory.{memory_timers}
use mafia_casefile.Realtime.Envelope.{parse_command_envelope, envelope}
use mafia_casefile.Realtime.Envelope.Exact.{body_of}
use mafia_casefile.Realtime.Gateway.{Reply, Emission, to_socket, Client, Platform, Server}
use mafia_casefile.Realtime.Gateway.Effects.{emit, emit_room_rejected}
use mafia_casefile.Realtime.Gateway.Handling.{
  Delivery, request_of, handle_message, handle_parsed, handle_command_with_idempotency,
}
use mafia_casefile.Realtime.Gateway.Handling.Unlocks.{handle_command_with_idempotency-lock_free}
use mafia_casefile.Realtime.Locks.{lock_key}
use mafia_casefile.Realtime.Gateway.Handling.AtMostOnce.{
  handle_parsed-in_progress, handle_message-at_most_once,
}
use mafia_casefile.Realtime.Gateway.Timing.{Tick}
use mafia_casefile.Examples.{env, voting_game, world}
use mafia_casefile.Examples.WorldTests.{command, in_place}
use mafia_casefile.Examples.RealtimeTests.{settings, ticking, token, ticking-Sleeps, dates}

abbrev platform : Platform
platform = record {
  env = env;
  dates = dates;
  requests = memory RequestIdempotencyRecord;
  request_ttl = none;
  locks = memory String;
  lock_settings = settings;
  connections = memory RealtimeConnectionState;
  connection_ttl = none;
  chats = memory_lists ChatMessageEvent;
  chat_limit = none;
  timers = memory_timers;
  grace_period = none;
  server_instance_id = "api";
}

abbrev server_of : World → Server platform
server_of w = record {
  world = w;
  requests = [];
  locks = [];
  connections = record { users = []; sockets = [] };
  chats = λ k. [];
  timers = [];
  sent = [];
}

abbrev ann : GameCommandUser
ann = record { id = "ann"; email = "ann" }

abbrev on_socket : String → Client
on_socket id = record { socket_id = id; user = some ann }

abbrev delivery : ℕ → Delivery platform
delivery at = record {
  begun_at = at;
  clock = ticking;
  tokens = token;
  others = λ i s. s;
  executed_at = at;
  seats = in_place;
  cards = in_place;
  completed_at = at;
  released_at = at;
  begin_fails = false;
  acquire_fails = false;
  complete_fails = false;
  release_fails = false;
}

abbrev vote : GameCommandEnvelope
vote = command "CAST_VOTE" (("targetUserId", text "bob") ∷ [])

vote_parses : parse_command_envelope (body_of vote) ≡ envelope vote
unfolding parse_command_envelope is_non_empty_string trim
vote_parses = refl

-- A vote that comes in again on another socket.
handle_message-at_most_once_example :
    let once =
      handle_message platform
        (on_socket "s")
        (body_of vote)
        (delivery 0)
        (server_of (world voting_game)) in
    (before : List Emission) × (reply : Reply) × (once.sent ≡ before ++ to_socket "s" reply ∷ [])
    × (handle_message platform (on_socket "t") (body_of vote) (delivery 7) once
        ≡ emit platform (to_socket "t" reply) once)
unfolding memory_get lookup live positive_or
handle_message-at_most_once_example =
    handle_message-at_most_once platform (on_socket "s") (on_socket "t") ann (body_of vote) vote
      (delivery 0) (delivery 7) (server_of (world voting_game)) vote_parses refl refl refl
      ticking-Sleeps refl refl refl (omega arith) (omega arith)

abbrev working : Server platform
working = record (server_of (world voting_game)) {
  requests = (begin (memory RequestIdempotencyRecord) none (request_of vote ann) 0 []).1;
}

handle_parsed-in_progress_example :
    handle_parsed platform (on_socket "t") vote (some ann) (delivery 7) working
    ≡ emit_room_rejected platform
        (on_socket "t")
        "r"
        duplicate_request_in_progress
        "Duplicate request is already processing."
        working
unfolding memory_get lookup live positive_or
handle_parsed-in_progress_example =
    handle_parsed-in_progress platform (on_socket "t") vote ann (delivery 7) 0 [] working refl refl
      (omega arith) (omega arith) refl

abbrev tick : Tick platform
tick = record {
  clock = ticking;
  tokens = token;
  others = λ i s. s;
  request_id = "auto";
  advanced_at = 2;
  released_at = 3;
  acquire_fails = false;
  release_fails = false;
}

abbrev night_ends : PhaseTimerEntry
night_ends = record { game_id = "g"; phase_ends_at = "never" }

handle_command_with_idempotency-lock_free_example :
    Redis.get (memory String) 9 (lock_key "g") (
      Server.locks (
        handle_command_with_idempotency platform
          (on_socket "s")
          vote
          ann
          (delivery 7)
          (server_of (world voting_game))))
    ≡ none
unfolding memory_get lookup live positive_or
handle_command_with_idempotency-lock_free_example =
    handle_command_with_idempotency-lock_free platform (on_socket "s") vote ann (delivery 7)
      (server_of (world voting_game)) 9 refl refl refl (omega arith) (omega arith)
