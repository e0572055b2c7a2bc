-- ===== src/Examples/RealtimeTests.antt =====
-- Instances of the theorems on the services of the socket gateway.
use mafia_casefile.Prelude.{
  ◌≡◌, ◌≢◌, ◌↔◌, refl, ℕ, ◌≤◌, String, true, false, none, some, [], ◌∷◌, lookup, eqb, arith, inr,
  ◌==◌, eq_iff, if◌then◌else◌,
}
use mafia_casefile.Shared.{day_chat, mafia_chat, Role}
use mafia_casefile.Session.{find_player}
use mafia_casefile.Session.Operations.{doctor_key, cast_vote, select_night_action}
use mafia_casefile.Sessions.{find_by_game_id}
use mafia_casefile.Commands.{not_object, game_lock_busy, ChatMessageEvent, GameCommandEnvelope}
use mafia_casefile.Commands.Reasons.{
  reason_name, normalize_command_reject_reason, normalize-reason_name,
}
use mafia_casefile.Realtime.Redis.{positive_or, memory, memory_get, live}
use mafia_casefile.Realtime.Requests.{
  RequestIdempotencyRecord, RequestInput, accepted_with, duplicate_completed, completed_record,
  begin, complete,
}
use mafia_casefile.Realtime.Requests.Answers.{begin-complete}
use mafia_casefile.Realtime.Locks.{GameCommandLock, LockSettings, acquire, try_lock, release}
use mafia_casefile.Realtime.Locks.Exclusion.{Sleeps, is_settled, acquire-is_settled}
use mafia_casefile.Realtime.Locks.Holding.{tries, releases, run, lock-excludes}
use mafia_casefile.Realtime.Connections.{
  RealtimeConnectionState, ConnectionStore, mark_connected, mark_disconnected, set_room, clear_room,
}
use mafia_casefile.Realtime.Connections.Latest.{mark_connected-supersedes}
use mafia_casefile.Realtime.ChatCache.{memory_lists, get_recent, clear}
use mafia_casefile.Realtime.ChatCache.Recent.{append_all, get_recent-append_all}
use mafia_casefile.Realtime.AvailableActions.{AvailableActionType, build_for_player}
use mafia_casefile.Realtime.AvailableActions.Exact.{
  offers, is_ok, offers-cast_vote, offers-select_target,
}
use mafia_casefile.Realtime.Timers.{
  PhaseTimerEntry, Dates, schedule, list_due, clear_game, zrem_if_any,
}
use mafia_casefile.Realtime.Timers.Memory.{
  memory_timers, score_in, without, members_of, is_due, take,
}
use mafia_casefile.Realtime.Timers.Deadlines.{schedule-score, list_due-schedule}
use mafia_casefile.Realtime.Envelope.{envelope, parse_command_envelope}
use mafia_casefile.Realtime.Envelope.Exact.{body_of, IsNamed, parse_command_envelope-exact}
use mafia_casefile.Realtime.ReconnectState.{build_reconnect_state, state_of_room, restored_for}
use mafia_casefile.Realtime.ReconnectState.Chats.{IsOwnState, build_reconnect_state-IsOwnState}
use mafia_casefile.Examples.{env, night_game, voting_game, player}
use mafia_casefile.Examples.SessionTests.{voting_game-IsValid, night_game-IsValid}

abbrev pub settings : LockSettings
settings = record { raw_ttl = none; raw_wait = some 2; raw_retry = some 1 }

-- Each round is a millisecond after the last.
abbrev pub ticking : ℕ → ℕ
ticking i = i

abbrev pub token : ℕ → String
token i = if eqb i 0 then "first" else "later"

pub ticking-Sleeps : Sleeps settings ticking
unfolding positive_or
ticking-Sleeps i = ground arith

acquire-is_settled_example :
    is_settled ((acquire (memory String) settings ticking token (λ i s. s) "g" []).0) ≡ true
acquire-is_settled_example =
    acquire-is_settled (memory String) settings ticking token ticking-Sleeps (λ i s. s) "g" []

differs : (s t : String) → (s == t) ≡ false → s ≢ t
differs s t ne e = ground (arith, eq_iff s t)

abbrev lock : String → GameCommandLock
lock id = record { game_id = "g"; token = id }

lock-excludes_example :
    let taken = try_lock (memory String) settings "g" "a" 0 [] in
    let later =
      run (memory String) settings (tries (lock "b") 1 ∷ releases (lock "c") 2 ∷ []) taken.1 in
    (taken.0 ≡ true)
    × ((try_lock (memory String) settings "g" "b" 3 later).0 ≡ false)
    × ((release (memory String) (lock "a") 3 later).0 ≡ true)
unfolding memory_get lookup live positive_or
lock-excludes_example =
    lock-excludes (memory String) settings (lock "a") "b" 0 3
      (tries (lock "b") 1 ∷ releases (lock "c") 2 ∷ []) [] refl
      (
        omega arith,
        omega arith,
        inr (differs "b" "a" refl),
        (omega arith, omega arith, inr (differs "c" "a" refl), tt),
      )
      (omega arith) (omega arith)

abbrev request : RequestInput
request = record { game_id = "g"; user_id = "ann"; request_id = "r"; command_type = "CAST_VOTE" }

begin-complete_example :
    let done =
      complete (memory RequestIdempotencyRecord) none request (accepted_with "CAST_VOTE") 5 [] in
    begin (memory RequestIdempotencyRecord) none request 9 done
    ≡ (duplicate_completed (completed_record request (accepted_with "CAST_VOTE") 5 5), done)
unfolding memory_get lookup live positive_or
begin-complete_example =
    begin-complete (memory RequestIdempotencyRecord) none request (accepted_with "CAST_VOTE") 5 9 []
      (omega arith) (omega arith)

normalize-reason_name_example :
    normalize_command_reject_reason (reason_name game_lock_busy) ≡ game_lock_busy
normalize-reason_name_example = normalize-reason_name game_lock_busy

abbrev no_connections : ConnectionStore (memory RealtimeConnectionState) none
no_connections = record { users = []; sockets = [] }

mark_connected-supersedes_example :
    let connections = memory RealtimeConnectionState in
    let latest = mark_connected connections none "ann" "new" 0 no_connections in
    (mark_disconnected connections none "ann" "old" 1 latest.1 ≡ latest)
    × (set_room connections none "ann" "old" "g" 1 latest.1 ≡ latest)
    × (clear_room connections none "ann" "old" "g" 1 latest.1 ≡ latest)
unfolding positive_or
mark_connected-supersedes_example =
    mark_connected-supersedes (memory RealtimeConnectionState) none "ann" "old" "new" "g" 0 1
      no_connections (differs "new" "old" refl) (omega arith) (omega arith)

abbrev said : String → ℕ → ChatMessageEvent
said message at = record {
  game_id = "g";
  channel = day_chat;
  message = message;
  sender_user_id = "ann";
  sent_at = at;
}

abbrev said_of_mafia : ChatMessageEvent
said_of_mafia = record (said "secret" 2) { channel = mafia_chat }

-- Of three messages, a cache of two keeps the last two; one of another channel in between is no matter.
get_recent-append_all_example :
    let chats = memory_lists ChatMessageEvent in
    get_recent chats (some 2) "g" day_chat (
      append_all chats
        (some 2)
        (said "one" 1 ∷ said "two" 2 ∷ said_of_mafia ∷ said "three" 3 ∷ [])
        (clear chats (some 2) "g" day_chat (λ k. said "old" 0 ∷ [])))
    ≡ said "two" 2 ∷ said "three" 3 ∷ []
unfolding positive_or
get_recent-append_all_example =
    get_recent-append_all (memory_lists ChatMessageEvent) (some 2) "g" day_chat
      (said "one" 1 ∷ said "two" 2 ∷ said_of_mafia ∷ said "three" 3 ∷ []) (λ k. said "old" 0 ∷ [])

-- The citizen may still vote for the mafia.
offers-cast_vote_example :
    offers AvailableActionType.cast_vote "ann" (build_for_player voting_game "dee")
    ≡ is_ok (cast_vote env voting_game "dee" "ann" "r" 7)
unfolding find_player lookup
offers-cast_vote_example =
    offers-cast_vote env voting_game "dee" "ann" "r" 7 (player "dee" Role.citizen)
      voting_game-IsValid.distinct refl refl refl refl

-- The doctor has chosen nobody yet.
offers-select_target_example :
    offers AvailableActionType.select_doctor_target "bob" (build_for_player night_game "bob")
    ≡ is_ok (select_night_action night_game "bob" "bob" Role.doctor doctor_key 7)
unfolding find_player
offers-select_target_example =
    offers-select_target doctor_key night_game "bob" "bob" 7 (player "bob" Role.doctor)
      night_game-IsValid.distinct refl refl refl

abbrev pub dates : Dates
dates = record {
  date_parse = λ t. if t == "soon" then some 60000 else none;
  to_iso = λ n. if eqb n 60000 then "soon" else "never";
}

abbrev soon : PhaseTimerEntry
soon = record { game_id = "g"; phase_ends_at = "soon" }

abbrev old : PhaseTimerEntry
old = record { game_id = "g"; phase_ends_at = "now" }

-- The old timer of the game gives way to the new one.
schedule-score_example : score_in old (schedule memory_timers dates soon ((old, 5) ∷ [])) ≡ none
schedule-score_example = schedule-score memory_timers dates soon old 60000 ((old, 5) ∷ []) refl

list_due-schedule_example : (soon ≡ soon) × (60000 ≤ 70000)
unfolding list_due schedule clear_game zrem_if_any score_in without members_of is_due take
list_due-schedule_example =
    list_due-schedule memory_timers dates soon soon 60000 70000 10 ((old, 5) ∷ []) refl refl refl

abbrev vote : GameCommandEnvelope
vote = record { request_id = "r"; game_id = "g"; type = "CAST_VOTE"; payload = not_object }

parse_command_envelope-exact_example :
    (parse_command_envelope (body_of vote) ≡ envelope vote)
    ↔ ((body_of vote ≡ body_of vote) × IsNamed vote)
parse_command_envelope-exact_example = parse_command_envelope-exact (body_of vote) vote

build_reconnect_state-IsOwnState_example : IsOwnState "ann" "g" (("g", night_game) ∷ []) (
    build_reconnect_state
      (memory_lists ChatMessageEvent)
      none
      "ann"
      (some "g")
      (("g", night_game) ∷ [])
      (λ k. said "hi" 1 ∷ []))
unfolding build_reconnect_state state_of_room restored_for find_player find_by_game_id lookup
build_reconnect_state-IsOwnState_example =
    build_reconnect_state-IsOwnState (memory_lists ChatMessageEvent) none "ann" "g"
      (("g", night_game) ∷ []) (λ k. said "hi" 1 ∷ []) refl refl
