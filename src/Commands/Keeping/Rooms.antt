-- ===== src/Commands/Keeping/Rooms.antt =====
-- The commands of a waiting room keep the stores valid.
use mafia_casefile.Prelude.{◌≡◌, ℕ, String, Bool, Option, none, some, List, Dict, lookup}
use mafia_casefile.Prelude.Results.{Result, ok}
use mafia_casefile.Rooms.{Room, is_non_empty_string}
use mafia_casefile.Rooms.Operations
use mafia_casefile.Rooms.Reachable.{joined, readied, left}
use mafia_casefile.World.{World, continue, put_rooms, ◌>>◌, return, log}
use mafia_casefile.Events.{RecordEventInput}
use mafia_casefile.Commands.{
  GameCommandEnvelope, GameCommandUser, GameCommandEffect, Field, text, flag, other,
}
use mafia_casefile.Commands.RoomCommands.{
  join_action, leave_action, ready_action, handle_join_room, handle_leave_room, handle_change_ready,
  join_reason, leave_reason, ready_reason, join_with, ready_with,
}
use mafia_casefile.Commands.Keeping.{
  WorldValid, Post, Valid, continue-Post, put_rooms-Post, logged, stepped, answer-WorldValid,
  payload-WorldValid, if-WorldValid,
}

-- A method of the rooms that is followed by a record and an answer.
module _ (w : World) (v : WorldValid w) (effects : Room → List GameCommandEffect)
    (event : Room → RecordEventInput) where
  then_log :
      (r : Result (Room × Dict Room))
      → ((a : Room) (rooms : Dict Room)
          → r ≡ ok (a, rooms)
          → WorldValid (record w { rooms = rooms }))
      → Post Valid (continue (λ room. log (event room) >> return (effects room)) (put_rooms w r))
  then_log r h =
      continue-Post Valid Valid (λ room. log (event room) >> return (effects room))
        (λ a w' q. logged w' _ q) (put_rooms w r) (put_rooms-Post Valid w r h v)

join_action-Valid :
    (c : GameCommandEnvelope) (user : GameCommandUser) (nickname : String) (now : ℕ) (w : World)
    → WorldValid w
    → Post Valid (join_action c user nickname now w)
unfolding join_action
join_action-Valid c user nickname now w v =
    then_log w v _ _ (Operations.join_room c.game_id user.id nickname now w.rooms)
      (λ a rooms e. stepped w rooms v (joined c.game_id user.id nickname now a w.rooms rooms e))

leave_action-Valid :
    (c : GameCommandEnvelope) (user : GameCommandUser) (now : ℕ) (w : World)
    → WorldValid w
    → Post Valid (leave_action c user now w)
unfolding leave_action
leave_action-Valid c user now w v =
    then_log w v _ _ (Operations.leave_room c.game_id user.id now w.rooms)
      (λ a rooms e. stepped w rooms v (left c.game_id user.id now a w.rooms rooms e))

ready_action-Valid :
    (c : GameCommandEnvelope) (user : GameCommandUser) (is_ready : Bool) (now : ℕ) (w : World)
    → WorldValid w
    → Post Valid (ready_action c user is_ready now w)
unfolding ready_action
ready_action-Valid c user is_ready now w v =
    then_log w v _ _ (Operations.change_ready c.game_id user.id is_ready now w.rooms)
      (λ a rooms e. stepped w rooms v (readied c.game_id user.id is_ready now a w.rooms rooms e))

join_with-WorldValid :
    (c : GameCommandEnvelope) (user : GameCommandUser) (field : Option Field) (now : ℕ) (w : World)
    → WorldValid w
    → WorldValid ((join_with c user field now w).1)
unfolding join_with
join_with-WorldValid c user none now w v = v
join_with-WorldValid c user (some (flag b)) now w v = v
join_with-WorldValid c user (some other) now w v = v
join_with-WorldValid c user (some (text nickname)) now w v =
    if-WorldValid (is_non_empty_string nickname) _ _
      (answer-WorldValid c join_reason (join_action c user nickname now) w
        (join_action-Valid c user nickname now w v))
      v

pub handle_join_room-WorldValid :
    (c : GameCommandEnvelope) (user : Option GameCommandUser) (now : ℕ) (w : World)
    → WorldValid w
    → WorldValid ((handle_join_room c user now w).1)
unfolding handle_join_room
handle_join_room-WorldValid c none now w v = v
handle_join_room-WorldValid c (some user) now w v =
    payload-WorldValid c.payload _ _ w v
      (λ fields. join_with-WorldValid c user (lookup "nickname" fields) now w v)

pub handle_leave_room-WorldValid :
    (c : GameCommandEnvelope) (user : Option GameCommandUser) (now : ℕ) (w : World)
    → WorldValid w
    → WorldValid ((handle_leave_room c user now w).1)
unfolding handle_leave_room
handle_leave_room-WorldValid c none now w v = v
handle_leave_room-WorldValid c (some user) now w v =
    answer-WorldValid c leave_reason (leave_action c user now) w (leave_action-Valid c user now w v)

ready_with-WorldValid :
    (c : GameCommandEnvelope) (user : GameCommandUser) (field : Option Field) (now : ℕ) (w : World)
    → WorldValid w
    → WorldValid ((ready_with c user field now w).1)
unfolding ready_with
ready_with-WorldValid c user none now w v = v
ready_with-WorldValid c user (some (text s)) now w v = v
ready_with-WorldValid c user (some other) now w v = v
ready_with-WorldValid c user (some (flag is_ready)) now w v =
    answer-WorldValid c ready_reason (ready_action c user is_ready now) w
      (ready_action-Valid c user is_ready now w v)

pub handle_change_ready-WorldValid :
    (c : GameCommandEnvelope) (user : Option GameCommandUser) (now : ℕ) (w : World)
    → WorldValid w
    → WorldValid ((handle_change_ready c user now w).1)
unfolding handle_change_ready
handle_change_ready-WorldValid c none now w v = v
handle_change_ready-WorldValid c (some user) now w v =
    payload-WorldValid c.payload _ _ w v
      (λ fields. ready_with-WorldValid c user (lookup "isReady" fields) now w v)
