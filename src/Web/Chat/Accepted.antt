-- ===== src/Web/Chat/Accepted.antt =====
-- The channels of apps/web/app/play/lib/chat.ts, against the chat handlers of
-- apps/api/src/game-commands/game-command.service.ts.
use mafia_casefile.Prelude.{
  ℕ, ◌≡◌, refl, sym, ◌∙◌, String, Bool, true, false, not, ◌&&◌, ◌||◌, some, List, [], ◌∷◌, ◌++◌,
  any, arith,
}
use mafia_casefile.Shared.{
  night, day_discussion, voting, finished, phase_eq, mafia, doctor, police, role_eq, is_alive,
  is_disconnected, ChatChannel, lobby_chat, day_chat, mafia_chat, ghost_chat, system_chat,
  channel_eq,
}
use mafia_casefile.Session.{GameSession, GameSessionPlayer, find_player}
use mafia_casefile.Rooms.{RoomStatus, status_eq, Room, RoomParticipant, find_participant}
use mafia_casefile.Rooms.Operations.{find_room_by_id}
use mafia_casefile.World.{World}
use mafia_casefile.Sessions.{find_by_game_id}
use mafia_casefile.Commands.{
  GameCommandEnvelope, GameCommandUser, GameCommandResult, accepted, rejected,
}
use mafia_casefile.Commands.Chat.{
  handle_channel, handle_lobby_chat, handle_day_chat, handle_mafia_chat, handle_ghost_chat,
}
use mafia_casefile.Realtime.AvailableActions.{
  AvailableAction, actions_for, build_for_player, push_if, on_target, chat_on, cast_vote,
  select_mafia_target, select_doctor_target, select_police_target, alive_player_ids,
  other_alive_player_ids,
}
use mafia_casefile.Web.Chat.{is_chat_on, is_channel_allowed}

abbrev pub is_accepted : GameCommandResult → Bool
is_accepted (accepted request_id type effects) = true
is_accepted (rejected request_id reason message) = false

any-push_if :
    (p : AvailableAction → Bool) (b : Bool) (xs ys : List AvailableAction)
    → any p (push_if b xs ++ ys) ≡ ((b && any p xs) || any p ys)
any-push_if p false xs ys = refl
any-push_if p true [] ys = refl
any-push_if p true (x ∷ xs) ys = ground (arith, any-push_if p true xs ys)

any_last :
    (p : AvailableAction → Bool) (b : Bool) (xs : List AvailableAction)
    → any p (push_if b xs) ≡ (b && any p xs)
any_last p false xs = refl
any_last p true xs = refl

-- When the actions of a player let them write on a channel.
abbrev pub may_write : ChatChannel → GameSession → GameSessionPlayer → Bool
may_write day_chat s p = phase_eq s.phase day_discussion && is_alive p.status
may_write mafia_chat s p = phase_eq s.phase night && (role_eq p.role mafia && is_alive p.status)
may_write ghost_chat s p = not (is_alive p.status)
may_write _ s p = false

actions_for-may_write :
    (channel : ChatChannel) (s : GameSession) (p : GameSessionPlayer) (id : String)
    → any (is_chat_on channel) (actions_for s p id) ≡ may_write channel s p
actions_for-may_write channel s p id =
    let test = is_chat_on channel in
    let targets = alive_player_ids s.players in
    let others = other_alive_player_ids id s.players in
    let day =
      push_if (phase_eq s.phase day_discussion && is_alive p.status) (chat_on day_chat ∷ []) in
    let ghost = push_if (not (is_alive p.status)) (chat_on ghost_chat ∷ []) in
    let by_mafia = on_target select_mafia_target others ∷ chat_on mafia_chat ∷ [] in
    let by_doctor = on_target select_doctor_target targets ∷ [] in
    let by_police = on_target select_police_target others ∷ [] in
    let m = role_eq p.role mafia in
    let d = role_eq p.role doctor in
    let o = role_eq p.role police in
    let at_night = push_if m by_mafia ++ (push_if d by_doctor ++ push_if o by_police) in
    let n = phase_eq s.phase night && is_alive p.status in
    ground (
      arith,
      any-push_if test (phase_eq s.phase voting && is_alive p.status)
          (on_target cast_vote targets ∷ []) (push_if n at_night ++ (day ++ ghost)),
      any-push_if test n at_night (day ++ ghost),
      any-push_if test m by_mafia (push_if d by_doctor ++ push_if o by_police),
      any-push_if test d by_doctor (push_if o by_police),
      any_last test o by_police,
      any-push_if test (phase_eq s.phase day_discussion && is_alive p.status)
          (chat_on day_chat ∷ []) ghost,
      any_last test (not (is_alive p.status)) (chat_on ghost_chat ∷ []),
    )

-- Whether a player in the game is heard on a channel.
module _ (c : GameCommandEnvelope) (user : GameCommandUser) (message : String) (now : ℕ) (w : World)
    (s : GameSession) (p : GameSessionPlayer)
    (found : find_by_game_id c.game_id w.sessions ≡ some s)
    (plays : find_player user.id s.players ≡ some p) where
  heard : ChatChannel → Bool
  heard channel = is_accepted ((handle_channel channel c user message now w).0)

  handle_channel-may_write :
      (channel : ChatChannel)
      → channel_eq channel lobby_chat ≡ false
      → channel_eq channel system_chat ≡ false
      → heard channel ≡ may_write channel s p
  unfolding heard handle_day_chat handle_mafia_chat handle_ghost_chat
  handle_channel-may_write lobby_chat h k = absurd (ground arith)
  handle_channel-may_write day_chat h k = ground arith
  handle_channel-may_write mafia_chat h k = ground arith
  handle_channel-may_write ghost_chat h k = ground arith
  handle_channel-may_write system_chat h k = absurd (ground arith)

-- The actions that a connected player of a game that is not over is shown.
shown-may_write :
    (channel : ChatChannel) (s : GameSession) (p : GameSessionPlayer) (id : String)
    → find_player id s.players ≡ some p
    → is_disconnected p.connection_status ≡ false
    → phase_eq s.phase finished ≡ false
    → any (is_chat_on channel) (build_for_player s id) ≡ may_write channel s p
unfolding build_for_player
shown-may_write channel s p id plays online going =
    rw (plays, build_for_player, online, going) (actions_for-may_write channel s p id)

-- In the lobby it is the room that counts.
lobby_heard :
    (c : GameCommandEnvelope) (user : GameCommandUser) (message : String) (now : ℕ) (w : World)
    (room : Room) (seat : RoomParticipant)
    → find_room_by_id c.game_id w.rooms ≡ some room
    → find_participant user.id room.participants ≡ some seat
    → status_eq room.status RoomStatus.waiting
      ≡ is_accepted ((handle_lobby_chat c user lobby_chat message now w).0)
unfolding handle_lobby_chat
lobby_heard c user message now w room seat open_room seated = ground arith

-- A connected player of a game that is not over, whose room the client shows, is let write on a
-- channel, other than the system's, exactly when the server accepts a message of theirs there.
pub is_channel_allowed-is_accepted :
    (channel : ChatChannel) (c : GameCommandEnvelope) (user : GameCommandUser) (message : String)
    (now : ℕ) (w : World) (room : Room) (seat : RoomParticipant) (s : GameSession)
    (p : GameSessionPlayer)
    → channel_eq channel system_chat ≡ false
    → find_room_by_id c.game_id w.rooms ≡ some room
    → find_participant user.id room.participants ≡ some seat
    → find_by_game_id c.game_id w.sessions ≡ some s
    → find_player user.id s.players ≡ some p
    → is_disconnected p.connection_status ≡ false
    → phase_eq s.phase finished ≡ false
    → is_channel_allowed channel (some room) (build_for_player s user.id)
      ≡ is_accepted ((handle_channel channel c user message now w).0)
unfolding is_channel_allowed heard
is_channel_allowed-is_accepted lobby_chat c user message now w room seat s p h open_room seated
      found plays online going =
    lobby_heard c user message now w room seat open_room seated
is_channel_allowed-is_accepted day_chat c user message now w room seat s p h open_room seated found
      plays online going =
    shown-may_write day_chat s p user.id plays online going
    ∙ sym (handle_channel-may_write c user message now w s p found plays day_chat refl refl)
is_channel_allowed-is_accepted mafia_chat c user message now w room seat s p h open_room seated
      found plays online going =
    shown-may_write mafia_chat s p user.id plays online going
    ∙ sym (handle_channel-may_write c user message now w s p found plays mafia_chat refl refl)
is_channel_allowed-is_accepted ghost_chat c user message now w room seat s p h open_room seated
      found plays online going =
    shown-may_write ghost_chat s p user.id plays online going
    ∙ sym (handle_channel-may_write c user message now w s p found plays ghost_chat refl refl)
is_channel_allowed-is_accepted system_chat c user message now w room seat s p h open_room seated
      found plays online going =
    absurd (ground arith)
