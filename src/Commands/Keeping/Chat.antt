-- ===== src/Commands/Keeping/Chat.antt =====
-- Chat writes to the log alone.
use mafia_casefile.Prelude.{◌≡◌, refl, ℕ, String, not, Option, none, some}
use mafia_casefile.Shared.{
  ChatChannel, lobby_chat, day_chat, mafia_chat, ghost_chat, system_chat, day_discussion, night,
  phase_eq, role_eq, mafia, is_alive,
}
use mafia_casefile.Session.{find_player}
use mafia_casefile.Rooms.{RoomStatus, status_eq, find_participant}
use mafia_casefile.Rooms.Operations.{find_room_by_id}
use mafia_casefile.World.{World}
use mafia_casefile.Sessions.{find_by_game_id}
use mafia_casefile.Commands.{GameCommandEnvelope, GameCommandUser, GameCommandResult}
use mafia_casefile.Commands.Chat.{
  ParsedChat, parsed, refused, parse_chat_payload, handle_channel, handle_send_chat_message,
  handle_lobby_chat, handle_day_chat, handle_mafia_chat, handle_ghost_chat, record_chat_message,
}
use mafia_casefile.Commands.Keeping.{WorldValid, logged, if-WorldValid}

option-WorldValid :
    {A : Type 0} (o : Option A) (missing : GameCommandResult × World)
    (found : A → GameCommandResult × World)
    → WorldValid (missing.1)
    → ((a : A) → WorldValid ((found a).1))
    → (let out : GameCommandResult × World = elim o [ none ↦ missing | some a ↦ found a ] in
        WorldValid (out.1))
option-WorldValid none missing found v h = v
option-WorldValid (some a) missing found v h = h a

module _ (c : GameCommandEnvelope) (user : GameCommandUser) (channel : ChatChannel)
    (message : String) (now : ℕ) (w : World) (v : WorldValid w) where
  lobby : WorldValid ((handle_lobby_chat c user channel message now w).1)
  unfolding handle_lobby_chat record_chat_message
  lobby = option-WorldValid (find_room_by_id c.game_id w.rooms) _ _ v (λ room.
      if-WorldValid (not (status_eq room.status RoomStatus.waiting)) _ _ v
        (option-WorldValid (find_participant user.id room.participants) _ _ v (λ p. logged w _ v)))

  day : WorldValid ((handle_day_chat c user channel message now w).1)
  unfolding handle_day_chat record_chat_message
  day = option-WorldValid (find_by_game_id c.game_id w.sessions) _ _ v (λ s.
      if-WorldValid (not (phase_eq s.phase day_discussion)) _ _ v (
        option-WorldValid (find_player user.id s.players) _ _ v
          (λ actor. if-WorldValid (not (is_alive actor.status)) _ _ v (logged w _ v))))

  mafia_only_chat : WorldValid ((handle_mafia_chat c user channel message now w).1)
  unfolding handle_mafia_chat record_chat_message
  mafia_only_chat = option-WorldValid (find_by_game_id c.game_id w.sessions) _ _ v (λ s.
      if-WorldValid (not (phase_eq s.phase night)) _ _ v (
        option-WorldValid (find_player user.id s.players) _ _ v (λ actor.
          if-WorldValid (not (role_eq actor.role mafia)) _ _ v
            (if-WorldValid (not (is_alive actor.status)) _ _ v (logged w _ v)))))

  ghost : WorldValid ((handle_ghost_chat c user channel message now w).1)
  unfolding handle_ghost_chat record_chat_message
  ghost = option-WorldValid (find_by_game_id c.game_id w.sessions) _ _ v (λ s.
      option-WorldValid (find_player user.id s.players) _ _ v
        (λ actor. if-WorldValid (is_alive actor.status) _ _ v (logged w _ v)))

handle_channel-WorldValid :
    (channel : ChatChannel) (c : GameCommandEnvelope) (user : GameCommandUser) (message : String)
    (now : ℕ) (w : World)
    → WorldValid w
    → WorldValid ((handle_channel channel c user message now w).1)
handle_channel-WorldValid lobby_chat c user message now w v =
    lobby c user lobby_chat message now w v
handle_channel-WorldValid day_chat c user message now w v = day c user day_chat message now w v
handle_channel-WorldValid mafia_chat c user message now w v =
    mafia_only_chat c user mafia_chat message now w v
handle_channel-WorldValid ghost_chat c user message now w v =
    ghost c user ghost_chat message now w v
handle_channel-WorldValid system_chat c user message now w v =
    ghost c user system_chat message now w v

chat_parsed-WorldValid :
    (p : ParsedChat) (c : GameCommandEnvelope) (user : GameCommandUser) (now : ℕ) (w : World)
    → parse_chat_payload c.payload ≡ p
    → WorldValid w
    → WorldValid ((handle_send_chat_message c (some user) now w).1)
unfolding handle_send_chat_message
chat_parsed-WorldValid (refused reason message) c user now w e v =
    rw (e, handle_send_chat_message) v
chat_parsed-WorldValid (parsed channel message) c user now w e v =
    rw (e, handle_send_chat_message) (handle_channel-WorldValid channel c user message now w v)

pub handle_send_chat_message-WorldValid :
    (c : GameCommandEnvelope) (user : Option GameCommandUser) (now : ℕ) (w : World)
    → WorldValid w
    → WorldValid ((handle_send_chat_message c user now w).1)
unfolding handle_send_chat_message
handle_send_chat_message-WorldValid c none now w v = v
handle_send_chat_message-WorldValid c (some user) now w v =
    chat_parsed-WorldValid (parse_chat_payload c.payload) c user now w refl v
