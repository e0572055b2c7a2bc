-- ===== src/Realtime/ReconnectState.antt =====
-- apps/api/src/realtime/reconnect-state.service.ts: what a player is told on connecting again.
pub mod Chats
use mafia_casefile.Prelude.{
  String, Bool, true, false, not, ◌||◌, Option, none, some, List, [], ◌∷◌, ◌++◌, map, Dict, ◌==◌,
  if◌then◌else◌, ℕ,
}
use mafia_casefile.Shared.{
  Role, mafia, role_eq, PlayerStatus, is_alive, ChatChannel, lobby_chat, day_chat, mafia_chat,
  ghost_chat,
}
use mafia_casefile.Session.{GameSession, GameSessionPlayer, find_player}
use mafia_casefile.Sessions.{find_by_game_id}
use mafia_casefile.Commands.{ChatMessageEvent}
use mafia_casefile.Realtime.AvailableActions.{AvailableAction, build_for_player}
use mafia_casefile.Realtime.ChatCache.{RedisList, get_recent}

pub data ReconnectReason : Type 0 where
  no_room no_previous_state game_session_not_found : ReconnectReason
  player_not_in_game restored_state : ReconnectReason

pub record ReconnectChatChannelSnapshot : Type 0 where
  pub channel : ChatChannel
  pub messages : List ChatMessageEvent

pub record ReconnectStateEvent : Type 0 where
  pub user_id : String
  pub restored : Bool
  pub room_id : Option String
  pub game_id : Option String
  pub reason : ReconnectReason
  pub session : Option GameSession
  pub player : Option GameSessionPlayer
  pub recent_chats : List ReconnectChatChannelSnapshot
  pub available_actions : List AvailableAction

-- A state that restores nothing, with the session where there is one.
abbrev pub not_restored :
    String → Option String → ReconnectReason → Option GameSession → ReconnectStateEvent
not_restored user_id room_id reason session = record {
  user_id = user_id;
  restored = false;
  room_id = room_id;
  game_id = room_id;
  reason = reason;
  session = session;
  player = none;
  recent_chats = [];
  available_actions = [];
}

-- `if (…) { channels.push(channel); }`
abbrev pub channel_if : Bool → ChatChannel → List ChatChannel
channel_if true channel = channel ∷ []
channel_if false channel = []

abbrev pub channels_of : Role → PlayerStatus → List ChatChannel
channels_of role status =
    lobby_chat
    ∷ day_chat
    ∷ (channel_if (role_eq role mafia) mafia_chat ++ channel_if (not (is_alive status)) ghost_chat)

module _ (redis : RedisList ChatMessageEvent) (raw_limit : Option ℕ) where
  open redis use {Store}

  unfoldable pub load_recent_chats :
      String → Role → PlayerStatus → Store → List ReconnectChatChannelSnapshot
  load_recent_chats game_id role status chats =
      map
        (λ channel. record {
          channel = channel;
          messages = get_recent redis raw_limit game_id channel chats;
        })
        (channels_of role status)

  unfoldable pub restored_for :
      String → String → GameSession → Option GameSessionPlayer → Store → ReconnectStateEvent
  restored_for user_id room_id s none chats =
      not_restored user_id (some room_id) player_not_in_game (some s)
  restored_for user_id room_id s (some player) chats = record {
    user_id = user_id;
    restored = true;
    room_id = some room_id;
    game_id = some room_id;
    reason = restored_state;
    session = some s;
    player = some player;
    recent_chats = load_recent_chats s.game_id player.role player.status chats;
    available_actions = build_for_player s user_id;
  }

  unfoldable pub state_of_room : String → String → Option GameSession → Store → ReconnectStateEvent
  state_of_room user_id room_id none chats =
      not_restored user_id (some room_id) game_session_not_found none
  state_of_room user_id room_id (some s) chats =
      restored_for user_id room_id s (find_player user_id s.players) chats

  unfoldable pub build_reconnect_state :
      String → Option String → Dict GameSession → Store → ReconnectStateEvent
  build_reconnect_state user_id none sessions chats = not_restored user_id none no_room none
  build_reconnect_state user_id (some room_id) sessions chats =
      if room_id == ""
      then not_restored user_id none no_room none
      else state_of_room user_id room_id (find_by_game_id room_id sessions) chats
