-- ===== src/Web/Chat.antt =====
-- apps/web/app/play/lib/chat.ts: the chat channels that the client lets a player write on.
pub mod Accepted
use mafia_casefile.Prelude.{Bool, true, false, ◌&&◌, Option, none, some, List, [], ◌∷◌, keep, any}
use mafia_casefile.Shared.{ChatChannel, lobby_chat, day_chat, mafia_chat, ghost_chat, channel_eq}
use mafia_casefile.Rooms.{RoomStatus, status_eq, Room}
use mafia_casefile.Realtime.AvailableActions.{
  AvailableActionType, AvailableAction, send_chat_message,
}

abbrev pub default_chat_channels : List ChatChannel
default_chat_channels = lobby_chat ∷ day_chat ∷ mafia_chat ∷ ghost_chat ∷ []

-- `room?.status === 'WAITING'`
abbrev pub is_waiting : Option Room → Bool
is_waiting none = false
is_waiting (some room) = status_eq room.status RoomStatus.waiting

abbrev pub is_on_channel : ChatChannel → Option ChatChannel → Bool
is_on_channel channel none = false
is_on_channel channel (some other) = channel_eq other channel

abbrev pub is_chat_type : AvailableActionType → Bool
is_chat_type send_chat_message = true
is_chat_type _ = false

-- `action.type === 'SEND_CHAT_MESSAGE' && action.channel === channel`
abbrev pub is_chat_on : ChatChannel → AvailableAction → Bool
is_chat_on channel action = is_chat_type action.type && is_on_channel channel action.channel

unfoldable pub is_channel_allowed : ChatChannel → Option Room → List AvailableAction → Bool
is_channel_allowed lobby_chat room available_actions = is_waiting room
is_channel_allowed channel room available_actions = any (is_chat_on channel) available_actions

unfoldable pub get_allowed_chat_channels : Option Room → List AvailableAction → List ChatChannel
get_allowed_chat_channels room available_actions =
    keep (λ channel. is_channel_allowed channel room available_actions) default_chat_channels
