-- ===== src/Examples/ChatTests.antt =====
-- Messages on the closed channels, and instances of the theorems on who is sent them.
use mafia_casefile.Prelude.{◌≡◌, refl, List, [], ◌∷◌, lookup}
use mafia_casefile.Shared.{mafia_chat, ghost_chat}
use mafia_casefile.Session.{GameSession, find_player}
use mafia_casefile.Session.Players.{kill_player}
use mafia_casefile.World.{World}
use mafia_casefile.Events.{mafia_only, ghost_only}
use mafia_casefile.Sessions.{find_by_game_id}
use mafia_casefile.Commands.{
  GameCommandEnvelope, GameCommandUser, GameCommandEffect, accepted, not_object, chat_message,
}
use mafia_casefile.Commands.Chat.{
  build_chat_message_event, record_chat_message, handle_mafia_chat, handle_ghost_chat, send_to_each,
  get_alive_mafia_recipients, get_ghost_recipients,
}
use mafia_casefile.Commands.Chat.Secrecy.{
  IsMafiaSecret, IsGhostSecret, handle_mafia_chat-IsMafiaSecret, handle_ghost_chat-IsGhostSecret,
}
use mafia_casefile.Examples.{night_game, village, world}

abbrev c : GameCommandEnvelope
c = record { request_id = "r"; game_id = "g"; type = "SEND_CHAT_MESSAGE"; payload = not_object }

abbrev ann : GameCommandUser
ann = record { id = "ann"; email = "ann" }

abbrev dee : GameCommandUser
dee = record { id = "dee"; email = "dee" }

-- The one mafia hears her own message.
abbrev to_ann : List GameCommandEffect
to_ann =
    GameCommandEffect.private_event "ann"
      (chat_message (build_chat_message_event c ann mafia_chat "hi" 7))
    ∷ []

abbrev after_ann : World
after_ann =
    record_chat_message c ann mafia_chat "hi" 0 night_game.phase mafia_only (world night_game)

ann_writes :
    handle_mafia_chat c ann mafia_chat "hi" 7 (world night_game)
    ≡ (accepted "r" "SEND_CHAT_MESSAGE" to_ann, after_ann)
unfolding handle_mafia_chat find_by_game_id lookup find_player send_to_each
    get_alive_mafia_recipients
ann_writes = refl

handle_mafia_chat-IsMafiaSecret_example :
    IsMafiaSecret c ann mafia_chat "hi" 7 (world night_game) to_ann
handle_mafia_chat-IsMafiaSecret_example =
    handle_mafia_chat-IsMafiaSecret c ann mafia_chat "hi" 7 (world night_game) after_ann "r"
      "SEND_CHAT_MESSAGE" to_ann ann_writes

-- The citizen is dead.
abbrev haunted : GameSession
haunted = record night_game { players = kill_player "dee" 5 village }

abbrev to_dee : List GameCommandEffect
to_dee =
    GameCommandEffect.private_event "dee"
      (chat_message (build_chat_message_event c dee ghost_chat "boo" 7))
    ∷ []

abbrev after_dee : World
after_dee = record_chat_message c dee ghost_chat "boo" 0 haunted.phase ghost_only (world haunted)

dee_writes :
    handle_ghost_chat c dee ghost_chat "boo" 7 (world haunted)
    ≡ (accepted "r" "SEND_CHAT_MESSAGE" to_dee, after_dee)
unfolding handle_ghost_chat find_by_game_id lookup find_player send_to_each get_ghost_recipients
    kill_player
dee_writes = refl

handle_ghost_chat-IsGhostSecret_example :
    IsGhostSecret c dee ghost_chat "boo" 7 (world haunted) to_dee
handle_ghost_chat-IsGhostSecret_example =
    handle_ghost_chat-IsGhostSecret c dee ghost_chat "boo" 7 (world haunted) after_dee "r"
      "SEND_CHAT_MESSAGE" to_dee dee_writes
