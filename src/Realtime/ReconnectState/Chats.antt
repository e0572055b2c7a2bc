-- ===== src/Realtime/ReconnectState/Chats.antt =====
-- What apps/api/src/realtime/reconnect-state.service.ts shows of chats, actions and the player.
use mafia_casefile.Prelude.{
  ℕ, ◌≡◌, refl, String, Bool, true, false, not, ◌&&◌, ap, sym, ◌∙◌, Option, none, some, List, [],
  ◌∷◌, All, All-append, map, keep, Dict, ◌==◌, Bool-cases, Option-cases, inl, inr, arith,
}
use mafia_casefile.Shared.{
  mafia, role_eq, is_alive, ChatChannel, lobby_chat, day_chat, mafia_chat, ghost_chat, system_chat,
  channel_eq,
}
use mafia_casefile.Session.{GameSession, GameSessionPlayer, find_player}
use mafia_casefile.Sessions.{find_by_game_id}
use mafia_casefile.Commands.{ChatMessageEvent}
use mafia_casefile.Realtime.ChatCache.{RedisList, get_recent}
use mafia_casefile.Realtime.AvailableActions.{build_for_player}
use mafia_casefile.Realtime.ReconnectState.{
  ReconnectChatChannelSnapshot, ReconnectStateEvent, channel_if, channels_of, load_recent_chats,
  restored_for, state_of_room, build_reconnect_state,
}

-- The channel is open to a player, as the table of docs/SOCKET_PROTOCOL.md has it: the mafia's to the
-- living mafia, the ghosts' to the dead, and the system's to nobody.
abbrev pub IsOpenTo : GameSessionPlayer → ChatChannel → Type 0
IsOpenTo p lobby_chat = Unit
IsOpenTo p day_chat = Unit
IsOpenTo p mafia_chat = (role_eq p.role mafia ≡ true) × (is_alive p.status ≡ true)
IsOpenTo p ghost_chat = is_alive p.status ≡ false
IsOpenTo p system_chat = ⊥

-- The user's player in a game.
abbrev pub player_of : String → Option GameSession → Option GameSessionPlayer
player_of user_id none = none
player_of user_id (some s) = find_player user_id s.players

abbrev pub is_dead_mafia : Option GameSessionPlayer → Bool
is_dead_mafia none = false
is_dead_mafia (some p) = role_eq p.role mafia && not (is_alive p.status)

-- The snapshot is of a channel that is open to the player, and its messages are of that channel.
abbrev pub IsReadableBy : GameSessionPlayer → ReconnectChatChannelSnapshot → Type 0
IsReadableBy p snapshot =
    IsOpenTo p snapshot.channel
    × All (λ m. channel_eq m.channel snapshot.channel ≡ true) snapshot.messages

-- What a restored state shows is of the session of the room and of the user's player in it.
pub record IsOwnState (user_id room_id : String) (sessions : Dict GameSession)
    (e : ReconnectStateEvent) : Type 0 where
  pub session : GameSession
  pub player : GameSessionPlayer
  pub found : find_by_game_id room_id sessions ≡ some session
  pub plays : find_player user_id session.players ≡ some player
  pub shows_player : e.player ≡ some player
  pub shows_actions : e.available_actions ≡ build_for_player session user_id
  pub shows_chats : All (IsReadableBy player) e.recent_chats

channels_of-IsOpenTo :
    (p : GameSessionPlayer)
    → is_dead_mafia (some p) ≡ false
    → All (IsOpenTo p) (channels_of p.role p.status)
channels_of-IsOpenTo p living = (tt, (tt, All-append (IsOpenTo p) _ _ mafia_open ghost_open))
  where
    mafia_open : All (IsOpenTo p) (channel_if (role_eq p.role mafia) mafia_chat)
    mafia_open = elim (Bool-cases (role_eq p.role mafia)) [
      | inl e ↦ rw e ((e, ground arith), tt)
      | inr e ↦ rw e tt
    ]

    ghost_open : All (IsOpenTo p) (channel_if (not (is_alive p.status)) ghost_chat)
    ghost_open = elim (Bool-cases (is_alive p.status)) [ inl e ↦ rw e tt | inr e ↦ rw e (e, tt) ]

keep-All : {A : Type 0} (p : A → Bool) (xs : List A) → All (λ x. p x ≡ true) (keep p xs)
keep-All p [] = tt
keep-All p (x ∷ xs) = elim (Bool-cases (p x)) [
  | inl e ↦ rw e (e, keep-All p xs)
  | inr e ↦ rw e (keep-All p xs)
]

module _ (redis : RedisList ChatMessageEvent) (raw_limit : Option ℕ) where
  open redis use {Store}

  snapshots-IsReadableBy :
      (p : GameSessionPlayer) (game_id : String) (chats : Store) (channels : List ChatChannel)
      → All (IsOpenTo p) channels
      → All (IsReadableBy p) (
          map
            (λ channel. record {
              channel = channel;
              messages = get_recent redis raw_limit game_id channel chats;
            })
            channels)
  unfolding get_recent
  snapshots-IsReadableBy p game_id chats [] open_all = tt
  snapshots-IsReadableBy p game_id chats (c ∷ cs) (open_c, open_cs) = (
    (open_c, keep-All {A = ChatMessageEvent} (λ m. channel_eq m.channel c) _),
    snapshots-IsReadableBy p game_id chats cs open_cs,
  )

  -- A user is told that their game is restored only when there is a game in the room and they play in
  -- it. If their player is not a dead mafia, they are then shown their own player and the actions that
  -- are open to them, and old messages only of the channels that the protocol opens to them: of the
  -- mafia's only if they are a living mafia, of the ghosts' only if they are dead.
  pub build_reconnect_state-IsOwnState :
      (user_id room_id : String) (sessions : Dict GameSession) (chats : Store)
      → is_dead_mafia (player_of user_id (find_by_game_id room_id sessions)) ≡ false
      → (build_reconnect_state redis raw_limit user_id (some room_id) sessions chats).restored
        ≡ true
      → IsOwnState user_id room_id sessions
          (build_reconnect_state redis raw_limit user_id (some room_id) sessions chats)
  unfolding build_reconnect_state state_of_room restored_for load_recent_chats
  build_reconnect_state-IsOwnState user_id room_id sessions chats living h =
      elim (Bool-cases (room_id == "")) [
        | inl blank ↦ absurd (ground arith)
        | inr named ↦ elim (Option-cases (find_by_game_id room_id sessions)) [
          | inl missing ↦ absurd (ground arith)
          | inr (s, found) ↦ elim (Option-cases (find_player user_id s.players)) [
            | inl stranger ↦ absurd (ground arith)
            | inr (p, plays) ↦
                let here : player_of user_id (find_by_game_id room_id sessions) ≡ some p =
                  ap (player_of user_id) found ∙ plays in
                rw (named, found, state_of_room, plays, restored_for)
                  (record {
                    session = s;
                    player = p;
                    found = found;
                    plays = plays;
                    shows_player = refl;
                    shows_actions = refl;
                    shows_chats =
                        snapshots-IsReadableBy p s.game_id chats (channels_of p.role p.status)
                          (channels_of-IsOpenTo p (sym (ap is_dead_mafia here) ∙ living));
                  })
          ]
        ]
      ]
