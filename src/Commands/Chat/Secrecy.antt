-- ===== src/Commands/Chat/Secrecy.antt =====
-- Who may write on a closed channel, and who is sent what is written there.
use mathlib.Core.List.{Mem, Subset, mem-cons_self, mem-cons_of_mem}
use mafia_casefile.Prelude.{
  ◌⊎◌, ◌≡◌, refl, arith, ℕ, String, Bool, true, false, some, List, [], ◌∷◌, All, keep, Bool-cases,
  Option-cases, inl, inr,
}
use mafia_casefile.Shared.{ChatChannel, night, phase_eq, role_eq, mafia, is_alive}
use mafia_casefile.Session.{GameSession, GameSessionPlayer, find_player}
use mafia_casefile.World.{World}
use mafia_casefile.Sessions.{find_by_game_id}
use mafia_casefile.Commands.{
  GameCommandEnvelope, GameCommandUser, GameCommandEffect, accepted, ChatMessageEvent, chat_message,
}
use mafia_casefile.Commands.Chat.{
  is_mafia_recipient, is_ghost, get_alive_mafia_recipients, get_ghost_recipients, send_to_each,
  handle_mafia_chat, handle_ghost_chat, build_chat_message_event,
}

abbrev pub IsLivingMafia : GameSessionPlayer → Type 0
IsLivingMafia p = (role_eq p.role mafia ≡ true) × (is_alive p.status ≡ true)

abbrev pub IsDead : GameSessionPlayer → Type 0
IsDead p = is_alive p.status ≡ false

abbrev pub delivery : ChatMessageEvent → GameSessionPlayer → GameCommandEffect
delivery event p = GameCommandEffect.private_event p.user_id (chat_message event)

-- The effect is the event, sent to a player of the list of whom `P` holds.
abbrev pub GoesTo :
    (GameSessionPlayer → Type 0)
    → List GameSessionPlayer
    → ChatMessageEvent
    → GameCommandEffect
    → Type 0
GoesTo P players event effect =
    (p : GameSessionPlayer) × Mem p players × (effect ≡ delivery event p) × P p

-- The player is sent the event, unless `P` does not hold of them.
abbrev pub IsReached :
    (GameSessionPlayer → Type 0)
    → List GameCommandEffect
    → ChatMessageEvent
    → GameSessionPlayer
    → Type 0
IsReached P effects event p = (¬ P p) ⊎ Mem (delivery event p) effects

module _ (test : GameSessionPlayer → Bool) (P : GameSessionPlayer → Type 0) where
  send_to_each-GoesTo :
      ((p : GameSessionPlayer) → test p ≡ true → P p)
      → (players ps : List GameSessionPlayer) (event : ChatMessageEvent) → Subset ps players
      → All (GoesTo P players event) (send_to_each (keep test ps) event)
  unfolding send_to_each
  send_to_each-GoesTo sound players [] event sub = tt
  send_to_each-GoesTo sound players (p ∷ ps) event sub =
      let rest = send_to_each-GoesTo sound players ps event (λ q m. sub q (mem-cons_of_mem p m)) in
      elim (Bool-cases (test p)) [
        | inl e ↦ rw e ((p, sub p mem-cons_self, refl, sound p e), rest)
        | inr e ↦ rw e rest
      ]

  send_to_each-IsReached :
      ((p : GameSessionPlayer) → P p → test p ≡ true)
      → (effects : List GameCommandEffect) (ps : List GameSessionPlayer) (event : ChatMessageEvent)
      → Subset (send_to_each (keep test ps) event) effects
      → All (IsReached P effects event) ps
  unfolding send_to_each
  send_to_each-IsReached complete effects [] event sub = tt
  send_to_each-IsReached complete effects (p ∷ ps) event sub = elim (Bool-cases (test p)) [
    | inl e ↦
        let sub' = rw e at sub in
        (
          inr (sub' (delivery event p) mem-cons_self),
          send_to_each-IsReached complete effects ps event
              (λ q m. sub' q (mem-cons_of_mem (delivery event p) m)),
        )
    | inr e ↦
        let sub' = rw e at sub in
        (
          inl (λ h. ground (arith, complete p h)),
          send_to_each-IsReached complete effects ps event sub',
        )
  ]

-- What an accepted message on the mafia channel shows: it is night, its sender is a living mafia of
-- the game, and the message is sent to the living mafia of the game and to nobody else.
pub record IsMafiaSecret (c : GameCommandEnvelope) (user : GameCommandUser) (channel : ChatChannel)
    (message : String) (now : ℕ) (w : World) (effects : List GameCommandEffect) : Type 0 where
  pub session : GameSession
  pub sender : GameSessionPlayer
  pub found : find_by_game_id c.game_id w.sessions ≡ some session
  pub at_night : phase_eq session.phase night ≡ true
  pub plays : find_player user.id session.players ≡ some sender
  pub is_mafia : role_eq sender.role mafia ≡ true
  pub is_living : is_alive sender.status ≡ true
  pub event : ChatMessageEvent
  pub said : event ≡ build_chat_message_event c user channel message now
  pub only_mafia : All (GoesTo IsLivingMafia session.players event) effects
  pub all_mafia : All (IsReached IsLivingMafia effects event) session.players

-- What an accepted message on the ghosts' channel shows: its sender is a dead player of the game, and
-- the message is sent to the dead players of the game and to nobody else.
pub record IsGhostSecret (c : GameCommandEnvelope) (user : GameCommandUser) (channel : ChatChannel)
    (message : String) (now : ℕ) (w : World) (effects : List GameCommandEffect) : Type 0 where
  pub session : GameSession
  pub sender : GameSessionPlayer
  pub found : find_by_game_id c.game_id w.sessions ≡ some session
  pub plays : find_player user.id session.players ≡ some sender
  pub is_dead : is_alive sender.status ≡ false
  pub event : ChatMessageEvent
  pub said : event ≡ build_chat_message_event c user channel message now
  pub only_dead : All (GoesTo IsDead session.players event) effects
  pub all_dead : All (IsReached IsDead effects event) session.players

module _ (c : GameCommandEnvelope) (user : GameCommandUser) (channel : ChatChannel)
    (message : String) (now : ℕ) (w w' : World) (id type : String)
    (effects : List GameCommandEffect) where
  -- A message on the mafia channel is only accepted at night and from a living mafia of the game. It
  -- is sent to every living mafia among the players of the game, and to nobody else.
  pub handle_mafia_chat-IsMafiaSecret :
      handle_mafia_chat c user channel message now w ≡ (accepted id type effects, w')
      → IsMafiaSecret c user channel message now w effects
  unfolding handle_mafia_chat get_alive_mafia_recipients
  handle_mafia_chat-IsMafiaSecret e = elim (Option-cases (find_by_game_id c.game_id w.sessions)) [
    | inl f ↦ absurd (ground arith)
    | inr (s, f) ↦ elim (Option-cases (find_player user.id s.players)) [
      | inl g ↦ absurd (ground arith)
      | inr (actor, g) ↦
          let event = build_chat_message_event c user channel message now in
          let sent : effects ≡ send_to_each (keep is_mafia_recipient s.players) event =
            ground arith in
          record {
            session = s;
            sender = actor;
            found = f;
            at_night = ground arith;
            plays = g;
            is_mafia = ground arith;
            is_living = ground arith;
            event = event;
            said = refl;
            only_mafia = rw sent (
                send_to_each-GoesTo is_mafia_recipient IsLivingMafia (λ p h. ground arith) s.players
                  s.players event (λ _ m. m));
            all_mafia =
                send_to_each-IsReached is_mafia_recipient IsLivingMafia (λ p h. ground arith)
                  effects s.players event (rw sent (λ _ m. m));
          }
    ]
  ]

  -- A message on the ghosts' channel is only accepted from a dead player of the game. It is sent to every
  -- dead player among the players of the game, and to nobody else.
  pub handle_ghost_chat-IsGhostSecret :
      handle_ghost_chat c user channel message now w ≡ (accepted id type effects, w')
      → IsGhostSecret c user channel message now w effects
  unfolding handle_ghost_chat get_ghost_recipients
  handle_ghost_chat-IsGhostSecret e = elim (Option-cases (find_by_game_id c.game_id w.sessions)) [
    | inl f ↦ absurd (ground arith)
    | inr (s, f) ↦ elim (Option-cases (find_player user.id s.players)) [
      | inl g ↦ absurd (ground arith)
      | inr (actor, g) ↦
          let event = build_chat_message_event c user channel message now in
          let sent : effects ≡ send_to_each (keep is_ghost s.players) event = ground arith in
          record {
            session = s;
            sender = actor;
            found = f;
            plays = g;
            is_dead = ground arith;
            event = event;
            said = refl;
            only_dead = rw sent (
                send_to_each-GoesTo is_ghost IsDead (λ p h. ground arith) s.players s.players event
                  (λ _ m. m));
            all_dead =
                send_to_each-IsReached is_ghost IsDead (λ p h. ground arith) effects s.players event
                  (rw sent (λ _ m. m));
          }
    ]
  ]
