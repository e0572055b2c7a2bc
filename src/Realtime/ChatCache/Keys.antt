-- ===== src/Realtime/ChatCache/Keys.antt =====
-- The keys of apps/api/src/realtime/chat-message-cache.service.ts.
use Prim.Native.String
use text.Mathlib.TextLemmas.{
  append_inj, append_assoc, append_cancel_left, append_cancel_right, length-append,
}
use mafia_casefile.Prelude.{
  ◌≡◌, refl, ap, sym, ◌∙◌, String, true, ◌&&◌, ◌==◌, eq_iff, arith, inl, inr, text_cases,
  Bool-cases,
}
use mafia_casefile.Shared.{
  ChatChannel, lobby_chat, day_chat, mafia_chat, ghost_chat, system_chat, channel_eq,
}
use mafia_casefile.Realtime.ChatCache.{channel_name, chat_key}

-- What stands after the id of the game in a key, cut before its last four characters.
abbrev front : ChatChannel → String
front lobby_chat = ":L"
front day_chat = ""
front mafia_chat = ":M"
front ghost_chat = ":G"
front system_chat = ":SY"

abbrev back : ChatChannel → String
back lobby_chat = "OBBY"
back day_chat = ":DAY"
back mafia_chat = "AFIA"
back ghost_chat = "HOST"
back system_chat = "STEM"

-- What holds of each channel holds of all.
elim_channel :
    (P : ChatChannel → Type 0)
    → P lobby_chat
    → P day_chat
    → P mafia_chat
    → P ghost_chat
    → P system_chat
    → (c : ChatChannel) → P c
elim_channel P l d m g s lobby_chat = l
elim_channel P l d m g s day_chat = d
elim_channel P l d m g s mafia_chat = m
elim_channel P l d m g s ghost_chat = g
elim_channel P l d m g s system_chat = s

back-channel_eq : (c d : ChatChannel) → (back c == back d) ≡ channel_eq c d
back-channel_eq lobby_chat =
    elim_channel (λ d. (back lobby_chat == back d) ≡ channel_eq lobby_chat d) refl refl refl refl
      refl
back-channel_eq day_chat =
    elim_channel (λ d. (back day_chat == back d) ≡ channel_eq day_chat d) refl refl refl refl refl
back-channel_eq mafia_chat =
    elim_channel (λ d. (back mafia_chat == back d) ≡ channel_eq mafia_chat d) refl refl refl refl
      refl
back-channel_eq ghost_chat =
    elim_channel (λ d. (back ghost_chat == back d) ≡ channel_eq ghost_chat d) refl refl refl refl
      refl
back-channel_eq system_chat =
    elim_channel (λ d. (back system_chat == back d) ≡ channel_eq system_chat d) refl refl refl refl
      refl

front-back : (c : ChatChannel) → String.◌++◌ ":" (channel_name c) ≡ String.◌++◌ (front c) (back c)
front-back = elim_channel _ refl refl refl refl refl

back_count : (c : ChatChannel) → String.count (back c) ≡ 4
back_count = elim_channel _ refl refl refl refl refl

same_channel : (c d : ChatChannel) → channel_eq c d ≡ true → c ≡ d
same_channel c d h = ground arith

-- Texts that end alike and are as long there have the same end.
same_end :
    (a b s t : String) → String.count s ≡ String.count t → String.◌++◌ a s ≡ String.◌++◌ b t → s ≡ t
same_end a b s t n e =
    let whole : String.count (String.◌++◌ a s) ≡ String.count (String.◌++◌ b t) =
      ap String.count e in
    let fits : String.count a ≡ String.count b =
      omega (arith, length-append a s, length-append b t) in
    (append_inj {s₁ = a} {s₂ = b} {t₁ = s} {t₂ = t} e fits).1

key_cut :
    (game_id : String) (c : ChatChannel)
    → String.◌++◌ game_id (String.◌++◌ ":" (channel_name c))
      ≡ String.◌++◌ (String.◌++◌ game_id (front c)) (back c)
key_cut game_id c =
    ap (String.◌++◌ game_id) (front-back c) ∙ sym (append_assoc game_id (front c) (back c))

-- Two keys are the same only for the same channel of the same game.
pub chat_key-inj :
    (g h : String) (c d : ChatChannel)
    → chat_key g c ≡ chat_key h d
    → (g ≡ h) × (channel_eq c d ≡ true)
unfolding chat_key
chat_key-inj g h c d e =
    let rest =
      append_cancel_left "chat:recent:" (String.◌++◌ g (String.◌++◌ ":" (channel_name c)))
        (String.◌++◌ h (String.◌++◌ ":" (channel_name d))) e in
    let ends : back c ≡ back d =
      same_end (String.◌++◌ g (front c)) (String.◌++◌ h (front d)) (back c) (back d)
        (back_count c ∙ sym (back_count d)) (sym (key_cut g c) ∙ rest ∙ key_cut h d) in
    let same : channel_eq c d ≡ true =
      sym (back-channel_eq c d) ∙ (eq_iff (back c) (back d)).1 ends in
    let name = ap (λ k. String.◌++◌ ":" (channel_name k)) (same_channel c d same) in
    (
      append_cancel_right g h (String.◌++◌ ":" (channel_name d))
          (ap (String.◌++◌ g) (sym name) ∙ rest),
      same,
    )

-- Two keys are equal exactly when the games and the channels are.
pub chat_key-eq :
    (g h : String) (c d : ChatChannel) → (chat_key g c == chat_key h d) ≡ (g == h && channel_eq c d)
chat_key-eq g h c d = elim (text_cases (chat_key g c) (chat_key h d)) [
  | inl (e, t) ↦
      let (same_game, same) = chat_key-inj g h c d e in rw (t, same, (eq_iff g h).1 same_game) refl
  | inr (ne, f) ↦ elim (Bool-cases (g == h && channel_eq c d)) [
    | inl both ↦
        let game : g ≡ h = (eq_iff g h).0 (ground arith) in
        let channel : c ≡ d = same_channel c d (ground arith) in
        absurd (ne (ap (λ x. chat_key x c) game ∙ ap (chat_key h) channel))
    | inr not_both ↦ f ∙ sym not_both
  ]
]
