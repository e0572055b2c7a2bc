-- ===== src/Realtime/ChatCache/Recent.antt =====
-- Sequences of messages in the cache of apps/api/src/realtime/chat-message-cache.service.ts.
use mafia_casefile.Prelude.{
  ℕ, zero, suc, ◌+◌, ◌-◌, ◌≤◌, ◌≡◌, refl, ap, sym, ◌∙◌, String, Bool, true, ◌&&◌, ◌==◌, Bool-cases,
  inl, inr, if◌then◌else◌, Option, List, [], ◌∷◌, ◌++◌, All, keep, length, length-append, eq_self,
  arith,
}
use mafia_casefile.Shared.{ChatChannel, channel_eq}
use mafia_casefile.Commands.{ChatMessageEvent}
use mafia_casefile.Realtime.Redis.{positive_or-pos}
use mafia_casefile.Realtime.ChatCache.Keys.{chat_key-eq}
use mafia_casefile.Realtime.ChatCache.{
  drop, last, RedisList, chat_key, resolve_limit, append, get_recent, clear,
}

module _ {ℓ} {A : Type ℓ} where
  drop-append : (n : ℕ) (xs ys : List A) → n ≤ length xs → drop n (xs ++ ys) ≡ drop n xs ++ ys
  drop-append zero xs ys h = refl
  drop-append (suc n) [] ys h = absurd (omega arith)
  drop-append (suc n) (x ∷ xs) ys h = drop-append n xs ys (omega arith)

  drop_nil : (n : ℕ) → drop {A = A} n [] ≡ []
  drop_nil zero = refl
  drop_nil (suc n) = refl

  drop-drop : (m n k : ℕ) (xs : List A) → k ≡ n + m → drop m (drop n xs) ≡ drop k xs
  drop-drop m zero k xs e = ap (λ i. drop i xs) (omega arith)
  drop-drop m (suc n) k [] e = drop_nil m ∙ sym (drop_nil k)
  drop-drop m (suc n) zero (x ∷ xs) e = absurd (omega arith)
  drop-drop m (suc n) (suc k) (x ∷ xs) e = drop-drop m n k xs (omega arith)

  length-drop : (n : ℕ) (xs : List A) → length (drop n xs) ≡ length xs - n
  length-drop zero xs = omega arith
  length-drop (suc n) [] = omega arith
  length-drop (suc n) (x ∷ xs) = omega (arith, length-drop n xs)

  pub length-last : (n : ℕ) (xs : List A) → length (last n xs) ≤ n
  length-last n xs = omega (arith, length-drop (length xs - n) xs)

  -- Trimming before one more member comes loses nothing that is kept in the end.
  last-append :
      (n : ℕ) (xs : List A) (y : A) → 1 ≤ n → last n (last n xs ++ y ∷ []) ≡ last n (xs ++ y ∷ [])
  last-append n xs y one =
      drop-append (length (last n xs ++ y ∷ []) - n) (last n xs) (y ∷ [])
        (omega (arith, length-append (last n xs) (y ∷ []), length-last n xs))
      ∙ ap (λ zs. zs ++ y ∷ [])
          (drop-drop (length (last n xs ++ y ∷ []) - n) (length xs - n) (length (xs ++ y ∷ []) - n)
            xs
            (omega (
              arith,
              length-append (last n xs) (y ∷ []),
              length-append xs (y ∷ []),
              length-drop (length xs - n) xs,
            )))
      ∙ sym (
          drop-append (length (xs ++ y ∷ []) - n) xs (y ∷ [])
            (omega (arith, length-append xs (y ∷ []))))

  append_nil : (xs : List A) → xs ++ [] ≡ xs
  append_nil [] = refl
  append_nil (x ∷ xs) = ap (λ ys. x ∷ ys) (append_nil xs)

  append_assoc : (xs ys zs : List A) → (xs ++ ys) ++ zs ≡ xs ++ (ys ++ zs)
  append_assoc [] ys zs = refl
  append_assoc (x ∷ xs) ys zs = ap (λ r. x ∷ r) (append_assoc xs ys zs)

  last-last : (n : ℕ) (xs : List A) → last n (last n xs) ≡ last n xs
  last-last n xs =
      let fits : length (last n xs) - n ≡ 0 = omega (arith, length-last n xs) in
      ap (λ k. drop k (last n xs)) fits

  drop-All {κ} : (P : A → Type κ) (n : ℕ) (xs : List A) → All P xs → All P (drop n xs)
  drop-All P zero xs h = h
  drop-All P (suc n) [] h = h
  drop-All P (suc n) (x ∷ xs) (h, hs) = drop-All P n xs hs

module _ (redis : RedisList ChatMessageEvent) (raw_limit : Option ℕ) where
  open redis use {Store, items, rpush, del, items-rpush, items-ltrim, items-del, lrange-eq}

  -- The messages are put into the cache one after the other.
  unfoldable pub append_all : List ChatMessageEvent → Store → Store
  append_all [] s = s
  append_all (m ∷ ms) s = append_all ms (append redis raw_limit m s)

  -- Is the message of this channel of this game?
  abbrev pub is_on : String → ChatChannel → ChatMessageEvent → Bool
  is_on game_id channel m = m.game_id == game_id && channel_eq m.channel channel

  limit_pos : 1 ≤ resolve_limit raw_limit
  limit_pos = positive_or-pos 50 raw_limit (omega arith)

  items-append :
      (m : ChatMessageEvent) (game_id : String) (channel : ChatChannel) (s : Store)
      → items (chat_key game_id channel) s
        ≡ last (resolve_limit raw_limit) (items (chat_key game_id channel) s)
      → items (chat_key game_id channel) (append redis raw_limit m s) ≡ (
          if is_on game_id channel m
          then last (resolve_limit raw_limit) (items (chat_key game_id channel) s ++ m ∷ [])
          else items (chat_key game_id channel) s)
  unfolding append
  items-append m game_id channel s short =
      let key = chat_key m.game_id m.channel in
      let here = chat_key game_id channel in
      let limit = resolve_limit raw_limit in
      let same = chat_key-eq m.game_id game_id m.channel channel in
      items-ltrim key here limit (rpush key m s)
      ∙ rw (items-rpush key here m s, same) (ground (arith, short))

  -- The list of a channel holds the last of what was said on it, whatever is said elsewhere.
  items-append_all :
      (game_id : String) (channel : ChatChannel) (said ms : List ChatMessageEvent) (s : Store)
      → items (chat_key game_id channel) s ≡ last (resolve_limit raw_limit) said
      → items (chat_key game_id channel) (append_all ms s)
        ≡ last (resolve_limit raw_limit) (said ++ keep (is_on game_id channel) ms)
  unfolding append_all
  items-append_all game_id channel said [] s e =
      e ∙ ap (last (resolve_limit raw_limit)) (sym (append_nil said))
  items-append_all game_id channel said (m ∷ ms) s e =
      let limit = resolve_limit raw_limit in
      let key = chat_key game_id channel in
      let short : items key s ≡ last limit (items key s) =
        e ∙ sym (last-last limit said) ∙ ap (last limit) (sym e) in
      let put = items-append m game_id channel s short in
      let next = append redis raw_limit m s in
      elim (Bool-cases (is_on game_id channel m)) [
        | inl on ↦
            let now : items key next ≡ last limit (said ++ m ∷ []) =
              put
              ∙ rw on
                  (ap (λ old. last limit (old ++ m ∷ [])) e ∙ last-append limit said m limit_pos) in
            items-append_all game_id channel (said ++ m ∷ []) ms next now
            ∙ rw on (ap (last limit) (append_assoc said (m ∷ []) (keep (is_on game_id channel) ms)))
        | inr off ↦
            let now : items key next ≡ last limit said = put ∙ rw off e in
            items-append_all game_id channel said ms next now ∙ rw off refl
      ]

  keep_all :
      (p : ChatMessageEvent → Bool) (ms : List ChatMessageEvent)
      → All (λ m. p m ≡ true) ms
      → keep p ms ≡ ms
  keep_all p [] h = refl
  keep_all p (m ∷ ms) (h, hs) = rw h (ap (λ r. m ∷ r) (keep_all p ms hs))

  on_channel :
      (game_id : String) (channel : ChatChannel) (ms : List ChatMessageEvent)
      → All (λ m. channel_eq m.channel channel ≡ true) (keep (is_on game_id channel) ms)
  on_channel game_id channel [] = tt
  on_channel game_id channel (m ∷ ms) = elim (Bool-cases (is_on game_id channel m)) [
    | inl on ↦ rw on (ground arith, on_channel game_id channel ms)
    | inr off ↦ rw off (on_channel game_id channel ms)
  ]

  -- After a channel was cleared, and messages of any games and channels were put in, in any order:
  -- reading the channel gives the last of those that are of this channel of this game, as many as the
  -- limit allows, in the order in which they were sent.
  pub get_recent-append_all :
      (game_id : String) (channel : ChatChannel) (ms : List ChatMessageEvent) (s : Store)
      → get_recent redis raw_limit game_id channel
          (append_all ms (clear redis raw_limit game_id channel s))
        ≡ last (resolve_limit raw_limit) (keep (is_on game_id channel) ms)
  unfolding get_recent clear
  get_recent-append_all game_id channel ms s =
      let key = chat_key game_id channel in
      let limit = resolve_limit raw_limit in
      let mine = keep (is_on game_id channel) ms in
      let emptied : items key (del key s) ≡ [] = items-del key key s ∙ rw (eq_self key) refl in
      let kept =
        items-append_all game_id channel [] ms (del key s) (emptied ∙ sym (drop_nil (0 - limit))) in
      ap (keep (λ message. channel_eq message.channel channel)) (
        lrange-eq key limit (append_all ms (del key s))
        ∙ ap (last limit) kept
        ∙ last-last limit mine)
      ∙ keep_all (λ message. channel_eq message.channel channel) (last limit mine)
          (drop-All _ (length mine - limit) mine (on_channel game_id channel ms))
