-- ===== src/Realtime/ChatCache.antt =====
-- apps/api/src/realtime/chat-message-cache.service.ts: the latest messages of each channel, in a list of
-- Redis. The list commands are parameters; the expiry of a whole list is left out.
pub mod Keys
pub mod Recent
use Prim.Native.String
use mafia_casefile.Prelude.{
  ℕ, zero, suc, ◌-◌, ◌≡◌, refl, String, Option, none, some, List, [], ◌∷◌, ◌++◌, keep, length, ◌==◌,
  if◌then◌else◌,
}
use mafia_casefile.Shared.{
  ChatChannel, lobby_chat, day_chat, mafia_chat, ghost_chat, system_chat, channel_eq,
}
use mafia_casefile.Commands.{ChatMessageEvent}
use mafia_casefile.Realtime.Redis.{positive_or}

module _ {ℓ} {A : Type ℓ} where
  abbrev pub drop : ℕ → List A → List A
  drop zero xs = xs
  drop (suc n) [] = []
  drop (suc n) (x ∷ xs) = drop n xs

  -- The last members of a list, `n` of them or all.
  abbrev pub last : ℕ → List A → List A
  last n xs = drop (length xs - n) xs

-- `RPUSH`, `LTRIM key -n -1`, `LRANGE key -n -1` and `DEL`; `items` is the whole list under a key.
pub record RedisList (V : Type 0) : Type 1 where
  pub Store : Type 0
  pub items : String → Store → List V
  pub rpush : String → V → Store → Store
  pub ltrim : String → ℕ → Store → Store
  pub lrange : String → ℕ → Store → List V
  pub del : String → Store → Store
  pub items-rpush :
      (k j : String) (v : V) (s : Store)
      → items j (rpush k v s) ≡ (if k == j then items j s ++ v ∷ [] else items j s)
  pub items-ltrim :
      (k j : String) (n : ℕ) (s : Store)
      → items j (ltrim k n s) ≡ (if k == j then last n (items j s) else items j s)
  pub lrange-eq : (k : String) (n : ℕ) (s : Store) → lrange k n s ≡ last n (items k s)
  pub items-del :
      (k j : String) (s : Store) → items j (del k s) ≡ (if k == j then [] else items j s)

-- A server that keeps each list as it is.
abbrev pub memory_lists : (V : Type 0) → RedisList V
memory_lists V = record {
  Store = String → List V;
  items = λ k s. s k;
  rpush = λ k v s j. if k == j then s j ++ v ∷ [] else s j;
  ltrim = λ k n s j. if k == j then last n (s j) else s j;
  lrange = λ k n s. last n (s k);
  del = λ k s j. if k == j then [] else s j;
  items-rpush = λ k j v s. refl;
  items-ltrim = λ k j n s. refl;
  lrange-eq = λ k n s. refl;
  items-del = λ k j s. refl;
}

abbrev pub channel_name : ChatChannel → String
channel_name lobby_chat = "LOBBY"
channel_name day_chat = "DAY"
channel_name mafia_chat = "MAFIA"
channel_name ghost_chat = "GHOST"
channel_name system_chat = "SYSTEM"

unfoldable pub chat_key : String → ChatChannel → String
chat_key game_id channel =
    String.◌++◌ "chat:recent:" (String.◌++◌ game_id (String.◌++◌ ":" (channel_name channel)))

-- `resolveLimit`, of `CHAT_CACHE_LIMIT` or of a given limit
abbrev pub resolve_limit : Option ℕ → ℕ
resolve_limit raw = positive_or 50 raw

module _ (redis : RedisList ChatMessageEvent) (raw_limit : Option ℕ) where
  open redis use {Store, rpush, ltrim, lrange, del}

  unfoldable pub append : ChatMessageEvent → Store → Store
  append message s =
      let key = chat_key message.game_id message.channel in
      ltrim key (resolve_limit raw_limit) (rpush key message s)

  unfoldable pub get_recent : String → ChatChannel → Store → List ChatMessageEvent
  get_recent game_id channel s =
      keep (λ message. channel_eq message.channel channel)
        (lrange (chat_key game_id channel) (resolve_limit raw_limit) s)

  unfoldable pub clear : String → ChatChannel → Store → Store
  clear game_id channel s = del (chat_key game_id channel) s
