-- ===== src/Realtime/Gateway/Effects/Untouched.antt =====
-- What `applyCommandEffects` of apps/api/src/realtime/realtime.gateway.ts does not write to.
use mafia_casefile.Prelude.{ℕ, ◌≡◌, refl, ◌∙◌, Option, none, some, List, [], ◌∷◌, String, arith}
use mafia_casefile.Commands.{
  GameCommandUser, GameCommandEffect, join_room, leave_room, broadcast, private_event, ServerEvent,
}
use mafia_casefile.Realtime.Gateway.{
  Emission, joins, leaves, to_room, to_user, Client, Platform, Server,
}
use mafia_casefile.Realtime.Gateway.Effects.{
  emit, apply_effects, apply_system_effects, cache_chat_message_effect,
  schedule_phase_timer_from_effect, schedule_deadline, set_client_room, clear_client_room,
}

-- The second server has the game, the records of requests and the locks of the first.
pub record Untouched (p : Platform) (s s' : Server p) : Type 0 where
  pub world_kept : s'.world ≡ s.world
  pub requests_kept : s'.requests ≡ s.requests
  pub locks_kept : s'.locks ≡ s.locks

module _ (p : Platform) where
  kept_twice : {s s' s'' : Server p} → Untouched p s s' → Untouched p s' s'' → Untouched p s s''
  kept_twice h k = record {
    world_kept = k.world_kept ∙ h.world_kept;
    requests_kept = k.requests_kept ∙ h.requests_kept;
    locks_kept = k.locks_kept ∙ h.locks_kept;
  }

  all_kept : {s : Server p} → Untouched p s s
  all_kept = record { world_kept = refl; requests_kept = refl; locks_kept = refl }

  emit-Untouched : (e : Emission) (s : Server p) → Untouched p s (emit p e s)
  unfolding emit
  emit-Untouched e s = record { world_kept = refl; requests_kept = refl; locks_kept = refl }

  cache-Untouched :
      (event : ServerEvent) (seen : List String) (s : Server p)
      → Untouched p s (cache_chat_message_effect p event seen s).1
  unfolding cache_chat_message_effect
  cache-Untouched event seen s = record {
    world_kept = ground arith;
    requests_kept = ground arith;
    locks_kept = ground arith;
  }

  schedule-Untouched :
      (room_id : String) (event : ServerEvent) (s : Server p)
      → Untouched p s (schedule_phase_timer_from_effect p room_id event s)
  unfolding schedule_phase_timer_from_effect schedule_deadline
  schedule-Untouched room_id event s = record {
    world_kept = ground arith;
    requests_kept = ground arith;
    locks_kept = ground arith;
  }

  set_client_room-Untouched :
      (client : Client) (user : Option GameCommandUser) (room_id : String) (now : ℕ) (s : Server p)
      → Untouched p s (set_client_room p client user room_id now s)
  unfolding set_client_room
  set_client_room-Untouched client none room_id now s = all_kept
  set_client_room-Untouched client (some user) room_id now s = record {
    world_kept = refl;
    requests_kept = refl;
    locks_kept = refl;
  }

  clear_client_room-Untouched :
      (client : Client) (user : Option GameCommandUser) (room_id : String) (now : ℕ) (s : Server p)
      → Untouched p s (clear_client_room p client user room_id now s)
  unfolding clear_client_room
  clear_client_room-Untouched client none room_id now s = all_kept
  clear_client_room-Untouched client (some user) room_id now s = record {
    world_kept = refl;
    requests_kept = refl;
    locks_kept = refl;
  }

  -- A broadcast: sent, its timer scheduled, its message cached.
  broadcast-Untouched :
      (room_id : String) (event : ServerEvent) (seen : List String) (s : Server p)
      → Untouched p s
          (cache_chat_message_effect p event seen
            (schedule_phase_timer_from_effect p room_id event (emit p (to_room room_id event) s))).1
  broadcast-Untouched room_id event seen s =
      let s' = emit p (to_room room_id event) s in
      kept_twice (emit-Untouched (to_room room_id event) s) (
        kept_twice (schedule-Untouched room_id event s')
          (cache-Untouched event seen (schedule_phase_timer_from_effect p room_id event s')))

  pub apply_effects-Untouched :
      (client : Client) (user : Option GameCommandUser) (now : ℕ) (effects : List GameCommandEffect)
      (seen : List String) (s : Server p)
      → Untouched p s (apply_effects p client user now effects seen s)
  unfolding apply_effects
  apply_effects-Untouched client user now [] seen s = all_kept
  apply_effects-Untouched client user now (join_room r ∷ es) seen s =
      let s' = emit p (joins client.socket_id r) s in
      kept_twice (emit-Untouched (joins client.socket_id r) s) (
        kept_twice (set_client_room-Untouched client user r now s') (
          apply_effects-Untouched client user now es seen (set_client_room p client user r now s')))
  apply_effects-Untouched client user now (leave_room r ∷ es) seen s =
      let s' = emit p (leaves client.socket_id r) s in
      kept_twice (emit-Untouched (leaves client.socket_id r) s) (
        kept_twice (clear_client_room-Untouched client user r now s') (
          apply_effects-Untouched client user now es seen
            (clear_client_room p client user r now s')))
  apply_effects-Untouched client user now (broadcast r event ∷ es) seen s =
      let out =
        cache_chat_message_effect p event seen
          (schedule_phase_timer_from_effect p r event (emit p (to_room r event) s)) in
      kept_twice (broadcast-Untouched r event seen s)
        (apply_effects-Untouched client user now es out.0 out.1)
  apply_effects-Untouched client user now (private_event u event ∷ es) seen s =
      let s' = emit p (to_user u event) s in
      let out = cache_chat_message_effect p event seen s' in
      kept_twice (emit-Untouched (to_user u event) s) (
        kept_twice (cache-Untouched event seen s')
          (apply_effects-Untouched client user now es out.0 out.1))

  pub apply_system_effects-Untouched :
      (effects : List GameCommandEffect) (seen : List String) (s : Server p)
      → Untouched p s (apply_system_effects p effects seen s)
  unfolding apply_system_effects
  apply_system_effects-Untouched [] seen s = all_kept
  apply_system_effects-Untouched (join_room r ∷ es) seen s =
      apply_system_effects-Untouched es seen s
  apply_system_effects-Untouched (leave_room r ∷ es) seen s =
      apply_system_effects-Untouched es seen s
  apply_system_effects-Untouched (private_event u event ∷ es) seen s =
      apply_system_effects-Untouched es seen s
  apply_system_effects-Untouched (broadcast r event ∷ es) seen s =
      let out =
        cache_chat_message_effect p event seen
          (schedule_phase_timer_from_effect p r event (emit p (to_room r event) s)) in
      kept_twice (broadcast-Untouched r event seen s)
        (apply_system_effects-Untouched es out.0 out.1)
