-- ===== src/Realtime/Gateway/Guards/Meetings.antt =====
-- A socket of apps/api/src/realtime/realtime.gateway.ts that connects, and one that is lost.
use mafia_casefile.Prelude.{
  ℕ, ◌≡◌, refl, sym, subst, ap, String, Bool, not, if◌then◌else◌, Option, none, some, Dict, ◌==◌,
}
use mafia_casefile.Prelude.Results.{Result, ok, err}
use mafia_casefile.Session.{GameSession}
use mafia_casefile.World.{World}
use mafia_casefile.Sessions.{mark_player_connected, mark_player_disconnected}
use mafia_casefile.Commands.{GameCommandUser}
use mafia_casefile.Realtime.Locks.{Waited, got, busy, out_of_fuel, acquire}
use mafia_casefile.Realtime.Connections.{mark_disconnected, find_by_user_id}
use mafia_casefile.Realtime.Gateway.{Client, Platform, Server}
use mafia_casefile.Realtime.Gateway.Effects.{emit}
use mafia_casefile.Realtime.Gateway.Connecting.{
  Meeting, release_meeting_lock, saved_sessions, mark_connected_waited,
  mark_reconnected_player_with_lock, restore_room, handle_user_connection, handle_connection,
  tell_disconnected, mark_disconnected_waited, leave_room_lost, handle_disconnected_user,
  handle_disconnect, room_of, or_now,
}
use mafia_casefile.Prelude.{if_both}
use mafia_casefile.Realtime.Gateway.Guards.{IsGuarded, stays, returned, lost}

module _ (p : Platform) (s : Server p) (m : Meeting p) where
  abbrev Good : Server p → Type 0
  Good s' = IsGuarded p s (Server.world s')

  if-Good : (b : Bool) (x y : Server p) → Good x → Good y → Good (if b then x else y)
  if-Good b x y hx hy = if_both Good b x y hx hy

  connected_waited :
      (game_id user_id : String) (waited : Waited) (s₁ : Server p)
      → s₁.world ≡ s.world
      → (acquire p.locks p.lock_settings m.clock m.tokens m.others game_id s.locks).0 ≡ waited
      → Good (mark_connected_waited p game_id user_id m waited s₁)
  unfolding mark_connected_waited release_meeting_lock
  connected_waited game_id user_id (got lock) s₁ same had =
      let w = s₁.world in
      let saved = marked (mark_player_connected game_id user_id m.marked_at w.sessions) refl in
      if-Good m.release_fails _ _ saved saved
    where
      marked :
          (r : Result (GameSession × Dict GameSession))
          → mark_player_connected game_id user_id m.marked_at (World.sessions (Server.world s₁)) ≡ r
          → Good (saved_sessions p r s₁)
      marked (ok (session, sessions)) e =
          subst (λ w. IsGuarded p s (record w { sessions = sessions })) (sym same)
            (returned game_id user_id m session sessions (lock, had)
              (subst
                (λ w.
                  mark_player_connected game_id user_id m.marked_at (World.sessions w)
                  ≡ ok (session, sessions))
                same e))
      marked (err message) e = subst (IsGuarded p s) (sym same) stays
  connected_waited game_id user_id busy s₁ same had = subst (IsGuarded p s) (sym same) stays
  connected_waited game_id user_id out_of_fuel s₁ same had = subst (IsGuarded p s) (sym same) stays

  reconnected :
      (game_id user_id : String) (s₁ : Server p)
      → s₁.world ≡ s.world
      → s₁.locks ≡ s.locks
      → Good (mark_reconnected_player_with_lock p game_id user_id m s₁)
  unfolding mark_reconnected_player_with_lock
  reconnected game_id user_id s₁ same same_locks =
      let wait = acquire p.locks p.lock_settings m.clock m.tokens m.others game_id in
      if-Good m.acquire_fails _ _ (subst (IsGuarded p s) (sym same) stays) (
        connected_waited game_id user_id (wait s₁.locks).0 (record s₁ { locks = (wait s₁.locks).1 })
          same (ap (λ l. (wait l).0) (sym same_locks)))

  restored :
      (client : Client) (user : GameCommandUser) (room_id : Option String) (s₁ : Server p)
      → s₁.world ≡ s.world
      → s₁.locks ≡ s.locks
      → Good (restore_room p client user room_id m s₁)
  unfolding restore_room emit
  restored client user none s₁ same same_locks = subst (IsGuarded p s) (sym same) stays
  restored client user (some room_id) s₁ same same_locks =
      if-Good (room_id == "") _ _ (subst (IsGuarded p s) (sym same) stays)
        (reconnected room_id user.id _ same same_locks)

  pub handle_connection-IsGuarded : (client : Client) → Good (handle_connection p client m s)
  unfolding handle_connection handle_user_connection emit
  handle_connection-IsGuarded client = as_user client.user
    where
      as_user :
          (user : Option GameCommandUser)
          → Good (elim user [ none ↦ s | some u ↦ handle_user_connection p client u m s ])
      as_user none = stays
      as_user (some u) =
          restored client u
            (room_of
              (find_by_user_id p.connections p.connection_ttl u.id m.now (Server.connections s)))
            _ refl refl

  disconnected_waited :
      (room_id user_id : String) (at : ℕ) (waited : Waited) (s₁ : Server p)
      → s₁.world ≡ s.world
      → (acquire p.locks p.lock_settings m.clock m.tokens m.others room_id s.locks).0 ≡ waited
      → Good (mark_disconnected_waited p room_id user_id at m waited s₁)
  unfolding mark_disconnected_waited release_meeting_lock tell_disconnected emit
  disconnected_waited room_id user_id at (got lock) s₁ same had =
      let w = s₁.world in
      let saved = marked (mark_player_disconnected room_id user_id at w.sessions) refl in
      if-Good m.release_fails _ _ saved saved
    where
      marked :
          (r : Result (GameSession × Dict GameSession))
          → mark_player_disconnected room_id user_id at (World.sessions (Server.world s₁)) ≡ r
          → Good (tell_disconnected p r room_id user_id at s₁)
      marked (ok (session, sessions)) e =
          subst (λ w. IsGuarded p s (record w { sessions = sessions })) (sym same)
            (lost room_id user_id at m session sessions (lock, had)
              (subst
                (λ w.
                  mark_player_disconnected room_id user_id at (World.sessions w)
                  ≡ ok (session, sessions))
                same e))
      marked (err message) e = subst (IsGuarded p s) (sym same) stays
  disconnected_waited room_id user_id at busy s₁ same had = subst (IsGuarded p s) (sym same) stays
  disconnected_waited room_id user_id at out_of_fuel s₁ same had =
      subst (IsGuarded p s) (sym same) stays

  room_lost :
      (room_id : Option String) (user_id : String) (at : ℕ) (s₁ : Server p)
      → s₁.world ≡ s.world
      → s₁.locks ≡ s.locks
      → Good (leave_room_lost p room_id user_id at m s₁)
  unfolding leave_room_lost
  room_lost none user_id at s₁ same same_locks = subst (IsGuarded p s) (sym same) stays
  room_lost (some room_id) user_id at s₁ same same_locks =
      let kept = subst (IsGuarded p s) (sym same) stays in
      let wait = acquire p.locks p.lock_settings m.clock m.tokens m.others room_id in
      if-Good (room_id == "") _ _ kept (
        if-Good m.acquire_fails _ _ kept (
          disconnected_waited room_id user_id at (wait s₁.locks).0
            (record s₁ { locks = (wait s₁.locks).1 }) same (ap (λ l. (wait l).0) (sym same_locks))))

  pub handle_disconnect-IsGuarded : (client : Client) → Good (handle_disconnect p client m s)
  unfolding handle_disconnect handle_disconnected_user
  handle_disconnect-IsGuarded client = as_user client.user
    where
      as_user :
          (user : Option GameCommandUser)
          → Good (elim user [ none ↦ s | some u ↦ handle_disconnected_user p client u m s ])
      as_user none = stays
      as_user (some u) =
          let out =
            mark_disconnected p.connections p.connection_ttl u.id client.socket_id m.now
              (Server.connections s) in
          let state = out.0 in
          if-Good (not (state.socket_id == client.socket_id)) _ _ stays
            (room_lost state.room_id u.id (or_now state.disconnected_at m.now) _ refl refl)
