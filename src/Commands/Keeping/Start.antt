-- ===== src/Commands/Keeping/Start.antt =====
-- Starting a game keeps the stores valid: the room's participants make a valid session.
use mafia_casefile.Prelude.{
  arith, ◌≡◌, sym, subst, ◌≤◌, ℕ, String, Option, none, some, List, [], ◌∷◌, Dict, length,
}
use mafia_casefile.Prelude.Results.{ok}
use mafia_casefile.Shared.{Env}
use mafia_casefile.Session.{GameSession}
use mafia_casefile.Session.Operations.{start_session, StartGameSessionInput}
use mafia_casefile.Rooms.{Room, normalize_room}
use mafia_casefile.Rooms.Operations
use mafia_casefile.Rooms.Laws.{IsSeated, start-IsSeated, start-eq-ok}
use mafia_casefile.Rooms.Reachable.{started, start_game-eq-ok}
use mafia_casefile.World.{World, put_rooms, put_sessions}
use mafia_casefile.Sessions.{start_game_session, save}
use mafia_casefile.Sessions.Laws.{save-StoreValid}
use mafia_casefile.Commands.{GameCommandEnvelope, GameCommandUser}
use mafia_casefile.Commands.Roles.{RoleAssignment, build_role_assignments}
use mafia_casefile.Commands.StartGame.{
  announce_roles, start_action, handle_start_game, start_reason,
}
use mafia_casefile.Commands.StartGame.Begins.{begin_input, start_session-IsValid}
use mafia_casefile.Commands.Keeping.{
  WorldValid, Post, Valid, continue-Post, put_rooms-Post, put_sessions-Post, logged, stepped,
  restored, answer-WorldValid, payload-WorldValid,
}

-- Announcing roles writes to the log alone.
announce_roles-Valid :
    (c : GameCommandEnvelope) (cards : List RoleAssignment) (w : World)
    → WorldValid w
    → Post Valid (announce_roles c cards w)
unfolding announce_roles
announce_roles-Valid c [] w v = v
announce_roles-Valid c (a ∷ cards) w v =
    continue-Post Valid Valid _ (λ effects w' v'. v')
      (announce_roles c cards (record w { logs = _ }))
      (announce_roles-Valid c cards (record w { logs = _ }) (logged w _ v))

-- The started room is in order, and has four participants or more.
Started : Room → World → Type 0
Started room w = WorldValid w × IsSeated room × (4 ≤ length room.participants)

start_game-Started :
    (room_id user_id : String) (now : ℕ) (w : World) (r : Room) (rooms : Dict Room)
    → WorldValid w
    → Operations.start_game room_id user_id now w.rooms ≡ ok (r, rooms)
    → Started r (record w { rooms = rooms })
unfolding normalize_room Started
start_game-Started room_id user_id now w r rooms v e =
    let (b, a, found, done, same, _) = start_game-eq-ok room_id user_id now r w.rooms rooms e in
    let kept = v.rooms_valid room_id b found in
    let (_, _, four, _, changed) = start-eq-ok user_id now b a done in
    let (_, h) = start-IsSeated user_id now b a kept.in_order done in
    (
      stepped w rooms v (started room_id user_id now r w.rooms rooms e),
      subst IsSeated (sym same) (record { once = h.once; named = h.named; fits = h.fits }),
      rw (same, changed) four,
    )

start_game_session-eq-ok :
    (env : Env) (input : StartGameSessionInput) (sessions sessions' : Dict GameSession)
    (s : GameSession)
    → start_game_session env input sessions ≡ ok (s, sessions')
    → sessions' ≡ save (start_session env input) sessions
unfolding start_game_session
start_game_session-eq-ok env input sessions sessions' s e = ground arith

start_action-Valid :
    (env : Env) (seats cards : ℕ → ℕ) (c : GameCommandEnvelope) (user : GameCommandUser) (now : ℕ)
    (w : World)
    → WorldValid w
    → Post Valid (start_action env seats cards c user now w)
unfolding start_action Started
start_action-Valid env seats cards c user now w v =
    continue-Post Started Valid _
      (λ room w₁ (v₁, h, four).
        continue-Post Valid Valid _
          (λ session w₂ v₂.
            continue-Post Valid Valid _ (λ roles w₃ v₃. v₃)
              (announce_roles c (build_role_assignments seats cards room.participants)
                (record w₂ { logs = _ }))
              (announce_roles-Valid c (build_role_assignments seats cards room.participants)
                (record w₂ { logs = _ }) (logged w₂ _ v₂)))
          (put_sessions w₁ (start_game_session env (input room) w₁.sessions))
          (put_sessions-Post Valid w₁ (start_game_session env (input room) w₁.sessions)
            (λ s sessions e. restored w₁ sessions v₁ (
              rw (start_game_session-eq-ok env (input room) w₁.sessions sessions s e) (
                save-StoreValid (start_session env (input room)) w₁.sessions
                  (start_session-IsValid env seats cards c.game_id user.id now room h four)
                  v₁.sessions_valid)))
            v₁))
      (put_rooms w (Operations.start_game c.game_id user.id now w.rooms))
      (put_rooms-Post Started w (Operations.start_game c.game_id user.id now w.rooms)
        (λ r rooms e. start_game-Started c.game_id user.id now w r rooms v e) v)
  where
    input : Room → StartGameSessionInput
    input room = begin_input seats cards c.game_id user.id room.participants now

pub handle_start_game-WorldValid :
    (env : Env) (seats cards : ℕ → ℕ) (c : GameCommandEnvelope) (user : Option GameCommandUser)
    (now : ℕ) (w : World)
    → WorldValid w
    → WorldValid ((handle_start_game env seats cards c user now w).1)
unfolding handle_start_game
handle_start_game-WorldValid env seats cards c none now w v = v
handle_start_game-WorldValid env seats cards c (some user) now w v =
    payload-WorldValid c.payload _ _ w v (λ fields.
      answer-WorldValid c start_reason (start_action env seats cards c user now) w
        (start_action-Valid env seats cards c user now w v))
