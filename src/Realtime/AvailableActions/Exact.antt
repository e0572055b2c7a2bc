-- ===== src/Realtime/AvailableActions/Exact.antt =====
-- The targets of apps/api/src/realtime/available-actions.service.ts, against `castVote` and
-- `selectNightAction` of game-session.service.ts.
use mafia_casefile.Prelude.{
  ℕ, ◌≡◌, refl, String, Bool, true, false, not, ◌&&◌, ◌||◌, Option, none, some, List, [], ◌∷◌, ◌++◌,
  keep, any, ◌==◌, lookup, truthy?, arith, eq_iff, Bool-cases, Option-cases, inl, inr,
}
use mafia_casefile.Prelude.Results.{Result, ok, err}
use mafia_casefile.Shared.{
  Env, night, day_discussion, voting, finished, phase_eq, Role, mafia, doctor, police, role_eq,
  is_alive, is_disconnected, day_chat, mafia_chat, ghost_chat,
}
use mafia_casefile.Session.{GameSession, GameSessionPlayer, find_player}
use mafia_casefile.Session.Operations.{
  first_vote, cast_vote, select_night_action, TargetKey, mafia_key, doctor_key, police_key,
  get_target, is_doctor_key,
}
use mafia_casefile.Sessions.{role_of_key}
use mafia_casefile.Session.Lives.{lives, Distinct, find_player-id}
use mafia_casefile.Realtime.AvailableActions.{
  AvailableActionType, AvailableAction, next_phase, select_mafia_target, select_doctor_target,
  select_police_target, send_chat_message, alive_player_ids, other_alive_player_ids, actions_for,
  build_for_player, on_target, chat_on, push_if,
}

abbrev pub type_eq : AvailableActionType → AvailableActionType → Bool
type_eq next_phase next_phase = true
type_eq AvailableActionType.cast_vote AvailableActionType.cast_vote = true
type_eq select_mafia_target select_mafia_target = true
type_eq select_doctor_target select_doctor_target = true
type_eq select_police_target select_police_target = true
type_eq send_chat_message send_chat_message = true
type_eq _ _ = false

abbrev pub among : String → Option (List String) → Bool
among id none = false
among id (some ids) = any (λ j. j == id) ids

-- Some action of this type has this target.
abbrev pub offers : AvailableActionType → String → List AvailableAction → Bool
offers type id actions = any (λ a. type_eq a.type type && among id a.target_user_ids) actions

abbrev pub is_ok : {A : Type 0} → Result A → Bool
is_ok (ok a) = true
is_ok (err message) = false

absent_dead :
    (id : String) (ps : List GameSessionPlayer)
    → find_player id ps ≡ none
    → any (λ j. j == id) (alive_player_ids ps) ≡ false
unfolding find_player
absent_dead id [] e = refl
absent_dead id (p ∷ ps) e = ground (arith, absent_dead id ps)

-- The ids of the living are those that live.
alive_player_ids-lives :
    (id : String) (ps : List GameSessionPlayer)
    → Distinct ps
    → any (λ j. j == id) (alive_player_ids ps) ≡ lives id ps
unfolding find_player
alive_player_ids-lives id [] h = refl
alive_player_ids-lives id (p ∷ ps) h =
    ground (arith, alive_player_ids-lives id ps h.1, absent_dead id ps, eq_iff p.user_id id)

others_among :
    (user_id id : String) (ids : List String)
    → any (λ j. j == id) (keep (λ j. not (j == user_id)) ids)
      ≡ (any (λ j. j == id) ids && not (id == user_id))
others_among user_id id [] = refl
others_among user_id id (j ∷ ids) =
    ground (arith, others_among user_id id ids, eq_iff j id, eq_iff j user_id, eq_iff id user_id)

offers-push_if :
    (type : AvailableActionType) (id : String) (b : Bool) (xs ys : List AvailableAction)
    → offers type id (push_if b xs ++ ys) ≡ ((b && offers type id xs) || offers type id ys)
offers-push_if type id false xs ys = refl
offers-push_if type id true [] ys = refl
offers-push_if type id true (x ∷ xs) ys = ground (arith, offers-push_if type id true xs ys)

offers_last :
    (type : AvailableActionType) (id : String) (b : Bool) (xs : List AvailableAction)
    → offers type id (push_if b xs) ≡ (b && offers type id xs)
offers_last type id false xs = refl
offers_last type id true xs = refl

-- Which targets the actions pushed have.
offers-actions_for :
    (type : AvailableActionType) (id : String) (s : GameSession) (p : GameSessionPlayer)
    (u : String)
    → (let alive = is_alive p.status in
        let targets = any (λ j. j == id) (alive_player_ids s.players) in
        let others = any (λ j. j == id) (other_alive_player_ids u s.players) in
        offers type id (actions_for s p u) ≡ (
          (phase_eq s.phase voting
            && alive
            && type_eq AvailableActionType.cast_vote type
            && targets)
          || (phase_eq s.phase night
              && alive
              && ((role_eq p.role mafia && type_eq select_mafia_target type && others)
                  || (role_eq p.role doctor && type_eq select_doctor_target type && targets)
                  || (role_eq p.role police && type_eq select_police_target type && others)))))
offers-actions_for type id s p u =
    let alive = is_alive p.status in
    let day = push_if (phase_eq s.phase day_discussion && alive) (chat_on day_chat ∷ []) in
    let ghost = push_if (not alive) (chat_on ghost_chat ∷ []) in
    let targets = alive_player_ids s.players in
    let others = other_alive_player_ids u s.players in
    let by_mafia = on_target select_mafia_target others ∷ chat_on mafia_chat ∷ [] in
    let by_doctor = on_target select_doctor_target targets ∷ [] in
    let by_police = on_target select_police_target others ∷ [] in
    let m = role_eq p.role mafia in
    let d = role_eq p.role doctor in
    let o = role_eq p.role police in
    let at_night = push_if m by_mafia ++ (push_if d by_doctor ++ push_if o by_police) in
    let n = phase_eq s.phase night && alive in
    ground (
      arith,
      offers-push_if type id (phase_eq s.phase voting && alive)
          (on_target AvailableActionType.cast_vote targets ∷ [])
          (push_if n at_night ++ (day ++ ghost)),
      offers-push_if type id n at_night (day ++ ghost),
      offers-push_if type id m by_mafia (push_if d by_doctor ++ push_if o by_police),
      offers-push_if type id d by_doctor (push_if o by_police),
      offers_last type id o by_police,
      offers-push_if type id (phase_eq s.phase day_discussion && alive) (chat_on day_chat ∷ [])
          ghost,
      offers_last type id (not alive) (chat_on ghost_chat ∷ []),
    )

-- A player who is connected is shown the actions of a game that is not over.
offers-build_for_player :
    (type : AvailableActionType) (id u : String) (s : GameSession) (p : GameSessionPlayer)
    → find_player u s.players ≡ some p
    → is_disconnected p.connection_status ≡ false
    → offers type id (build_for_player s u)
      ≡ (not (phase_eq s.phase finished) && offers type id (actions_for s p u))
unfolding build_for_player
offers-build_for_player type id u s p e c = elim (Bool-cases (phase_eq s.phase finished)) [
  | inl f ↦ rw (e, build_for_player, c, f) refl
  | inr f ↦ rw (e, build_for_player, c, f) refl
]

cast_vote-is_ok :
    (env : Env) (s : GameSession) (u id request_id : String) (now : ℕ) (p : GameSessionPlayer)
    → find_player u s.players ≡ some p
    → truthy? (lookup request_id s.processed_requests) ≡ false
    → truthy? (lookup u s.votes) ≡ false
    → is_ok (cast_vote env s u id request_id now)
      ≡ (phase_eq s.phase voting && is_alive p.status && lives id s.players)
unfolding cast_vote first_vote
cast_vote-is_ok env s u id request_id now p e new free =
    elim (Option-cases (find_player id s.players)) [
      | inl f ↦ ground arith
      | inr (q, f) ↦ ground arith
    ]

select_night_action-is_ok :
    (s : GameSession) (u id : String) (role : Role) (key : TargetKey) (now : ℕ)
    (p : GameSessionPlayer)
    → find_player u s.players ≡ some p
    → truthy? (get_target key s.night_actions) ≡ false
    → is_ok (select_night_action s u id role key now) ≡ (
        phase_eq s.phase night
        && is_alive p.status
        && role_eq p.role role
        && lives id s.players
        && not ((id == u) && not (is_doctor_key key)))
unfolding select_night_action
select_night_action-is_ok s u id role key now p e free =
    elim (Option-cases (find_player id s.players)) [
      | inl f ↦ ground arith
      | inr (q, f) ↦
          let same : (q.user_id == p.user_id) ≡ (id == u) =
            rw (find_player-id id s.players q f, find_player-id u s.players p e) refl in
          ground (arith, same)
    ]

-- In a session whose players have distinct ids, a connected player who has not voted is shown exactly
-- the targets for which a vote under a new request would be accepted.
pub offers-cast_vote :
    (env : Env) (s : GameSession) (u id request_id : String) (now : ℕ) (p : GameSessionPlayer)
    → Distinct s.players
    → find_player u s.players ≡ some p
    → is_disconnected p.connection_status ≡ false
    → truthy? (lookup request_id s.processed_requests) ≡ false
    → truthy? (lookup u s.votes) ≡ false
    → offers AvailableActionType.cast_vote id (build_for_player s u)
      ≡ is_ok (cast_vote env s u id request_id now)
offers-cast_vote env s u id request_id now p distinct e c new free = ground (
  arith,
  offers-build_for_player AvailableActionType.cast_vote id u s p e c,
  offers-actions_for AvailableActionType.cast_vote id s p u,
  alive_player_ids-lives id s.players distinct,
  cast_vote-is_ok env s u id request_id now p e new free,
)

-- The action that selects a target of each kind.
abbrev pub type_of_key : TargetKey → AvailableActionType
type_of_key mafia_key = select_mafia_target
type_of_key doctor_key = select_doctor_target
type_of_key police_key = select_police_target

-- In a session whose players have distinct ids, a connected player is shown, as targets of each role
-- whose choice is still open, exactly those that the server would accept from that player.
pub offers-select_target :
    (key : TargetKey) (s : GameSession) (u id : String) (now : ℕ) (p : GameSessionPlayer)
    → Distinct s.players
    → find_player u s.players ≡ some p
    → is_disconnected p.connection_status ≡ false
    → truthy? (get_target key s.night_actions) ≡ false
    → offers (type_of_key key) id (build_for_player s u)
      ≡ is_ok (select_night_action s u id (role_of_key key) key now)
offers-select_target mafia_key s u id now p distinct e c free = ground (
  arith,
  offers-build_for_player select_mafia_target id u s p e c,
  offers-actions_for select_mafia_target id s p u,
  others_among u id (alive_player_ids s.players),
  alive_player_ids-lives id s.players distinct,
  select_night_action-is_ok s u id mafia mafia_key now p e free,
)
offers-select_target doctor_key s u id now p distinct e c free = ground (
  arith,
  offers-build_for_player select_doctor_target id u s p e c,
  offers-actions_for select_doctor_target id s p u,
  alive_player_ids-lives id s.players distinct,
  select_night_action-is_ok s u id doctor doctor_key now p e free,
)
offers-select_target police_key s u id now p distinct e c free = ground (
  arith,
  offers-build_for_player select_police_target id u s p e c,
  offers-actions_for select_police_target id s p u,
  others_among u id (alive_player_ids s.players),
  alive_player_ids-lives id s.players distinct,
  select_night_action-is_ok s u id police police_key now p e free,
)
