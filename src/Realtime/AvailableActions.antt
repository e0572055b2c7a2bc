-- ===== src/Realtime/AvailableActions.antt =====
-- apps/api/src/realtime/available-actions.service.ts: the actions that a player is shown, with the
-- types of packages/shared/src/socket.ts.
pub mod Exact
use mafia_casefile.Prelude.{
  String, Bool, true, false, not, ◌&&◌, Option, none, some, List, [], ◌∷◌, ◌++◌, map, keep, any,
  ◌==◌, if◌then◌else◌,
}
use mafia_casefile.Shared.{
  night, day_discussion, voting, finished, phase_eq, mafia, doctor, police, role_eq, is_alive,
  is_disconnected, ChatChannel, day_chat, mafia_chat, ghost_chat,
}
use mafia_casefile.Session.{GameSession, GameSessionPlayer, find_player}

pub data AvailableActionType : Type 0 where
  next_phase cast_vote select_mafia_target : AvailableActionType
  select_doctor_target select_police_target send_chat_message : AvailableActionType

pub record AvailableAction : Type 0 where
  pub type : AvailableActionType
  pub channel : Option ChatChannel
  pub target_user_ids : Option (List String)

abbrev pub on_target : AvailableActionType → List String → AvailableAction
on_target type ids = record { type = type; channel = none; target_user_ids = some ids }

abbrev pub chat_on : ChatChannel → AvailableAction
chat_on channel = record {
  type = send_chat_message;
  channel = some channel;
  target_user_ids = none;
}

-- `if (…) { actions.push(…) }`
abbrev pub push_if : Bool → List AvailableAction → List AvailableAction
push_if true actions = actions
push_if false actions = []

abbrev pub alive_player_ids : List GameSessionPlayer → List String
alive_player_ids ps = map (λ p. p.user_id) (keep (λ p. is_alive p.status) ps)

abbrev pub other_alive_player_ids : String → List GameSessionPlayer → List String
other_alive_player_ids user_id ps = keep (λ id. not (id == user_id)) (alive_player_ids ps)

-- What is pushed for a player who is there, connected, and in a game that is not over.
abbrev pub actions_for : GameSession → GameSessionPlayer → String → List AvailableAction
actions_for s player user_id =
    let alive = is_alive player.status in
    let targets = alive_player_ids s.players in
    let others = other_alive_player_ids user_id s.players in
    push_if (phase_eq s.phase voting && alive) (on_target cast_vote targets ∷ [])
    ++ (push_if (phase_eq s.phase night && alive) (
          push_if (role_eq player.role mafia)
            (on_target select_mafia_target others ∷ chat_on mafia_chat ∷ [])
          ++ (push_if (role_eq player.role doctor) (on_target select_doctor_target targets ∷ [])
              ++ push_if (role_eq player.role police) (on_target select_police_target others ∷ [])))
        ++ (push_if (phase_eq s.phase day_discussion && alive) (chat_on day_chat ∷ [])
            ++ push_if (not alive) (chat_on ghost_chat ∷ [])))

unfoldable pub build_for_player : GameSession → String → List AvailableAction
build_for_player s user_id = elim (find_player user_id s.players) [
  | none ↦ []
  | some player ↦
      if is_disconnected player.connection_status
      then []
      else if phase_eq s.phase finished
      then []
      else actions_for s player user_id
]
