-- ===== src/Session/Invariant/Connections.antt =====
-- Players who disconnect or come back leave a valid session valid.
use mafia_casefile.Prelude.{
  ℕ, ◌+◌, ◌≡◌, refl, String, Option, none, some, List, [], ◌∷◌, Dict, All, arith,
}
use mafia_casefile.Prelude.Results.{ok}
use mafia_casefile.Shared.{ConnectionStatus}
use mafia_casefile.Session.{GameSession, GameSessionPlayer}
use mafia_casefile.Session.Players.{set_connection, find_index}
use mafia_casefile.Session.Operations.{mark_player_connected, mark_player_disconnected}
use mafia_casefile.Session.Lives.{
  lives?, lives-set_connection, set_connection-Distinct, set_connection-IsNamed,
  evaluate_winner-set_connection,
}
use mafia_casefile.Session.Invariant.{BallotLives, IsValid}

lives?-set_connection :
    (o : Option String) (i : ℕ) (c : ConnectionStatus) (now : ℕ) (ps : List GameSessionPlayer)
    → lives? o (set_connection i c now ps) ≡ lives? o ps
lives?-set_connection none i c now ps = refl
lives?-set_connection (some id) i c now ps = lives-set_connection id i c now ps

BallotLives-set_connection :
    (i : ℕ) (c : ConnectionStatus) (now : ℕ) (ps : List GameSessionPlayer) (votes : Dict String)
    → All (BallotLives ps) votes
    → All (BallotLives (set_connection i c now ps)) votes
BallotLives-set_connection i c now ps [] h = tt
BallotLives-set_connection i c now ps ((voter, target) ∷ votes) h = (
  (
    rw (lives-set_connection voter i c now ps) h.0.0,
    rw (lives-set_connection target i c now ps) h.0.1,
  ),
  BallotLives-set_connection i c now ps votes h.1,
)

set_connection-IsValid :
    (s : GameSession) (i : ℕ) (c : ConnectionStatus) (version now : ℕ)
    → IsValid s
    → IsValid (record s {
      players = set_connection i c now s.players;
      version = version;
      updated_at = now;
    })
set_connection-IsValid s i c version now v = record {
  distinct = set_connection-Distinct i c now s.players v.distinct;
  named = set_connection-IsNamed i c now s.players v.named;
  ballots_live = BallotLives-set_connection i c now s.players s.votes v.ballots_live;
  mafia_target_lives =
      rw (lives?-set_connection s.night_actions.mafia_target i c now s.players)
        v.mafia_target_lives;
  doctor_target_lives =
      rw (lives?-set_connection s.night_actions.doctor_target i c now s.players)
        v.doctor_target_lives;
  police_target_lives =
      rw (lives?-set_connection s.night_actions.police_target i c now s.players)
        v.police_target_lives;
  votes_while_voting = v.votes_while_voting;
  actions_at_night = v.actions_at_night;
  finished_when_won = rw (evaluate_winner-set_connection i c now s.players) v.finished_when_won;
}

mark_player_disconnected-eq-ok :
    (s : GameSession) (user_id : String) (now : ℕ) (t : GameSession)
    → mark_player_disconnected s user_id now ≡ ok t
    → (i : ℕ) × (find_index user_id s.players ≡ some i)
      × (t ≡ record s {
        players = set_connection i ConnectionStatus.disconnected now s.players;
        version = s.version + 1;
        updated_at = now;
      })
unfolding mark_player_disconnected
mark_player_disconnected-eq-ok s user_id now t e = ground arith

mark_player_connected-eq-ok :
    (s : GameSession) (user_id : String) (now : ℕ) (t : GameSession)
    → mark_player_connected s user_id now ≡ ok t
    → (i : ℕ) × (find_index user_id s.players ≡ some i)
      × (t ≡ record s {
        players = set_connection i ConnectionStatus.connected now s.players;
        version = s.version + 1;
        updated_at = now;
      })
unfolding mark_player_connected
mark_player_connected-eq-ok s user_id now t e = ground arith

-- A player who disconnects or comes back leaves a valid session.
pub mark_player_disconnected-IsValid :
    (s : GameSession) (user_id : String) (now : ℕ) (t : GameSession)
    → IsValid s
    → mark_player_disconnected s user_id now ≡ ok t
    → IsValid t
mark_player_disconnected-IsValid s user_id now t v e =
    let (i, _, same) = mark_player_disconnected-eq-ok s user_id now t e in
    rw same (set_connection-IsValid s i ConnectionStatus.disconnected (s.version + 1) now v)

pub mark_player_connected-IsValid :
    (s : GameSession) (user_id : String) (now : ℕ) (t : GameSession)
    → IsValid s
    → mark_player_connected s user_id now ≡ ok t
    → IsValid t
mark_player_connected-IsValid s user_id now t v e =
    let (i, _, same) = mark_player_connected-eq-ok s user_id now t e in
    rw same (set_connection-IsValid s i ConnectionStatus.connected (s.version + 1) now v)
