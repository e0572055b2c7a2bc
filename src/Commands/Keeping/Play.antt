-- ===== src/Commands/Keeping/Play.antt =====
-- Votes, night actions and chat keep the stores valid.
use mafia_casefile.Prelude.{ℕ, String, Option, none, some, lookup}
use mafia_casefile.Shared.{Env}
use mafia_casefile.Session.Operations.{TargetKey}
use mafia_casefile.Rooms.{is_non_empty_string}
use mafia_casefile.World.{World, put_sessions}
use mafia_casefile.Sessions.{select_target, cast_vote}
use mafia_casefile.Sessions.Laws.{select_target-StoreValid, cast_vote-StoreValid}
use mafia_casefile.Commands.{GameCommandEnvelope, GameCommandUser, Field, text, flag, other}
use mafia_casefile.Commands.Play.{
  vote_action, vote_reason, vote_with, handle_cast_vote, night_action, night_reason, night_with,
  handle_night_target_command,
}
use mafia_casefile.Commands.Keeping.{
  WorldValid, Post, Valid, continue-Post, put_sessions-Post, logged, restored, answer-WorldValid,
  payload-WorldValid, if-WorldValid,
}

vote_action-Valid :
    (env : Env) (c : GameCommandEnvelope) (user : GameCommandUser) (target_id : String) (now : ℕ)
    (w : World)
    → WorldValid w
    → Post Valid (vote_action env c user target_id now w)
unfolding vote_action
vote_action-Valid env c user target_id now w v =
    continue-Post Valid Valid _ (λ vote w' v'. logged w' _ v')
      (put_sessions w (cast_vote env c.game_id user.id target_id c.request_id now w.sessions))
      (put_sessions-Post Valid w
        (cast_vote env c.game_id user.id target_id c.request_id now w.sessions)
        (λ vote sessions e. restored w sessions v (
          cast_vote-StoreValid c.game_id user.id target_id now w.sessions sessions env c.request_id
            vote v.sessions_valid e))
        v)

night_action-Valid :
    (key : TargetKey) (c : GameCommandEnvelope) (user : GameCommandUser) (target_id : String)
    (now : ℕ) (w : World)
    → WorldValid w
    → Post Valid (night_action key c user target_id now w)
unfolding night_action
night_action-Valid key c user target_id now w v =
    continue-Post Valid Valid _ (λ selection w' v'. logged w' _ v')
      (put_sessions w (select_target key c.game_id user.id target_id now w.sessions))
      (put_sessions-Post Valid w (select_target key c.game_id user.id target_id now w.sessions)
        (λ selection sessions e. restored w sessions v (
          select_target-StoreValid c.game_id user.id target_id now w.sessions sessions key selection
            v.sessions_valid e))
        v)

vote_with-WorldValid :
    (env : Env) (c : GameCommandEnvelope) (user : GameCommandUser) (field : Option Field) (now : ℕ)
    (w : World)
    → WorldValid w
    → WorldValid ((vote_with env c user field now w).1)
unfolding vote_with
vote_with-WorldValid env c user none now w v = v
vote_with-WorldValid env c user (some (flag b)) now w v = v
vote_with-WorldValid env c user (some other) now w v = v
vote_with-WorldValid env c user (some (text target_id)) now w v =
    if-WorldValid (is_non_empty_string target_id) _ _
      (answer-WorldValid c vote_reason (vote_action env c user target_id now) w
        (vote_action-Valid env c user target_id now w v))
      v

pub handle_cast_vote-WorldValid :
    (env : Env) (c : GameCommandEnvelope) (user : Option GameCommandUser) (now : ℕ) (w : World)
    → WorldValid w
    → WorldValid ((handle_cast_vote env c user now w).1)
unfolding handle_cast_vote
handle_cast_vote-WorldValid env c none now w v = v
handle_cast_vote-WorldValid env c (some user) now w v =
    payload-WorldValid c.payload _ _ w v
      (λ fields. vote_with-WorldValid env c user (lookup "targetUserId" fields) now w v)

night_with-WorldValid :
    (key : TargetKey) (c : GameCommandEnvelope) (user : GameCommandUser) (field : Option Field)
    (now : ℕ) (w : World)
    → WorldValid w
    → WorldValid ((night_with key c user field now w).1)
unfolding night_with
night_with-WorldValid key c user none now w v = v
night_with-WorldValid key c user (some (flag b)) now w v = v
night_with-WorldValid key c user (some other) now w v = v
night_with-WorldValid key c user (some (text target_id)) now w v =
    if-WorldValid (is_non_empty_string target_id) _ _
      (answer-WorldValid c night_reason (night_action key c user target_id now) w
        (night_action-Valid key c user target_id now w v))
      v

pub handle_night_target_command-WorldValid :
    (key : TargetKey) (c : GameCommandEnvelope) (user : Option GameCommandUser) (now : ℕ)
    (w : World)
    → WorldValid w
    → WorldValid ((handle_night_target_command key c user now w).1)
unfolding handle_night_target_command
handle_night_target_command-WorldValid key c none now w v = v
handle_night_target_command-WorldValid key c (some user) now w v =
    payload-WorldValid c.payload _ _ w v
      (λ fields. night_with-WorldValid key c user (lookup "targetUserId" fields) now w v)
