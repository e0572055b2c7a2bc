-- ===== src/Commands/Phases/Running.antt =====
-- Changes of phase of a running game, in apps/api/src/game-commands/game-command.service.ts.
use mafia_casefile.Prelude.{ℕ, ◌≡◌, refl, ap, subst, sym, ◌∙◌, String, false, Option, some, List}
use mafia_casefile.Prelude.Results.{Result, ok}
use mafia_casefile.Shared.{Env, finished, phase_eq}
use mafia_casefile.Session.{GameSession, GameSessionPlayer}
use mafia_casefile.Session.Players.{evaluate_winner}
use mafia_casefile.Session.StateMachine.{PhaseTransitionResult, advance}
use mafia_casefile.Session.Cycle.{phase_after, advanced, advance_lem}
use mafia_casefile.Session.Settling.{Falls}
use mafia_casefile.World.{record_if, World, continue, put_sessions, ◌>>=◌, ◌>>◌, return}
use mafia_casefile.Events.{GameEventLog, GameEventType, GameEventPayload, record_event}
use mafia_casefile.Sessions.{find_by_game_id}
use mafia_casefile.Sessions.Laws.{StoreValid, OthersKept}
use mafia_casefile.Sessions.Found.{advance_phase_found}
use mafia_casefile.Commands.{GameCommandEffect}
use mafia_casefile.Commands.Phases.{
  Resolution, resolve, record_phase_change, phase_effects, change_phase, finished_log,
  resolution_log, phase_event,
}
use mafia_casefile.Commands.Phases.Resolving.{resolve-Settles}
use mafia_casefile.Commands.Phases.Turned.{turned, who_falls-turned, told_of-turned}
use mafia_casefile.Commands.Phases.Expected.{
  who_falls, told_of, phase_or_end, deadline_or_none, turn_after, next_deadline, announcements,
  history, resolution_log-event_of, finished_log-event_of,
}

-- The log with the change of phase and what it resolved.
abbrev resolved_logs :
    String
    → String
    → Option String
    → PhaseTransitionResult
    → Resolution
    → List GameEventLog
    → List GameEventLog
resolved_logs game_id request_id requested_by t r logs =
    let session = t.session in
    record_if (resolution_log game_id request_id r.resolution_event t) (
      record_event
        (phase_event game_id request_id GameEventType.phase_changed
          (GameEventPayload.phase t.from_phase t.to_phase t.to_turn requested_by
            session.phase_ends_at)
          t.to_turn t.to_phase)
        logs)

abbrev recorded_logs :
    String → String → Option String → PhaseTransitionResult → Resolution → World → List GameEventLog
recorded_logs game_id request_id requested_by t r w =
    record_if (finished_log game_id request_id r.winner (find_by_game_id game_id w.sessions) t)
      (resolved_logs game_id request_id requested_by t r w.logs)

-- Recording a change of phase cannot fail and writes to nothing but the log.
record_phase_change-eq :
    (game_id request_id : String) (requested_by : Option String) (t : PhaseTransitionResult)
    (r : Resolution) (w : World)
    → record_phase_change game_id request_id requested_by t r w
      ≡ (ok tt, record w { logs = recorded_logs game_id request_id requested_by t r w })
unfolding record_phase_change
record_phase_change-eq game_id request_id requested_by t r w = refl

-- What a change of phase does to a running game `s`. It returns. The game then stands in the phase
-- after its old one, with the turn and the deadline of that, or is finished if a night or a vote
-- decided it; the one to fall in that night or vote has fallen and nobody else. What is broadcast and
-- what is logged says so. All sessions are valid, and neither the other games nor the rooms have
-- changed.
pub record HasChanged (env : Env) (game_id request_id : String) (requested_by : Option String)
    (now : ℕ) (s : GameSession) (w : World) (out : Result (List GameCommandEffect) × World)
    : Type 0 where
  pub effects : List GameCommandEffect
  pub session : GameSession
  pub fallen : Option GameSessionPlayer
  pub told : Resolution
  pub returned : out.0 ≡ ok effects
  pub found : let w' = out.1 in find_by_game_id game_id w'.sessions ≡ some session
  pub phase : session.phase ≡ phase_or_end told.winner (phase_after s.phase)
  pub turn : session.turn ≡ turn_after s
  pub deadline : session.phase_ends_at ≡ deadline_or_none told.winner (next_deadline env now s)
  pub falls : Falls (who_falls env s.phase s) now s.players fallen session.players
  pub tells :
      told ≡ told_of env s.phase s (turn_after s) now fallen (evaluate_winner session.players)
  pub announced : effects ≡ announcements env game_id requested_by now s told
  pub logged :
      let w' = out.1 in
      w'.logs ≡ history env game_id request_id requested_by now s told session w.logs
  pub valid : let w' = out.1 in StoreValid w'.sessions
  pub others : let w' = out.1 in OthersKept game_id w.sessions w'.sessions
  pub same_rooms : let w' = out.1 in w'.rooms ≡ w.rooms

-- A phase change of a game that has a session in a valid store and is not finished never throws: the
-- advance, the resolution of a night or a vote, the finishing of a decided game and the log all go
-- through. The game's session is then in the next phase of the cycle, with a new turn at dawn and the
-- deadline of that phase, or is finished if the night or the vote that ended decided it. The mafia's
-- unprotected target or the winner of the vote has fallen, and nobody else. The change, what was
-- resolved and the end of a decided game are broadcast and put into the log, in this order. All
-- sessions are valid, and the other games and the rooms are kept.
pub change_phase-HasChanged :
    (env : Env) (game_id request_id : String) (requested_by : Option String) (now : ℕ) (w : World)
    (s : GameSession)
    → StoreValid w.sessions
    → find_by_game_id game_id w.sessions ≡ some s
    → phase_eq s.phase finished ≡ false
    → HasChanged env game_id request_id requested_by now s w
        (change_phase env game_id requested_by request_id now w)
unfolding change_phase
change_phase-HasChanged env game_id request_id requested_by now w s valid found running =
    let (own, v) = valid game_id s found in
    let t = turned env now s in
    let stepped : advance now s ≡ ok (advanced now s) = rw (advance_lem now s) (rw running) in
    let adv = advance_phase_found game_id now w.sessions s found env (advanced now s) stepped in
    let done = resolve-Settles env game_id now w w.sessions valid s v own running in
    let r = done.told in
    let f = done.session in
    let (res, found', valid', kept) = done.goes in
    let resolved = record w { sessions = done.sessions } in
    let rec = record_phase_change-eq game_id request_id requested_by t r resolved in
    let effects = phase_effects game_id requested_by t r now in
    let logs = history env game_id request_id requested_by now s r f w.logs in
    let same_logs : recorded_logs game_id request_id requested_by t r resolved ≡ logs =
      ap
        (λ o.
          record_if (finished_log game_id request_id r.winner o t)
            (resolved_logs game_id request_id requested_by t r w.logs))
        found'
      ∙ rw
          (
            finished_log-event_of game_id request_id t r.winner f,
            resolution_log-event_of game_id request_id t r.resolution_event,
          )
          refl in
    let whole : change_phase env game_id requested_by request_id now w
        ≡ (ok effects, record resolved { logs = logs }) =
      ap
        (λ x.
          continue
            (λ t. resolve env game_id t now >>= λ r.
              record_phase_change game_id request_id requested_by t r
              >> return (phase_effects game_id requested_by t r now))
            (put_sessions w x))
        adv
      ∙ ap
          (continue (λ r.
            record_phase_change game_id request_id requested_by t r
            >> return (phase_effects game_id requested_by t r now)))
          res
      ∙ ap (continue (λ _. return effects)) rec
      ∙ ap (λ l. (Result.ok effects, record resolved { logs = l })) same_logs in
    subst (HasChanged env game_id request_id requested_by now s w) (sym whole) (record {
      effects = effects;
      session = f;
      fallen = done.fallen;
      told = r;
      returned = refl;
      found = found';
      phase = done.ends.0;
      turn = done.ends.1;
      deadline = done.ends.2;
      falls = rw (← who_falls-turned env now s s.phase) done.falls;
      tells =
          done.tells
          ∙ told_of-turned env now s s.phase t.to_turn done.fallen (evaluate_winner f.players);
      announced = refl;
      logged = refl;
      valid = valid';
      others = kept;
      same_rooms = refl;
    })
