-- ===== src/Realtime/Gateway/Handling/Unlocks.antt =====
-- The lock of a command in `handleCommandWithIdempotency` of
-- apps/api/src/realtime/realtime.gateway.ts.
use mafia_casefile.Prelude.{
  ℕ, ◌+◌, ◌≤◌, ◌<◌, ◌≡◌, refl, ap, sym, subst, ◌∙◌, false, none, [], if_both, if_false,
}
use mafia_casefile.Commands.{
  GameCommandUser, GameCommandEnvelope, GameCommandResult, accepted, rejected,
}
use mafia_casefile.Realtime.Redis.{Redis}
use mafia_casefile.Realtime.Requests.{Ending}
use mafia_casefile.Realtime.Locks.{lock_key, ttl_ms, release}
use mafia_casefile.Realtime.Locks.Free.{first_lock, taken_store, acquire-free, release-free}
use mafia_casefile.Realtime.Gateway.{Client, Platform, Server}
use mafia_casefile.Realtime.Gateway.Effects.{emit}
use mafia_casefile.Realtime.Gateway.Effects.Untouched.{Untouched, apply_effects-Untouched}
use mafia_casefile.Realtime.Gateway.Handling.{
  Delivery, respond, run_command, complete_request, execute_command_with_completion, release_lock,
  handle_waited, handle_command_with_idempotency, ending_of,
}

module _ (p : Platform) (client : Client) (c : GameCommandEnvelope) (user : GameCommandUser)
    (d : Delivery p) where
  respond-locks :
      (r : GameCommandResult) (now : ℕ) (s : Server p) → (respond p client r now s).locks ≡ s.locks
  unfolding respond emit
  respond-locks (rejected request_id reason message) now s = refl
  respond-locks (accepted request_id type effects) now s =
      Untouched.locks_kept (apply_effects-Untouched p client client.user now effects [] s)

  complete_request-locks :
      (ending : Ending) (s : Server p) → (complete_request p c user ending d s).locks ≡ s.locks
  unfolding complete_request
  complete_request-locks ending s =
      if_both {A = Server p} (λ t. t.locks ≡ s.locks) d.complete_fails _ _ refl refl

  execute-locks :
      (s : Server p) → (execute_command_with_completion p client c user d s).locks ≡ s.locks
  unfolding execute_command_with_completion
  execute-locks s =
      let out = run_command p c client.user d s in
      complete_request-locks (ending_of out.0) (respond p client out.0 d.executed_at out.1)
      ∙ respond-locks out.0 d.executed_at out.1

  -- A command that finds the lock of its game free leaves it free, whether it is accepted or rejected,
  -- provided Redis does not fail the lock and the lock is released before it expires.
  pub handle_command_with_idempotency-lock_free :
      (s : Server p) (at : ℕ)
      → Redis.get p.locks (d.clock 0) (lock_key c.game_id) s.locks ≡ none
      → d.acquire_fails ≡ false
      → d.release_fails ≡ false
      → d.clock 0 ≤ d.released_at
      → d.released_at < d.clock 0 + ttl_ms p.lock_settings
      → Redis.get p.locks at
          (lock_key c.game_id)
          (handle_command_with_idempotency p client c user d s).locks
        ≡ none
  unfolding handle_command_with_idempotency handle_waited release_lock
  handle_command_with_idempotency-lock_free s at free up works le lt =
      let Free : Server p → Type 0 =
        λ t. Redis.get p.locks at (lock_key c.game_id) t.locks ≡ none in
      let had =
        acquire-free p.locks p.lock_settings d.clock d.tokens d.others c.game_id s.locks free in
      let locks = taken_store p.locks p.lock_settings d.clock d.tokens d.others c.game_id s.locks in
      let own = first_lock p.locks p.lock_settings d.clock d.tokens d.others c.game_id s.locks in
      if_false Free d.acquire_fails _ _ up (
        subst (λ r. Free (handle_waited p client c user d r.0 (record s { locks = r.1 }))) (sym had)
          (if_false Free d.release_fails _ _ works (
            ap
              (λ l.
                Redis.get p.locks at (lock_key c.game_id) ((release p.locks own d.released_at l).1))
              (execute-locks (record s { locks = locks }))
            ∙ release-free p.locks p.lock_settings d.clock d.tokens d.others c.game_id s.locks
                d.released_at at le lt)))
