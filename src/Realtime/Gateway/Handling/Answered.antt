-- ===== src/Realtime/Gateway/Handling/Answered.antt =====
-- New requests in `handleCommand` of apps/api/src/realtime/realtime.gateway.ts: their answers and
-- their records.
use mafia_casefile.Prelude.{
  ℕ, ◌≡◌, refl, ap, sym, subst, String, true, false, none, some, List, [], ◌∷◌, ◌++◌, if_both,
  if_false, Bool-cases, inl, inr, arith,
}
use mafia_casefile.Commands.{
  GameCommandUser, GameCommandEnvelope, GameCommandResult, accepted, rejected, game_lock_busy,
}
use mafia_casefile.Commands.Reasons.{
  reason_name, normalize_command_reject_reason, normalize-reason_name,
}
use mafia_casefile.Commands.Echo.{request_id_of, handle_command-request_id}
use mafia_casefile.Realtime.Redis.{Redis}
use mafia_casefile.Realtime.Requests.{
  begin, complete, Ending, accepted_with, rejected_with, request_key,
}
use mafia_casefile.Realtime.Requests.Answers.{begin-acquired}
use mafia_casefile.Realtime.Locks.{GameCommandLock, Waited, got, busy, out_of_fuel, acquire}
use mafia_casefile.Realtime.Locks.Exclusion.{Sleeps, is_settled, acquire-is_settled}
use mafia_casefile.Realtime.Gateway.{Reply, Emission, to_socket, Client, Platform, Server}
use mafia_casefile.Realtime.Gateway.Effects.{emit, apply_effects}
use mafia_casefile.Realtime.Gateway.Handling.{
  Delivery, request_of, ending_of, respond, run_command, complete_request,
  execute_command_with_completion, release_lock, handle_waited, handle_command_with_idempotency,
  handle_begun, handle_parsed, busy_message,
}

-- The answer that a client is given for an ending.
abbrev pub reply_of : String → Ending → Reply
reply_of request_id (accepted_with received_type) = Reply.command_accepted request_id received_type
reply_of request_id (rejected_with reason message) = Reply.command_rejected (record {
  request_id = some request_id;
  reason = normalize_command_reject_reason reason;
  message = message;
})

-- The request was answered with this ending, as the last thing that was sent, and its record was
-- completed with it at this time.
pub record IsAnswered (p : Platform) (client : Client) (c : GameCommandEnvelope)
    (user : GameCommandUser) (ending : Ending) (at : ℕ) (s : Server p) : Type 0 where
  pub records : Redis.Store p.requests
  pub recorded :
      s.requests ≡ complete p.requests p.request_ttl (request_of c user) ending at records
  pub before : List Emission
  pub told : s.sent ≡ before ++ to_socket client.socket_id (reply_of c.request_id ending) ∷ []

module _ (p : Platform) (client : Client) (c : GameCommandEnvelope) (user : GameCommandUser)
    (d : Delivery p) where
  Told : Ending → Server p → Type 0
  Told ending s =
      (before : List Emission) × (s.sent
        ≡ before ++ to_socket client.socket_id (reply_of c.request_id ending) ∷ [])

  respond-Told :
      (r : GameCommandResult) (s : Server p)
      → request_id_of r ≡ c.request_id
      → Told (ending_of r) (respond p client r d.executed_at s)
  unfolding respond emit Told
  respond-Told (rejected request_id reason message) s e =
      (s.sent, rw (sym e, normalize-reason_name reason) refl)
  respond-Told (accepted request_id type effects) s e =
      ((apply_effects p client client.user d.executed_at effects [] s).sent, rw (sym e) refl)

  complete_request-IsAnswered :
      (ending : Ending) (s : Server p)
      → d.complete_fails ≡ false
      → Told ending s
      → IsAnswered p client c user ending d.completed_at (complete_request p c user ending d s)
  unfolding complete_request Told
  complete_request-IsAnswered ending s works (before, told) =
      rw works (record { records = s.requests; recorded = refl; before = before; told = told })

  -- The command ran, and was answered with its ending.
  unfoldable pub IsDone : Server p → Type 0
  IsDone s = (ending : Ending) × IsAnswered p client c user ending d.completed_at s

  execute-IsDone :
      (s : Server p)
      → d.complete_fails ≡ false
      → IsDone (execute_command_with_completion p client c user d s)
  unfolding execute_command_with_completion IsDone
  execute-IsDone s works =
      let out = run_command p c client.user d s in
      (
        ending_of out.0,
        complete_request-IsAnswered (ending_of out.0) _ works (
            respond-Told out.0 out.1 (
              handle_command-request_id c d.executed_at s.world p.env d.seats d.cards client.user)),
      )

  release_lock-IsDone :
      (lock : GameCommandLock) (s : Server p) → IsDone s → IsDone (release_lock p lock d s)
  unfolding release_lock IsDone
  release_lock-IsDone lock s (ending, done) = elim (Bool-cases d.release_fails) [
    | inl fails ↦ rw fails (ending, done)
    | inr works ↦ rw works (
      ending,
      record {
        records = done.records;
        recorded = done.recorded;
        before = done.before;
        told = done.told;
      },
    )
  ]

  handle_waited-IsDone :
      (waited : Waited) (s : Server p)
      → is_settled waited ≡ true
      → d.complete_fails ≡ false
      → IsDone (handle_waited p client c user d waited s)
  unfolding handle_waited Told emit IsDone normalize_command_reject_reason
  handle_waited-IsDone (got lock) s h works =
      release_lock-IsDone lock (execute_command_with_completion p client c user d s)
        (execute-IsDone s works)
  handle_waited-IsDone busy s h works = (
    rejected_with (reason_name game_lock_busy) (busy_message p),
    complete_request-IsAnswered _ _ works (s.sent, refl),
  )
  handle_waited-IsDone out_of_fuel s h works = absurd (ground arith)

  handle_command_with_idempotency-IsDone :
      (s : Server p)
      → Sleeps p.lock_settings d.clock
      → d.complete_fails ≡ false
      → IsDone (handle_command_with_idempotency p client c user d s)
  unfolding handle_command_with_idempotency
  handle_command_with_idempotency-IsDone s sleeps works =
      let out = acquire p.locks p.lock_settings d.clock d.tokens d.others c.game_id s.locks in
      let settles =
        acquire-is_settled p.locks p.lock_settings d.clock d.tokens sleeps d.others c.game_id
          s.locks in
      if_both IsDone d.acquire_fails _ _ (execute-IsDone s works)
        (handle_waited-IsDone out.0 (record s { locks = out.1 }) settles works)

  -- A request without a record, while Redis does not fail its record, is carried out and answered.
  pub handle_parsed-IsDone :
      (s : Server p)
      → Redis.get p.requests d.begun_at (request_key (request_of c user)) s.requests ≡ none
      → Sleeps p.lock_settings d.clock
      → d.begin_fails ≡ false
      → d.complete_fails ≡ false
      → IsDone (handle_parsed p client c (some user) d s)
  unfolding handle_parsed handle_begun
  handle_parsed-IsDone s fresh sleeps up works =
      let i = request_of c user in
      let begun = begin-acquired p.requests p.request_ttl i d.begun_at s.requests fresh in
      let ran =
        handle_command_with_idempotency-IsDone
          (record s { requests = (begin p.requests p.request_ttl i d.begun_at s.requests).1 })
          sleeps works in
      if_false IsDone d.begin_fails _ _ up (
        subst
          (λ b. IsDone (
            handle_begun p client c user d b
              (record s { requests = (begin p.requests p.request_ttl i d.begun_at s.requests).1 })))
          (sym (ap (λ r. r.0) begun)) ran)
