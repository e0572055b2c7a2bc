-- ===== src/Realtime/Gateway/Guards/Messages.antt =====
-- A message of apps/api/src/realtime/realtime.gateway.ts, up to the guards of its command.
use mafia_casefile.Prelude.{
  ℕ, sym, subst, Bool, Option, none, some, [], if◌then◌else◌, if_both, if_true, if_false, ◌≡◌, ◌∙◌,
  ◌⊎◌, inl, inr, refl, ap, true, Bool-cases, Option-cases, arith,
}
use mafia_casefile.World.{World}
use mafia_casefile.Commands.Dispatch.{handle_command}
use mafia_casefile.Realtime.Gateway.Guards.{
  GetsLock, IsAdmitted, anonymous, unrecorded, fresh, IsGuarded, stays, commanded,
}
use mafia_casefile.Commands.{
  GameCommandUser, GameCommandEnvelope, GameCommandResult, accepted, rejected, game_lock_busy,
}
use mafia_casefile.Commands.Reasons.{reason_name}
use mafia_casefile.Commands.Reachable.{commanded}
use mafia_casefile.Realtime.Redis.{Redis}
use mafia_casefile.Realtime.Requests.Answers.{begin-duplicate}
use mafia_casefile.Realtime.Requests.{
  RequestInput, RequestIdempotencyStatus, request_key, duplicate, begun_record,
  RequestIdempotencyBeginResult, duplicate_processing, duplicate_completed, acquired, begin, Ending,
  rejected_with, RequestIdempotencyRecord,
}
use mafia_casefile.Realtime.Locks.{GameCommandLock, Waited, got, busy, out_of_fuel, acquire}
use mafia_casefile.Realtime.Envelope.{
  Body, ParsedEnvelope, envelope, refusal, parse_command_envelope,
}
use mafia_casefile.Realtime.Gateway.{Reply, Client, Platform, Server, to_socket}
use mafia_casefile.Realtime.Gateway.Effects.{emit}
use mafia_casefile.Realtime.Gateway.Effects.Untouched.{Untouched, apply_effects-Untouched}
use mafia_casefile.Realtime.Gateway.Handling.{
  Delivery, respond, run_command, handle_command_without_idempotency, complete_request,
  execute_command_with_completion, release_lock, handle_waited, handle_command_with_idempotency,
  emit_completed_request, handle_begun, handle_parsed, handle_message, busy_message, request_of,
  ending_of,
}

-- What holds of the world when a message comes in, and of the world after its command if that may be
-- carried out, holds afterwards.
module _ (p : Platform) (P : World → Type 0) where
  pub if-kept :
      (b : Bool) (x y : Server p) → P x.world → P y.world → P (Server.world (if b then x else y))
  if-kept b x y hx hy = if_both (λ s. P (Server.world s)) b x y hx hy

  pub Untouched-kept : (s s' : Server p) → Untouched p s s' → P s.world → P s'.world
  Untouched-kept s s' h r = subst P (sym h.world_kept) r

  respond-kept :
      (client : Client) (r : GameCommandResult) (now : ℕ) (s : Server p)
      → P s.world
      → P (Server.world (respond p client r now s))
  unfolding respond emit
  respond-kept client (rejected request_id reason message) now s h = h
  respond-kept client (accepted request_id type effects) now s h =
      Untouched-kept s _ (apply_effects-Untouched p client client.user now effects [] s) h

  complete_request-kept :
      (c : GameCommandEnvelope) (user : GameCommandUser) (ending : Ending) (d : Delivery p)
      (s : Server p)
      → P s.world
      → P (Server.world (complete_request p c user ending d s))
  unfolding complete_request
  complete_request-kept c user ending d s h = if-kept d.complete_fails s _ h h

  without-kept :
      (client : Client) (c : GameCommandEnvelope) (d : Delivery p) (s : Server p)
      → P ((handle_command p.env d.seats d.cards c client.user d.executed_at s.world).1)
      → P (Server.world (handle_command_without_idempotency p client c d s))
  unfolding handle_command_without_idempotency
  without-kept client c d s h =
      let out = run_command p c client.user d s in respond-kept client out.0 d.executed_at out.1 h

  execute-kept :
      (client : Client) (c : GameCommandEnvelope) (user : GameCommandUser) (d : Delivery p)
      (s : Server p)
      → P ((handle_command p.env d.seats d.cards c client.user d.executed_at s.world).1)
      → P (Server.world (execute_command_with_completion p client c user d s))
  unfolding execute_command_with_completion
  execute-kept client c user d s h =
      let out = run_command p c client.user d s in
      complete_request-kept c user (ending_of out.0) d _
        (respond-kept client out.0 d.executed_at out.1 h)

  -- After the wait, the command is only carried out with the lock.
  handle_waited-kept :
      (client : Client) (c : GameCommandEnvelope) (user : GameCommandUser) (d : Delivery p)
      (waited : Waited) (s : Server p)
      → P s.world
      → ((lock : GameCommandLock)
          → waited ≡ got lock
          → P ((handle_command p.env d.seats d.cards c client.user d.executed_at s.world).1))
      → P (Server.world (handle_waited p client c user d waited s))
  unfolding handle_waited release_lock emit
  handle_waited-kept client c user d (got lock) s h run =
      let ran = execute-kept client c user d s (run lock refl) in
      if-kept d.release_fails _ _ ran ran
  handle_waited-kept client c user d busy s h run =
      complete_request-kept c user (rejected_with (reason_name game_lock_busy) (busy_message p)) d _
        h
  handle_waited-kept client c user d out_of_fuel s h run = h

module _ (p : Platform) where
  -- The request has no record if it begins.
  begun_fresh :
      (i : RequestInput) (now : ℕ) (requests : Redis.Store p.requests)
      (own : RequestIdempotencyRecord)
      → (begin p.requests p.request_ttl i now requests).0 ≡ acquired own
      → Redis.get p.requests now (request_key i) requests ≡ none
  begun_fresh i now requests own e =
      elim (Option-cases (Redis.get p.requests now (request_key i) requests)) [
        | inl free ↦ free
        | inr (r, taken) ↦
            let answer = begin-duplicate p.requests p.request_ttl i now requests r taken in
            absurd (not_acquired r.status r (sym (ap (λ x. x.0) answer) ∙ e))
      ]
    where
      not_acquired :
          (status : RequestIdempotencyStatus) (r : RequestIdempotencyRecord)
          → duplicate (some r) (begun_record i now) ≡ acquired own
          → ⊥
      not_acquired status r h = ground arith

  locked_command :
      (client : Client) (c : GameCommandEnvelope) (user : GameCommandUser) (d : Delivery p)
      (s : Server p) (requests : Redis.Store p.requests)
      → client.user ≡ some user
      → Redis.get p.requests d.begun_at (request_key (request_of c user)) s.requests ≡ none
      → IsGuarded p s (
          Server.world
            (handle_command_with_idempotency p client c user d (record s { requests = requests })))
  unfolding handle_command_with_idempotency
  locked_command client c user d s requests signed_in free =
      let s₁ = record s { requests = requests } in
      let out = acquire p.locks p.lock_settings d.clock d.tokens d.others c.game_id s.locks in
      let admitted : (d.acquire_fails ≡ true) ⊎ GetsLock p s d.clock d.tokens d.others c.game_id
          → IsAdmitted p s c d client.user =
        λ lock. subst (IsAdmitted p s c d) (sym signed_in) (fresh user free lock) in
      elim (Bool-cases d.acquire_fails) [
        | inl fails ↦
            if_true (λ (x : Server p). IsGuarded p s (Server.world x)) d.acquire_fails _ _ fails
              (execute-kept p (IsGuarded p s) client c user d s₁
                (commanded c client.user d (admitted (inl fails))))
        | inr works ↦
            if_false (λ (x : Server p). IsGuarded p s (Server.world x)) d.acquire_fails _ _ works
              (handle_waited-kept p (IsGuarded p s) client c user d out.0
                (record s₁ { locks = out.1 }) stays
                (λ lock had. commanded c client.user d (admitted (inr (lock, had)))))
      ]

  begun_command :
      (client : Client) (c : GameCommandEnvelope) (user : GameCommandUser) (d : Delivery p)
      (s : Server p) (requests : Redis.Store p.requests) (begun : RequestIdempotencyBeginResult)
      → client.user ≡ some user
      → (begin p.requests p.request_ttl (request_of c user) d.begun_at s.requests).0 ≡ begun
      → IsGuarded p s
          (Server.world (handle_begun p client c user d begun (record s { requests = requests })))
  unfolding handle_begun emit_completed_request emit
  begun_command client c user d s requests (duplicate_processing own) signed_in e = stays
  begun_command client c user d s requests (duplicate_completed done) signed_in e = stays
  begun_command client c user d s requests (acquired own) signed_in e =
      locked_command client c user d s requests signed_in
        (begun_fresh (request_of c user) d.begun_at s.requests own e)

  handle_parsed-IsGuarded :
      (client : Client) (c : GameCommandEnvelope) (user : Option GameCommandUser) (d : Delivery p)
      (s : Server p)
      → client.user ≡ user
      → IsGuarded p s (Server.world (handle_parsed p client c user d s))
  unfolding handle_parsed
  handle_parsed-IsGuarded client c none d s e =
      without-kept p (IsGuarded p s) client c d s
        (commanded c client.user d (subst (IsAdmitted p s c d) (sym e) anonymous))
  handle_parsed-IsGuarded client c (some user) d s e =
      let out = begin p.requests p.request_ttl (request_of c user) d.begun_at s.requests in
      elim (Bool-cases d.begin_fails) [
        | inl fails ↦
            if_true (λ (x : Server p). IsGuarded p s (Server.world x)) d.begin_fails _ _ fails
              (without-kept p (IsGuarded p s) client c d s (
                commanded c client.user d
                  (subst (IsAdmitted p s c d) (sym e) (unrecorded user fails))))
        | inr works ↦
            if_false (λ (x : Server p). IsGuarded p s (Server.world x)) d.begin_fails _ _ works
              (begun_command client c user d s out.1 out.0 e refl)
      ]

  pub handle_message-IsGuarded :
      (client : Client) (body : Body) (d : Delivery p) (s : Server p)
      → IsGuarded p s (Server.world (handle_message p client body d s))
  unfolding handle_message emit
  handle_message-IsGuarded client body d s = parsed_as (parse_command_envelope body)
    where
      parsed_as :
          (e : ParsedEnvelope)
          → IsGuarded p s (
              Server.world (elim e [
                | refusal event ↦
                    emit p (to_socket client.socket_id (Reply.command_rejected event)) s
                | envelope c ↦ handle_parsed p client c client.user d s
              ]))
      parsed_as (refusal event) = stays
      parsed_as (envelope c) = handle_parsed-IsGuarded client c client.user d s refl
