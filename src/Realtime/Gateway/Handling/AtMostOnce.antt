-- ===== src/Realtime/Gateway/Handling/AtMostOnce.antt =====
-- Requests that come again to `handleCommand` of apps/api/src/realtime/realtime.gateway.ts.
use mafia_casefile.Prelude.{
  ℕ, ◌+◌, ◌≤◌, ◌<◌, ◌≡◌, refl, ap, sym, ◌∙◌, false, none, some, List, [], ◌∷◌, ◌++◌, if_false,
}
use mafia_casefile.Commands.{GameCommandUser, GameCommandEnvelope, duplicate_request_in_progress}
use mafia_casefile.Realtime.Redis.{Redis}
use mafia_casefile.Realtime.Requests.{
  duplicate_processing, duplicate_completed, begin, complete, Ending, accepted_with, rejected_with,
  request_key, request_ttl, begun_record, created_at_of, completed_record,
}
use mafia_casefile.Realtime.Requests.Answers.{begin-begin, begin-complete}
use mafia_casefile.Realtime.Locks.Exclusion.{Sleeps}
use mafia_casefile.Realtime.Envelope.{Body, envelope, refusal, parse_command_envelope}
use mafia_casefile.Realtime.Gateway.{Reply, Emission, to_socket, Client, Platform, Server}
use mafia_casefile.Realtime.Gateway.Effects.{emit, emit_room_rejected}
use mafia_casefile.Realtime.Gateway.Handling.{
  Delivery, request_of, emit_completed_request, handle_begun, handle_parsed, handle_message,
}
use mafia_casefile.Realtime.Gateway.Handling.Answered.{reply_of, IsDone, handle_parsed-IsDone}

-- A request whose record was completed is answered from the record, and nothing else happens.
module _ (p : Platform) (client : Client) (c : GameCommandEnvelope) (user : GameCommandUser)
    (d : Delivery p) where
  emit_completed_request-reply :
      (ending : Ending) (created at : ℕ) (s : Server p)
      → emit_completed_request p client
          (completed_record (request_of c user) ending created at)
          c.type
          s
        ≡ emit p (to_socket client.socket_id (reply_of c.request_id ending)) s
  unfolding emit_completed_request
  emit_completed_request-reply (accepted_with received_type) created at s = refl
  emit_completed_request-reply (rejected_with reason message) created at s = refl

  handle_parsed-completed :
      (ending : Ending) (at : ℕ) (records : Redis.Store p.requests) (s : Server p)
      → s.requests ≡ complete p.requests p.request_ttl (request_of c user) ending at records
      → at ≤ d.begun_at
      → d.begun_at < at + request_ttl p.request_ttl
      → d.begin_fails ≡ false
      → handle_parsed p client c (some user) d s
        ≡ emit p (to_socket client.socket_id (reply_of c.request_id ending)) s
  unfolding handle_parsed handle_begun
  handle_parsed-completed ending at records s e le lt up =
      let i = request_of c user in
      let found = begin-complete p.requests p.request_ttl i ending at d.begun_at records le lt in
      let requests : (begin p.requests p.request_ttl i d.begun_at s.requests) ≡ (
        duplicate_completed (
            completed_record i ending
              (created_at_of (Redis.get p.requests at (request_key i) records) at) at),
        s.requests,
      ) =
        ap (begin p.requests p.request_ttl i d.begun_at) e
        ∙ found
        ∙ ap
            (λ r. (
              duplicate_completed (
                  completed_record i ending
                    (created_at_of (Redis.get p.requests at (request_key i) records) at) at),
              r,
            ))
            (sym e) in
      if_false (λ r. r ≡ emit p (to_socket client.socket_id (reply_of c.request_id ending)) s)
        d.begin_fails _ _ up
        (ap (λ r. handle_begun p client c user d r.0 (record s { requests = r.1 })) requests
          ∙ emit_completed_request-reply ending _ at s)

  -- A request that is still being worked on, delivered before its record expires, is refused, and
  -- nothing else happens: the sockets, the stores and the game stay as they are.
  pub handle_parsed-in_progress :
      (now : ℕ) (records : Redis.Store p.requests) (s : Server p)
      → Redis.get p.requests now (request_key (request_of c user)) records ≡ none
      → s.requests ≡ (begin p.requests p.request_ttl (request_of c user) now records).1
      → now ≤ d.begun_at
      → d.begun_at < now + request_ttl p.request_ttl
      → d.begin_fails ≡ false
      → handle_parsed p client c (some user) d s
        ≡ emit_room_rejected p client c.request_id duplicate_request_in_progress
            "Duplicate request is already processing." s
  unfolding handle_parsed handle_begun
  handle_parsed-in_progress now records s fresh e le lt up =
      let i = request_of c user in
      let own = begun_record i now in
      let again : (begin p.requests p.request_ttl i d.begun_at s.requests)
          ≡ (duplicate_processing own, s.requests) =
        ap (begin p.requests p.request_ttl i d.begun_at) e
        ∙ begin-begin p.requests p.request_ttl i now d.begun_at records fresh le lt
        ∙ ap (λ r. (duplicate_processing own, r)) (sym e) in
      if_false
        (λ r.
          r
          ≡ emit_room_rejected p client c.request_id duplicate_request_in_progress
              "Duplicate request is already processing." s)
        d.begin_fails _ _ up
        (ap (λ r. handle_begun p client c user d r.0 (record s { requests = r.1 })) again)

handle_message-parsed :
    (p : Platform) (client : Client) (body : Body) (c : GameCommandEnvelope)
    (user : GameCommandUser) (d : Delivery p) (s : Server p)
    → parse_command_envelope body ≡ envelope c
    → client.user ≡ some user
    → handle_message p client body d s ≡ handle_parsed p client c (some user) d s
unfolding handle_message
handle_message-parsed p client body c user d s parses known =
    ap
      (λ e. elim e [
        | refusal event ↦ emit p (to_socket client.socket_id (Reply.command_rejected event)) s
        | envelope c ↦ handle_parsed p client c client.user d s
      ])
      parses
    ∙ ap (λ u. handle_parsed p client c u d s) known

-- A new request that is delivered twice, the second time after it was answered and before its record
-- expires, on the same socket or another one of the same user, while Redis does not fail its record:
-- the first delivery ends with an answer, and the second does nothing but give the same answer. The
-- game, the events that were sent, and every store are as after the first.
pub handle_message-at_most_once :
    (p : Platform) (first second : Client) (user : GameCommandUser) (body : Body)
    (c : GameCommandEnvelope) (d d' : Delivery p) (s : Server p)
    → parse_command_envelope body ≡ envelope c
    → first.user ≡ some user
    → second.user ≡ some user
    → Redis.get p.requests d.begun_at (request_key (request_of c user)) s.requests ≡ none
    → Sleeps p.lock_settings d.clock
    → d.begin_fails ≡ false
    → d.complete_fails ≡ false
    → d'.begin_fails ≡ false
    → d.completed_at ≤ d'.begun_at
    → d'.begun_at < d.completed_at + request_ttl p.request_ttl
    → (let once = handle_message p first body d s in
        (before : List Emission) × (reply : Reply) × (once.sent
          ≡ before ++ to_socket first.socket_id reply ∷ [])
        × (handle_message p second body d' once ≡ emit p (to_socket second.socket_id reply) once))
unfolding IsDone
handle_message-at_most_once p first second user body c d d' s parses known known' fresh sleeps up
      works up' le lt =
    let (ending, done) = handle_parsed-IsDone p first c user d s fresh sleeps up works in
    let at_once = handle_message-parsed p first body c user d s parses known in
    let once = handle_message p first body d s in
    (
      done.before,
      reply_of c.request_id ending,
      ap (λ t. t.sent) at_once ∙ done.told,
      handle_message-parsed p second body c user d' once parses known'
          ∙ handle_parsed-completed p second c user d' ending d.completed_at done.records once
              (ap (λ t. t.requests) at_once ∙ done.recorded) le lt up',
    )
