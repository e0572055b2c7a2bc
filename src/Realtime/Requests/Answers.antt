-- ===== src/Realtime/Requests/Answers.antt =====
-- Repeated calls of apps/api/src/realtime/request-idempotency.service.ts.
use mafia_casefile.Prelude.{
  ℕ, ◌+◌, ◌≤◌, ◌<◌, ◌≡◌, refl, ap, ◌∙◌, String, true, false, Option, none, some, ltb, eq_self,
  if◌then◌else◌, arith,
}
use mafia_casefile.Realtime.Redis.{Redis}
use mafia_casefile.Realtime.Requests.{
  RequestIdempotencyRecord, RequestInput, acquired, duplicate_processing, duplicate_completed,
  request_key, request_ttl, begun_record, duplicate, Ending, accepted_with, rejected_with,
  created_at_of, completed_record, begin, complete,
}

module _ (redis : Redis RequestIdempotencyRecord) (raw_ttl : Option ℕ) where
  open redis use {Store, get, set, set_nx, get-set, set_nx-eq}

  -- A request without a record begins: the record is there until it expires.
  pub begin-acquired :
      (i : RequestInput) (now : ℕ) (s : Store)
      → get now (request_key i) s ≡ none
      → begin redis raw_ttl i now s ≡ (
        acquired (begun_record i now),
        set now (request_key i) (begun_record i now) (request_ttl raw_ttl) s,
      )
  unfolding begin
  begin-acquired i now s free =
      let ttl = request_ttl raw_ttl in
      let record_now = begun_record i now in
      let took : set_nx now (request_key i) record_now ttl s
          ≡ (true, set now (request_key i) record_now ttl s) =
        set_nx-eq now (request_key i) record_now ttl s ∙ rw free refl in
      ap
        (λ r. (
          if r.0 then acquired record_now else duplicate (get now (request_key i) r.1) record_now,
          r.1,
        ))
        took

  pub begin-duplicate :
      (i : RequestInput) (now : ℕ) (s : Store) (r : RequestIdempotencyRecord)
      → get now (request_key i) s ≡ some r
      → begin redis raw_ttl i now s ≡ (duplicate (some r) (begun_record i now), s)
  unfolding begin
  begin-duplicate i now s r taken =
      let ttl = request_ttl raw_ttl in
      let record_now = begun_record i now in
      let refused : set_nx now (request_key i) record_now ttl s ≡ (false, s) =
        set_nx-eq now (request_key i) record_now ttl s ∙ rw taken refl in
      ap
        (λ r. (
          if r.0 then acquired record_now else duplicate (get now (request_key i) r.1) record_now,
          r.1,
        ))
        refused
      ∙ ap (λ o. (duplicate o record_now, s)) taken

  -- What was set is found until it expires.
  pub get-set_own :
      (k : String) (v : RequestIdempotencyRecord) (ttl now at : ℕ) (s : Store)
      → now ≤ at
      → at < now + ttl
      → get at k (set now k v ttl s) ≡ some v
  get-set_own k v ttl now at s h lt =
      let before : ltb at (now + ttl) ≡ true = ground arith in
      get-set now at k k v ttl s h ∙ rw (eq_self k, before) refl

  -- A request without a record, delivered again before the record expires and before it is completed,
  -- is told that it is being processed, and the record stays as it is.
  pub begin-begin :
      (i : RequestInput) (now at : ℕ) (s : Store)
      → get now (request_key i) s ≡ none
      → now ≤ at
      → at < now + request_ttl raw_ttl
      → begin redis raw_ttl i at ((begin redis raw_ttl i now s).1)
        ≡ (duplicate_processing (begun_record i now), (begin redis raw_ttl i now s).1)
  begin-begin i now at s free h lt =
      let first = begin-acquired i now s free in
      let s' = set now (request_key i) (begun_record i now) (request_ttl raw_ttl) s in
      rw first (
        begin-duplicate i at s' (begun_record i now)
          (get-set_own (request_key i) (begun_record i now) (request_ttl raw_ttl) now at s h lt))

  -- A request that was completed, delivered again before its record expires, is answered with the
  -- ending that was recorded, and the record stays as it is.
  pub begin-complete :
      (i : RequestInput) (ending : Ending) (now at : ℕ) (s : Store)
      → now ≤ at
      → at < now + request_ttl raw_ttl
      → begin redis raw_ttl i at (complete redis raw_ttl i ending now s) ≡ (
        duplicate_completed
            (completed_record i ending (created_at_of (get now (request_key i) s) now) now),
        complete redis raw_ttl i ending now s,
      )
  unfolding complete
  begin-complete i (accepted_with received) now at s h lt =
      begin-duplicate i at _ _ (get-set_own (request_key i) _ (request_ttl raw_ttl) now at s h lt)
  begin-complete i (rejected_with reason message) now at s h lt =
      begin-duplicate i at _ _ (get-set_own (request_key i) _ (request_ttl raw_ttl) now at s h lt)
