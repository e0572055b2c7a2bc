-- ===== src/Realtime/Envelope/Exact.antt =====
-- The messages that apps/api/src/realtime/command-envelope.ts takes for commands.
use mafia_casefile.Prelude.{
  ◌≡◌, refl, ap, sym, subst, ◌∙◌, ◌↔◌, String, true, Option, none, some, Bool-cases, inl, inr,
  arith,
}
use mafia_casefile.Rooms.{is_non_empty_string}
use mafia_casefile.Commands.{GameCommandEnvelope, Field, text, flag, other, Payload}
use mafia_casefile.Realtime.Envelope.{
  Body, no_object, with_fields, CommandRejectedEvent, ParsedEnvelope, envelope, refusal,
  non_empty_text, envelope_of, parse_command_envelope,
}

-- The message that a client sends for a command.
abbrev pub body_of : GameCommandEnvelope → Body
body_of c = with_fields (record {
  type = some (text c.type);
  request_id = some (text c.request_id);
  game_id = some (text c.game_id);
  payload = some c.payload;
})

-- The command's type and ids have more than spaces in them.
abbrev pub IsNamed : GameCommandEnvelope → Type 0
IsNamed c =
    (is_non_empty_string c.type ≡ true)
    × (is_non_empty_string c.request_id ≡ true)
    × (is_non_empty_string c.game_id ≡ true)

parse_command_envelope-body_of :
    (c : GameCommandEnvelope) → IsNamed c → parse_command_envelope (body_of c) ≡ envelope c
unfolding parse_command_envelope
parse_command_envelope-body_of c (t, r, g) = rw (t, r, g) refl

non_empty_text-some :
    (f : Option Field) (value : String)
    → non_empty_text f ≡ some value
    → (f ≡ some (text value)) × (is_non_empty_string value ≡ true)
non_empty_text-some (some (text t)) value h = elim (Bool-cases (is_non_empty_string t)) [
  | inl named ↦
      let same : t ≡ value = ground arith in (ap (λ v. some (text v)) same, rw (sym same) named)
  | inr blank ↦ absurd (ground arith)
]
non_empty_text-some (some (flag b)) value h = absurd (ground arith)
non_empty_text-some (some other) value h = absurd (ground arith)
non_empty_text-some none value h = absurd (ground arith)

-- What an envelope was made of.
abbrev Parts :
    GameCommandEnvelope → Option String → Option String → Option String → Option Payload → Type 0
Parts c type request_id game_id payload =
    (type ≡ some c.type)
    × (request_id ≡ some c.request_id)
    × (game_id ≡ some c.game_id)
    × (payload ≡ some c.payload)

abbrev PartsOf :
    ParsedEnvelope → Option String → Option String → Option String → Option Payload → Type 0
PartsOf (envelope c) t r g p = Parts c t r g p
PartsOf (refusal bad) t r g p = Unit

envelope_of-PartsOf :
    (t r g : Option String) (p : Option Payload) (bad : CommandRejectedEvent)
    → PartsOf (envelope_of t r g p bad) t r g p
envelope_of-PartsOf (some t) (some r) (some g) (some p) bad = (refl, refl, refl, refl)
envelope_of-PartsOf (some t) (some r) (some g) none bad = tt
envelope_of-PartsOf (some t) (some r) none p bad = tt
envelope_of-PartsOf (some t) none g p bad = tt
envelope_of-PartsOf none r g p bad = tt

parse_command_envelope-IsNamed :
    (b : Body) (c : GameCommandEnvelope)
    → parse_command_envelope b ≡ envelope c
    → (b ≡ body_of c) × IsNamed c
unfolding parse_command_envelope
parse_command_envelope-IsNamed no_object c h = absurd (ground arith)
parse_command_envelope-IsNamed (with_fields b) c h =
    let (t, r, g, p) =
      subst
        (λ e.
          PartsOf e (non_empty_text b.type) (non_empty_text b.request_id) (non_empty_text b.game_id)
            b.payload)
        h
        (envelope_of-PartsOf (non_empty_text b.type) (non_empty_text b.request_id)
          (non_empty_text b.game_id) b.payload _) in
    let (type, named_type) = non_empty_text-some b.type c.type t in
    let (request_id, named_request) = non_empty_text-some b.request_id c.request_id r in
    let (game_id, named_game) = non_empty_text-some b.game_id c.game_id g in
    (
      λ i.
          with_fields (record {
            type = type i;
            request_id = request_id i;
            game_id = game_id i;
            payload = p i;
          }),
      (named_type, named_request, named_game),
    )

-- A message is taken for a command exactly when it is that command's own message, and its type,
-- request id and game id are not blank.
pub parse_command_envelope-exact :
    (b : Body) (c : GameCommandEnvelope)
    → (parse_command_envelope b ≡ envelope c) ↔ ((b ≡ body_of c) × IsNamed c)
parse_command_envelope-exact b c = (
  parse_command_envelope-IsNamed b c,
  λ h. ap parse_command_envelope h.0 ∙ parse_command_envelope-body_of c h.1,
)
