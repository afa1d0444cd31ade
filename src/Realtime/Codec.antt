-- ===== src/Realtime/Codec.antt =====
-- realtime.go: what an encoded or decoded event says.
use rho_llm.Base.{
  ◌≡◌, refl, ap, Text, text, text_eq, text_eq_iff, is_empty, true, false, Option, none, some, ◌⊎◌,
  inl, inr, arith, Bool-cases, if_case,
}
use rho_llm.Errors.{GoError}
use rho_llm.Realtime.{
  RealtimeEvent, Wire, wire_error, is_audio_delta, is_text_delta, is_bare, decoded, decode_wire,
  decode_realtime_event,
}

-- The events that a caller may get: with a type, with the provider's name of it and the message as
-- it was, and, where the type says that it is an error, with what went wrong.
pub record Readable (raw : Text) (w : Wire) (ev : RealtimeEvent) : Type 0 where
  pub typed : is_empty ev.event_type ≡ false
  pub explained : text_eq ev.event_type (text "error") ≡ true → is_empty ev.error_of ≡ false
  pub named : ev.provider_id ≡ w.type_name
  pub kept : ev.raw ≡ raw

wire_error_lem : (e : Option (Text × Text)) → is_empty (wire_error e) ≡ false
wire_error_lem none = refl
wire_error_lem (some (message, kind)) = ground arith

-- What DecodeRealtimeEvent makes of a message: an error if it does not parse or has no type, else a
-- readable event.
unfoldable pub Decodes : (Text → Wire ⊎ GoError) → Text → RealtimeEvent ⊎ GoError → Type 0
Decodes unmarshal raw (inr e) = (w : Wire) → unmarshal raw ≡ inl w → is_empty w.type_name ≡ true
Decodes unmarshal raw (inl ev) =
    (w : Wire) × ((unmarshal raw ≡ inl w) × ((is_empty w.type_name ≡ false) × Readable raw w ev))

error_not_bare : is_bare (text "error") ≡ false
unfolding is_bare text_eq
error_not_bare = refl

audio_not_error : text_eq (text "response.audio.delta") (text "error") ≡ false
unfolding text_eq
audio_not_error = refl

text_not_error : text_eq (text "response.text.delta") (text "error") ≡ false
unfolding text_eq
text_not_error = refl

bare_not_error : (t : Text) → text_eq t (text "error") ≡ true → is_bare t ≡ true → ⊥
bare_not_error t e b =
    ground (arith, error_not_bare, ap is_bare ((text_eq_iff t (text "error")).0 e))

decoded-Readable :
    (raw : Text) (w : Wire) (ev : RealtimeEvent)
    → is_empty w.type_name ≡ false
    → ev.provider_id ≡ w.type_name
    → ev.raw ≡ raw
    → Readable raw w (decoded w ev)
unfolding decoded
decoded-Readable raw w ev t n k = elim (Bool-cases (is_bare w.type_name)) [
  | inl b ↦ rw b (record {
    typed = t;
    explained = λ e. absurd (bare_not_error w.type_name e b);
    named = n;
    kept = k;
  })
  | inr b ↦ rw b (
      if_case (Readable raw w) (is_audio_delta w.type_name)
        (record { typed = refl; explained = λ e. cc audio_not_error; named = n; kept = k })
        (if_case (Readable raw w) (is_text_delta w.type_name)
          (record { typed = refl; explained = λ e. cc text_not_error; named = n; kept = k })
          (elim (Bool-cases (text_eq w.type_name (text "error"))) [
            | inl e ↦ rw e (record {
              typed = refl;
              explained = λ _. wire_error_lem w.error;
              named = n;
              kept = k;
            })
            | inr e ↦ rw e (record { typed = t; explained = λ f. cc; named = n; kept = k })
          ])))
]

-- Whatever message comes, DecodeRealtimeEvent returns an error exactly if the message does not parse
-- or has no type. Otherwise its event has a type and the provider's own name and bytes, and an event
-- of type "error" says what went wrong.
pub decode_realtime_event-Decodes :
    (unmarshal : Text → Wire ⊎ GoError) (raw : Text)
    → Decodes unmarshal raw (decode_realtime_event unmarshal raw)
unfolding decode_realtime_event Decodes decode_wire
decode_realtime_event-Decodes unmarshal raw = go (unmarshal raw) refl
  where
    go : (r : Wire ⊎ GoError) → unmarshal raw ≡ r → Decodes unmarshal raw (decode_wire raw r)
    go (inr e) p = λ w q. cc (p, q)
    go (inl w) p = elim (Bool-cases (is_empty w.type_name)) [
      | inl e ↦ rw e (λ v q. cc (p, q, e))
      | inr e ↦ rw e (w, (p, (e, decoded-Readable raw w _ e refl refl)))
    ]
