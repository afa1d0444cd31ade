-- ===== src/Realtime.antt =====
-- realtime.go: the event codec, and a session that several goroutines use at once. An event's type
-- is its string. json.Marshal is given an object as its entries; json.Unmarshal is a parameter.
pub mod Session
pub mod Closing
pub mod Codec
use rho_llm.Base.{
  Text, text, text_eq, is_empty, Bool, true, false, ◌||◌, Option, none, some, List, [], ◌∷◌, ◌++◌,
  if◌then◌else◌, ◌⊎◌, inl, inr,
}
use rho_llm.Errors.{GoError, plain, wrapped}

pub record RealtimeEvent : Type 0 where
  pub event_type : Text
  pub event_id : Text
  pub text_of : Text
  pub audio_b64 : Text
  pub error_of : Text
  pub raw : Text
  pub provider_id : Text

abbrev pub no_event : RealtimeEvent
no_event = record {
  event_type = [];
  event_id = [];
  text_of = [];
  audio_b64 = [];
  error_of = [];
  raw = [];
  provider_id = [];
}

-- The entry of a key whose value is not empty.
abbrev pub entry : Text → Text → List (Text × Text)
entry key value = if is_empty value then [] else (key, value) ∷ []

-- The switch of EncodeRealtimeEvent: of its four cases, three keep the type.
unfoldable pub wire_type : Text → Text
wire_type t = if text_eq t (text "session.updated") then text "session.update" else t

-- EncodeRealtimeEvent: the object that is marshalled.
unfoldable pub encode_realtime_event : RealtimeEvent → List (Text × Text)
encode_realtime_event ev =
    (text "type", wire_type ev.event_type)
    ∷ (entry (text "event_id") ev.event_id
        ++ (entry (text "audio") ev.audio_b64 ++ entry (text "text") ev.text_of))

-- What DecodeRealtimeEvent reads of a message: `error` is its message and type, if it has one.
pub record Wire : Type 0 where
  pub type_name : Text
  pub event_id : Text
  pub delta : Text
  pub audio : Text
  pub error : Option (Text × Text)

abbrev pub or_else : Text → Text → Text
or_else s fallback = if is_empty s then fallback else s

abbrev pub wire_error : Option (Text × Text) → Text
wire_error none = text "realtime error"
wire_error (some (message, kind)) = or_else (or_else message kind) (text "realtime error")

abbrev pub is_audio_delta : Text → Bool
is_audio_delta t =
    text_eq t (text "response.audio.delta") || text_eq t (text "response.output_audio.delta")

abbrev pub is_text_delta : Text → Bool
is_text_delta t =
    text_eq t (text "response.text.delta")
    || (text_eq t (text "response.output_text.delta")
        || text_eq t (text "response.output_audio_transcript.delta"))

-- The switch over the type of a message. "session.created", "session.updated" and "response.done"
-- keep their type and have no payload.
unfoldable pub is_bare : Text → Bool
is_bare t =
    text_eq t (text "session.created")
    || (text_eq t (text "session.updated") || text_eq t (text "response.done"))

unfoldable pub decoded : Wire → RealtimeEvent → RealtimeEvent
decoded w ev =
    if is_bare w.type_name
    then record ev { event_type = w.type_name }
    else if is_audio_delta w.type_name
    then record ev { event_type = text "response.audio.delta"; audio_b64 = or_else w.delta w.audio }
    else if is_text_delta w.type_name
    then record ev { event_type = text "response.text.delta"; text_of = w.delta }
    else if text_eq w.type_name (text "error")
    then record ev { event_type = text "error"; error_of = wire_error w.error }
    else record ev { event_type = w.type_name; text_of = w.delta }

unfoldable pub decode_wire : Text → Wire ⊎ GoError → RealtimeEvent ⊎ GoError
decode_wire raw (inr e) = inr (wrapped (text "llm: decode realtime event") e)
decode_wire raw (inl w) =
    if is_empty w.type_name
    then inr (plain (text "llm: realtime event missing type"))
    else inl (
        decoded w (record no_event { event_id = w.event_id; raw = raw; provider_id = w.type_name }))

unfoldable pub decode_realtime_event : (Text → Wire ⊎ GoError) → Text → RealtimeEvent ⊎ GoError
decode_realtime_event unmarshal raw = decode_wire raw (unmarshal raw)
