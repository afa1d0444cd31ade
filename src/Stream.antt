-- ===== src/Stream.antt =====
-- types.go (StreamEvent) and streamevents.go: the event stream, and StreamWithBoundaries.
-- A stream is the list of what its iterator would yield. The consumer is a function of what it
-- has been given so far, the last item first: it answers whether the loop goes on.
pub mod Terminal
pub mod Keeping
pub mod Bracketing
pub mod Contract
pub mod Fold
use rho_llm.Base.{
  ℕ, Text, Bool, true, false, Option, none, some, List, [], ◌∷◌, ◌++◌, if◌then◌else◌,
}
use rho_llm.Errors.{GoError}

-- The types that a provider's stream may have, and the six that StreamWithBoundaries injects. The
-- StreamEvent{} that an adapter yields with an error is untyped.
pub data EventType : Type 0 where
  untyped : EventType
  content tool_use thinking done error server_tool citation : EventType
  text_start text_end thinking_start thinking_end tool_start tool_end : EventType

pub record ToolCall : Type 0 where
  pub id : Text
  pub name : Text
  pub input : Text

-- ContentPart by its Type, as far as SetParts reads it: a text, a thinking block with its signature
-- and whether it is redacted, a tool use, and any other.
pub data ContentPart : Type 0 where
  text_part : Text → ContentPart
  thinking_part : Text → Text → Bool → ContentPart
  tool_use_part : ToolCall → ContentPart
  other_part : ContentPart

-- StreamEvent, less the details of server tools and citations.
pub record StreamEvent : Type 0 where
  pub event_type : EventType
  pub text : Text
  pub thinking : Text
  pub tool_call : Option ToolCall
  pub thinking_signature : Text
  pub thinking_redacted : Bool
  pub model : Text
  pub stop_reason : Text
  pub input_tokens : ℕ
  pub output_tokens : ℕ
  pub parts : List ContentPart

-- One yield: the event, and the error that comes with it.
abbrev pub Item : Type 0
Item = StreamEvent × Option GoError

abbrev pub Consumer : Type 0
Consumer = List Item → Bool

-- StreamEvent{Type: t}.
abbrev pub empty_event : EventType → StreamEvent
empty_event t = record {
  event_type = t;
  text = [];
  thinking = [];
  tool_call = none;
  thinking_signature = [];
  thinking_redacted = false;
  model = [];
  stop_reason = [];
  input_tokens = 0;
  output_tokens = 0;
  parts = [];
}

abbrev pub marker : EventType → Item
marker t = (empty_event t, none)

-- The variable `open`.
pub data Block : Type 0 where
  no_block text_block thinking_block : Block

-- closeBlock: what it yields.
abbrev pub close_block : Block → List Item
close_block no_block = []
close_block text_block = marker text_end ∷ []
close_block thinking_block = marker thinking_end ∷ []

abbrev pub open_text : Block → List Item
open_text text_block = []
open_text no_block = marker text_start ∷ []
open_text thinking_block = marker thinking_end ∷ marker text_start ∷ []

abbrev pub open_thinking : Block → List Item
open_thinking thinking_block = []
open_thinking no_block = marker thinking_start ∷ []
open_thinking text_block = marker text_end ∷ marker thinking_start ∷ []

-- The loop's body without an error: what it yields for an event, and `open` afterwards.
unfoldable pub bracket : Block → EventType → Item → List Item × Block
bracket b content it = (open_text b ++ it ∷ [], text_block)
bracket b thinking it = (open_thinking b ++ it ∷ [], thinking_block)
bracket b tool_use it = (close_block b ++ marker tool_start ∷ it ∷ marker tool_end ∷ [], no_block)
bracket b done it = (close_block b ++ it ∷ [], no_block)
bracket b _ it = (it ∷ [], b)

-- A sequence of yields, left at the first that the consumer refuses. The list is what has been
-- delivered, the last first.
unfoldable pub yield_all : Consumer → List Item → List Item → Bool × List Item
yield_all c [] delivered = (true, delivered)
yield_all c (it ∷ rest) delivered =
    let more = yield_all c rest (it ∷ delivered) in
    if c (it ∷ delivered) then more else (false, it ∷ delivered)

unfoldable pub run_boundaries : Consumer → Block → List Item → List Item → List Item
run_boundaries c b [] delivered = (yield_all c (close_block b) delivered).1
run_boundaries c b ((ev, some err) ∷ rest) delivered =
    (yield_all c (close_block b ++ (ev, some err) ∷ []) delivered).1
run_boundaries c b ((ev, none) ∷ rest) delivered =
    let (items, after) = bracket b ev.event_type (ev, none) in
    let (going, now) = yield_all c items delivered in
    let more = run_boundaries c after rest now in if going then more else now

-- StreamWithBoundaries: what the consumer is given, the last first.
unfoldable pub stream_with_boundaries : List Item → Consumer → List Item
stream_with_boundaries seq c = run_boundaries c no_block seq []
