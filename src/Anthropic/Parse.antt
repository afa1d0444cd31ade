-- ===== src/Anthropic/Parse.antt =====
-- provider/anthropic/anthropic.go: parseStream, as a list of what it yields. Its consumer does not
-- change what comes next, only how much of it is asked for: see `delivered`.
use rho_llm.Base.{
  ℕ, ◌+◌, Text, text, text_eq, Bool, true, false, not, Option, none, some, List, [], ◌∷◌, ◌++◌,
  length, ltb, ◌&&◌, if◌then◌else◌, ℤ, pos, negsuc, ltb_ℤ,
}
use rho_llm.Errors.{GoError, sentinel, wrapped, unexpected_eof}
use rho_llm.Stream.Terminal.{too_long}
use rho_llm.Anthropic.{
  WireBlock, Part, Blocks, start, append_text, append_citation, append_thinking, append_signature,
  append_input, block_at, is_open, input_length, open_server_tool_use, finish_block, update_block,
  blank, set_tool_use, parts, is_streamed, whole_part,
}

-- A line of the stream: one without an effect (no data, or of a type that the code passes over), the
-- marker of the end, one that does not parse, a content block that does not parse, or an event. A
-- citation that is no JSON object is none.
pub data SseEvent (Whole Citation : Type 0) : Type 0 where
  skipped done_line : SseEvent Whole Citation
  malformed : GoError → SseEvent Whole Citation
  malformed_block : GoError → SseEvent Whole Citation
  block_start : ℤ → WireBlock Whole → SseEvent Whole Citation
  text_delta thinking_delta signature_delta input_delta : ℤ → Text → SseEvent Whole Citation
  citation_delta : ℤ → Option Citation → SseEvent Whole Citation
  block_stop : ℤ → SseEvent Whole Citation
  message_delta : Text → Option Text → ℤ → ℤ → SseEvent Whole Citation
  error_event : GoError → SseEvent Whole Citation
  message_start : Text → Option Text → ℤ → ℤ → SseEvent Whole Citation

-- What EventDone and EventError report of the turn: its model and container, its input and output
-- tokens, and its parts.
pub record Turn (Whole Citation : Type 0) : Type 0 where
  pub model : Text
  pub container_id : Text
  pub input_tokens : ℤ
  pub output_tokens : ℤ
  pub parts_of : List (Part Whole Citation)

-- A yield. `error_item` comes with no event, and `failed` with an EventError.
pub data Emit (Whole Citation : Type 0) : Type 0 where
  content thinking : Text → Emit Whole Citation
  citation : Citation → Emit Whole Citation
  tool_use : Text → Text → Text → Emit Whole Citation
  server_tool : Part Whole Citation → Emit Whole Citation
  done : Text → Text → Text → Turn Whole Citation → Emit Whole Citation
  failed : GoError → Turn Whole Citation → Emit Whole Citation
  error_item : GoError → Emit Whole Citation

-- The variables of parseStream: currentToolCall (its ID and name) with currentToolIndex, and so on.
pub record Parsing (Whole Citation : Type 0) : Type 0 where
  pub tool : Option (Text × Text)
  pub tool_index : ℤ
  pub buffer : Text
  pub input_tokens : ℤ
  pub start_output : ℤ
  pub started : Bool
  pub model : Text
  pub container_id : Text
  pub signature : Text
  pub blocks : Blocks Whole Citation

-- normalizeStopReason.
abbrev pub normalize_stop_reason : Text → Text
normalize_stop_reason reason =
    if text_eq reason (text "stop_sequence") then text "end_turn" else reason

abbrev pub or_keep : {A : Type 0} → Option A → A → A
or_keep none old = old
or_keep (some new) old = new

abbrev pub Emits : Type 0 → Type 0 → Type 0
Emits Whole Citation = List (Emit Whole Citation)

-- What a round yields, and from which state the stream goes on, if it does.
abbrev pub Stepped : Type 0 → Type 0 → Type 0
Stepped Whole Citation = Emits Whole Citation × Option (Parsing Whole Citation)

abbrev pub is_done_line : {Whole Citation : Type 0} → SseEvent Whole Citation → Bool
is_done_line done_line = true
is_done_line _ = false

module _ {Whole Citation : Type 0} (max_tool_input : ℕ) where
  abbrev pub turn_of : Parsing Whole Citation → ℤ → Turn Whole Citation
  turn_of s output = record {
    model = s.model;
    container_id = s.container_id;
    input_tokens = s.input_tokens;
    output_tokens = output;
    parts_of = parts s.blocks;
  }

  unfoldable pub fail : GoError → Parsing Whole Citation → Emits Whole Citation
  fail err s = if s.started then failed err (turn_of s s.start_output) ∷ [] else error_item err ∷ []

  -- flushToolCall.
  unfoldable pub flush_tool : Parsing Whole Citation → Emits Whole Citation × Parsing Whole Citation
  flush_tool s = elim s.tool [
    | none ↦ ([], s)
    | some (id, name) ↦ (
      tool_use id name s.buffer ∷ [],
      record s {
        tool = none;
        tool_index = negsuc 0;
        buffer = [];
        blocks = set_tool_use s.tool_index id name s.buffer s.blocks;
      },
    )
  ]

  -- finishServerToolUse, and what flushServerToolUse yields.
  unfoldable pub flush_server :
      Option ℤ → Parsing Whole Citation → Emits Whole Citation × Parsing Whole Citation
  flush_server none s = ([], s)
  flush_server (some i) s = elim (block_at i s.blocks) [
    | none ↦ ([], s)
    | some b ↦
        if b.server_open
        then (
          server_tool (Part.server_part b.id b.name b.input) ∷ [],
          record s { blocks = update_block finish_block (blank []) i s.blocks },
        )
        else ([], s)
  ]

  -- Both, the second one with the index that `which` finds.
  unfoldable pub flush :
      (Parsing Whole Citation → Option ℤ)
      → Parsing Whole Citation
      → Emits Whole Citation × Parsing Whole Citation
  flush which s =
      let (tools, now) = flush_tool s in
      let (servers, after) = flush_server (which now) now in (tools ++ servers, after)

  abbrev pub open_server : Parsing Whole Citation → Option ℤ
  open_server s = open_server_tool_use s.blocks

  -- The rest of content_block_start.
  unfoldable pub begin_block : ℤ → WireBlock Whole → Parsing Whole Citation → Stepped Whole Citation
  begin_block i w s =
      let now = record s { blocks = start i w s.blocks } in
      (
        if not (is_streamed w.type_name) && w.is_result
            then server_tool (whole_part w.whole) ∷ []
            else [],
        some (
            if text_eq w.type_name (text "tool_use")
            then record now { tool = some (w.id, w.name); tool_index = i; buffer = [] }
            else now),
      )

  unfoldable pub add_input : ℤ → Text → Parsing Whole Citation → Stepped Whole Citation
  add_input i t s =
      if is_open (block_at i s.blocks)
      then (if ltb max_tool_input (input_length (block_at i s.blocks) + length t)
          then (fail (too_long max_tool_input) s, none)
          else ([], some (record s { blocks = append_input i t s.blocks })))
      else if ltb max_tool_input (length s.buffer + length t)
      then (fail (too_long max_tool_input) s, none)
      else ([], some (record s { buffer = s.buffer ++ t }))

  -- The rest of message_delta.
  unfoldable pub finish : Text → Option Text → ℤ → ℤ → Parsing Whole Citation → Emits Whole Citation
  finish reason container input output s =
      let now = record s {
        container_id = or_keep container s.container_id;
        input_tokens = if ltb_ℤ (pos 0) input then input else s.input_tokens;
      } in
      done (normalize_stop_reason reason) reason s.signature (turn_of now output) ∷ []

  -- One round of the loop.
  unfoldable pub step : Parsing Whole Citation → SseEvent Whole Citation → Stepped Whole Citation
  step s skipped = ([], some s)
  step s done_line = ([], some s)
  step s (malformed e) =
      (error_item (wrapped (text "malformed SSE event from anthropic") e) ∷ [], some s)
  step s (malformed_block e) =
      (error_item (wrapped (text "malformed content block from anthropic") e) ∷ [], some s)
  step s (block_start i w) =
      let (flushed, now) = flush open_server s in
      let (emits, after) = begin_block i w now in (flushed ++ emits, after)
  step s (text_delta i t) = (content t ∷ [], some (record s { blocks = append_text i t s.blocks }))
  step s (thinking_delta i t) =
      (thinking t ∷ [], some (record s { blocks = append_thinking i t s.blocks }))
  step s (signature_delta i t) =
      ([], some (record s { signature = s.signature ++ t; blocks = append_signature i t s.blocks }))
  step s (input_delta i t) = add_input i t s
  step s (citation_delta i none) = ([], some s)
  step s (citation_delta i (some c)) =
      (citation c ∷ [], some (record s { blocks = append_citation i c s.blocks }))
  step s (block_stop i) = let (flushed, now) = flush (λ _. some i) s in (flushed, some now)
  step s (message_delta reason container input output) =
      let (flushed, now) = flush open_server s in
      (flushed ++ finish reason container input output now, none)
  step s (error_event e) = (fail e s, none)
  step s (message_start model container input output) = (
    [],
    some (record s {
      input_tokens = input;
      start_output = output;
      started = true;
      model = model;
      container_id = or_keep container s.container_id;
    }),
  )

  -- After the loop, with scanner.Err().
  unfoldable pub ended : Option GoError → Parsing Whole Citation → Emits Whole Citation
  ended (some e) s = fail (wrapped (text "stream error") e) s
  ended none s =
      fail (wrapped (text "anthropic: stream ended without completion") (sentinel unexpected_eof)) s

  abbrev pub goes_on :
      Option (Parsing Whole Citation)
      → (Parsing Whole Citation → Emits Whole Citation)
      → Emits Whole Citation
  goes_on none next = []
  goes_on (some s) next = next s

  -- parseStream from a state on. `read_error` is scanner.Err() when there are no more lines.
  unfoldable pub parse_from :
      Option GoError
      → Parsing Whole Citation
      → List (SseEvent Whole Citation)
      → Emits Whole Citation
  parse_from read_error s [] = ended read_error s
  parse_from read_error s (ev ∷ evs) =
      let (emits, after) = step s ev in
      if is_done_line ev
      then ended none s
      else emits ++ goes_on after (λ s'. parse_from read_error s' evs)

  abbrev pub parsing : Parsing Whole Citation
  parsing = record {
    tool = none;
    tool_index = negsuc 0;
    buffer = [];
    input_tokens = negsuc 0;
    start_output = pos 0;
    started = false;
    model = [];
    container_id = [];
    signature = [];
    blocks = [];
  }

  unfoldable pub parse_stream :
      Option GoError → List (SseEvent Whole Citation) → Emits Whole Citation
  parse_stream read_error evs = parse_from read_error parsing evs

  -- What a consumer gets: the yields up to the first that it answers with a stop.
  unfoldable pub delivered :
      (Emits Whole Citation → Bool)
      → Emits Whole Citation
      → Emits Whole Citation
      → Emits Whole Citation
  delivered takes given [] = given
  delivered takes given (e ∷ es) =
      let rest = delivered takes (given ++ (e ∷ [])) es in
      if takes (given ++ (e ∷ [])) then rest else given ++ (e ∷ [])
