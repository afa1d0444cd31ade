-- ===== src/OpenAi/Parse.antt =====
-- provider/openaicompat/openaicompat.go: splitPrompt, normalizeStopReason and parseStream, as a list
-- of what it yields.
use rho_llm.Base.{
  ℕ, ◌-◌, Text, text, text_eq, is_empty, Bool, true, false, ◌&&◌, not, Option, none, some, List, [],
  ◌∷◌, ◌++◌, if◌then◌else◌, ℤ, pos, negsuc, leb, pos_part,
}
use rho_llm.Errors.{GoError, sentinel, wrapped, unexpected_eof}
use rho_llm.Stream.Terminal.{behind, bind}
use rho_llm.OpenAi.{
  ToolDelta, ChatEmit, thinking, done, error_item, Assembling, assembling, emit_all, add_deltas,
}

-- A choice of a chunk, with its delta.
pub record Choice : Type 0 where
  pub reasoning_content : Text
  pub reasoning : Text
  pub content : Text
  pub tool_calls : List ToolDelta
  pub finish_reason : Text

-- The usage of a chunk.
pub record ChatUsage : Type 0 where
  pub prompt_tokens : ℤ
  pub completion_tokens : ℤ
  pub cached_tokens : ℤ

-- A line: one without data, the marker of the end, one that does not parse, or a chunk.
pub data ChatEvent : Type 0 where
  skipped done_line : ChatEvent
  malformed : GoError → ChatEvent
  chunk : List Choice → Option ChatUsage → ChatEvent

-- max(n, 0) is `pos_part`, and the minimum of two numbers that are not negative is one of them.
abbrev pub split_prompt : ℤ → ℤ → ℤ × ℤ
split_prompt prompt_tokens cached_tokens =
    let prompt = pos_part prompt_tokens in
    let cached = if leb (pos_part cached_tokens) prompt then pos_part cached_tokens else prompt in
    (pos (prompt - cached), pos cached)

abbrev pub stop_reason_of : Text → Text
stop_reason_of reason =
    if text_eq reason (text "stop")
    then text "end_turn"
    else if text_eq reason (text "tool_calls")
    then text "tool_use"
    else if text_eq reason (text "length")
    then text "max_tokens"
    else if text_eq reason (text "content_filter")
    then text "refusal"
    else reason

-- The variables of parseStream.
pub record ChatState : Type 0 where
  pub finish_reason : Text
  pub raw_finish_reason : Text
  pub input_tokens : ℤ
  pub output_tokens : ℤ
  pub cache_read_tokens : ℤ
  pub tools : Assembling

-- Before the first line: -1 is TokensNotReported.
abbrev pub chat_state : ChatState
chat_state = record {
  finish_reason = [];
  raw_finish_reason = [];
  input_tokens = negsuc 0;
  output_tokens = negsuc 0;
  cache_read_tokens = pos 0;
  tools = assembling;
}

abbrev pub with_usage : Option ChatUsage → ChatState → ChatState
with_usage none s = s
with_usage (some u) s =
    let (input, cache_read) = split_prompt u.prompt_tokens u.cached_tokens in
    record s {
      input_tokens = input;
      cache_read_tokens = cache_read;
      output_tokens = u.completion_tokens;
    }

abbrev pub reasoning_delta : Choice → Text
reasoning_delta c = if is_empty c.reasoning_content then c.reasoning else c.reasoning_content

-- The reasoning and the content of a choice.
unfoldable pub deltas : Choice → List ChatEmit
deltas c =
    (if is_empty (reasoning_delta c) then [] else thinking (reasoning_delta c) ∷ [])
    ++ (if is_empty c.content then [] else ChatEmit.content c.content ∷ [])

-- The capture of a finish reason.
unfoldable pub capture : Text → ChatState → List ChatEmit × ChatState
capture reason s =
    if is_empty reason
    then ([], s)
    else (let (emits, now) = emit_all s.tools in
        (
          emits,
          record s {
            finish_reason = stop_reason_of reason;
            raw_finish_reason = reason;
            tools = now;
          },
        ))

-- The first choice of a chunk.
unfoldable pub on_choice : ℕ → Choice → ChatState → List ChatEmit × Option ChatState
on_choice max_tool_input c s = behind (deltas c) (
    bind (add_deltas max_tool_input c.tool_calls s.tools) (λ now.
      let (last, s') = capture c.finish_reason (record s { tools = now }) in (last, some s')))

-- The stop reason after the loop.
unfoldable pub final_reason : Bool → ChatState → Text
final_reason saw_done s =
    if is_empty s.finish_reason && saw_done
    then (if s.tools.emitted_tool_call then text "tool_use" else text "end_turn")
    else s.finish_reason

abbrev pub ends_loop : ChatEvent → Bool
ends_loop done_line = true
ends_loop _ = false

abbrev pub then_chat : Option ChatState → (ChatState → List ChatEmit) → List ChatEmit
then_chat none next = []
then_chat (some s) next = next s

module _ (provider_name : Text) (max_tool_input : ℕ) where
  -- One round of the loop. The marker of the end leaves it: see `parse_chat_from`.
  unfoldable pub chat_step : ChatState → ChatEvent → List ChatEmit × Option ChatState
  chat_step s skipped = ([], some s)
  chat_step s done_line = ([], some s)
  chat_step s (malformed e) =
      if not (is_empty s.finish_reason)
      then ([], some s)
      else (error_item (wrapped (text "malformed SSE event from " ++ provider_name) e) ∷ [], some s)
  chat_step s (chunk [] usage) = ([], some (with_usage usage s))
  chat_step s (chunk (c ∷ cs) usage) = on_choice max_tool_input c (with_usage usage s)

  -- After the loop, with whether the server sent the marker of the end and scanner.Err().
  unfoldable pub chat_ended : Bool → Option GoError → ChatState → List ChatEmit
  chat_ended saw_done read_error s =
      let (emits, now) = emit_all s.tools in
      let reason = final_reason saw_done (record s { tools = now }) in
      emits
      ++ (if not (is_empty reason)
          then done reason s.raw_finish_reason s.input_tokens s.output_tokens s.cache_read_tokens
            ∷ []
          else elim read_error [
            | some e ↦ error_item (wrapped (text "stream error") e) ∷ []
            | none ↦
                error_item (
                  wrapped (provider_name ++ text ": stream ended without completion")
                    (sentinel unexpected_eof))
                ∷ []
          ])

  -- parseStream from a state on. `read_error` is scanner.Err() when there are no more lines.
  unfoldable pub parse_chat_from : Option GoError → ChatState → List ChatEvent → List ChatEmit
  parse_chat_from read_error s [] = chat_ended false read_error s
  parse_chat_from read_error s (ev ∷ evs) =
      let (emits, after) = chat_step s ev in
      if ends_loop ev
      then chat_ended true none s
      else emits ++ then_chat after (λ s'. parse_chat_from read_error s' evs)

  unfoldable pub parse_chat : Option GoError → List ChatEvent → List ChatEmit
  parse_chat read_error evs = parse_chat_from read_error chat_state evs
