-- ===== src/Gemini.antt =====
-- provider/gemini/gemini.go: makeToolCallID, resolveToolName, normalizeStopReason, splitPrompt and
-- parseStream, as a list of what it yields. A function call's arguments are the JSON that json.Marshal
-- makes of them. callIndex counts the calls of one turn and is never negative.
pub mod Names
pub mod Ending
pub mod Calls
use rho_llm.Base.{
  ℕ, zero, suc, ◌+◌, Text, text, text_eq, has_prefix, is_empty, decimal, is_decimal_byte, Bool,
  true, false, ◌&&◌, ◌||◌, not, Option, none, some, List, [], ◌∷◌, ◌++◌, drop, length, ltb, ◌==◌,
  if◌then◌else◌, ℤ, pos, negsuc,
}
use rho_llm.Errors.{GoError, sentinel, wrapped, unexpected_eof}
use rho_llm.Stream.Terminal.{behind, bind, too_long}
use rho_llm.OpenAi.Parse.{split_prompt}

-- makeToolCallID.
unfoldable pub make_tool_call_id : ℕ → Text → Text
make_tool_call_id index name = text "call_" ++ (decimal index ++ (text "_" ++ name))

-- What stands before the first underscore and after it, if there is one.
unfoldable pub cut_underscore : Text → Option (Text × Text)
cut_underscore [] = none
cut_underscore (c ∷ s) =
    let rest = cut_underscore s in
    if c == b'_'
    then some ([], s)
    else elim rest [ none ↦ none | some (front, back) ↦ some (c ∷ front, back) ]

unfoldable pub all_digits : Text → Bool
all_digits [] = true
all_digits (c ∷ s) = is_decimal_byte c && all_digits s

abbrev pub name_after : Option (Text × Text) → Text → Text
name_after none id = id
name_after (some (front, back)) id = if not (is_empty front) && all_digits front then back else id

-- resolveToolName.
unfoldable pub resolve_tool_name : Text → Text
resolve_tool_name id =
    if not (has_prefix id (text "call_")) then id else name_after (cut_underscore (drop 5 id)) id

-- A part of the candidate's content. A function call has a name and its arguments.
pub record GeminiPart : Type 0 where
  pub text_of : Text
  pub thought : Bool
  pub function_call : Option (Text × Text)
  pub thought_signature : Text

pub record Candidate : Type 0 where
  pub parts_of : List GeminiPart
  pub finish_reason : Text

-- geminiUsageMetadata.
pub record UsageMetadata : Type 0 where
  pub prompt_token_count : ℤ
  pub candidates_token_count : ℤ
  pub thoughts_token_count : ℤ
  pub cached_content_token_count : ℤ

-- A line: one without data, one that does not parse, or a response.
pub data GeminiEvent : Type 0 where
  skipped : GeminiEvent
  malformed : GoError → GeminiEvent
  response : List Candidate → Option UsageMetadata → GeminiEvent

-- A yield. `tool_use` has the call's ID, name, arguments and signature.
pub data GeminiEmit : Type 0 where
  content thinking : Text → GeminiEmit
  tool_use : Text → Text → Text → Text → GeminiEmit
  done : Text → Text → ℤ → ℤ → ℤ → ℤ → GeminiEmit
  error_item : GoError → GeminiEmit

-- The variables of parseStream. doneEmitted is not kept: the code returns where it sets it.
pub record GeminiState : Type 0 where
  pub call_index : ℕ
  pub saw_tool_call : Bool
  pub input_tokens : ℤ
  pub output_tokens : ℤ
  pub thinking_tokens : ℤ
  pub cache_read_tokens : ℤ

abbrev pub gemini_state : GeminiState
gemini_state = record {
  call_index = 0;
  saw_tool_call = false;
  input_tokens = negsuc 0;
  output_tokens = negsuc 0;
  thinking_tokens = pos 0;
  cache_read_tokens = pos 0;
}

abbrev pub usage_split : UsageMetadata → ℤ × ℤ
usage_split u = split_prompt u.prompt_token_count u.cached_content_token_count

abbrev pub with_metadata : Option UsageMetadata → GeminiState → GeminiState
with_metadata none s = s
with_metadata (some u) s =
    let (input, cache_read) = usage_split u in
    record s {
      input_tokens = input;
      cache_read_tokens = cache_read;
      output_tokens = u.candidates_token_count;
      thinking_tokens = u.thoughts_token_count;
    }

-- normalizeStopReason.
abbrev pub gemini_stop_reason : Text → Text
gemini_stop_reason reason =
    if text_eq reason (text "STOP")
    then text "end_turn"
    else if text_eq reason (text "FUNCTION_CALLING")
    then text "tool_use"
    else if text_eq reason (text "MAX_TOKENS")
    then text "max_tokens"
    else if text_eq reason (text "SAFETY") || text_eq reason (text "PROHIBITED_CONTENT")
    then text "refusal"
    else reason

-- The text of a part.
unfoldable pub part_text : GeminiPart → List GeminiEmit
part_text p =
    if is_empty p.text_of
    then []
    else if p.thought
    then thinking p.text_of ∷ []
    else content p.text_of ∷ []

-- EventDone, whose stop reason is that of a tool call when the turn had one.
unfoldable pub done_of : Text → GeminiState → GeminiEmit
done_of reason s =
    let stop = gemini_stop_reason reason in
    done (if s.saw_tool_call && text_eq stop (text "end_turn") then text "tool_use" else stop)
      reason s.input_tokens s.output_tokens s.thinking_tokens s.cache_read_tokens

module _ (max_tool_input : ℕ) where
  -- The function call of a part.
  unfoldable pub part_call :
      Option (Text × Text) → Text → GeminiState → List GeminiEmit × Option GeminiState
  part_call none signature s = ([], some s)
  part_call (some (name, args)) signature s =
      if ltb max_tool_input (length args)
      then (error_item (too_long max_tool_input) ∷ [], none)
      else (
        tool_use (make_tool_call_id s.call_index name) name args signature ∷ [],
        some (record s { call_index = suc s.call_index; saw_tool_call = true }),
      )

  unfoldable pub add_parts : List GeminiPart → GeminiState → List GeminiEmit × Option GeminiState
  add_parts [] s = ([], some s)
  add_parts (p ∷ ps) s =
      behind (part_text p) (bind (part_call p.function_call p.thought_signature s) (add_parts ps))

  -- The finish reason of a candidate, which ends the stream.
  unfoldable pub finish_candidate : Text → GeminiState → List GeminiEmit × Option GeminiState
  finish_candidate reason s =
      if is_empty reason then ([], some s) else (done_of reason s ∷ [], none)

  -- One round of the loop.
  unfoldable pub gemini_step : GeminiState → GeminiEvent → List GeminiEmit × Option GeminiState
  gemini_step s skipped = ([], some s)
  gemini_step s (malformed e) =
      (error_item (wrapped (text "malformed SSE event from gemini") e) ∷ [], some s)
  gemini_step s (response [] usage) = ([], some (with_metadata usage s))
  gemini_step s (response (c ∷ cs) usage) =
      bind (add_parts c.parts_of (with_metadata usage s)) (finish_candidate c.finish_reason)

  -- After the loop, with scanner.Err().
  unfoldable pub gemini_ended : Option GoError → List GeminiEmit
  gemini_ended (some e) = error_item (wrapped (text "stream error") e) ∷ []
  gemini_ended none =
      error_item
        (wrapped (text "gemini: stream ended without completion") (sentinel unexpected_eof))
      ∷ []

  abbrev pub then_gemini : Option GeminiState → (GeminiState → List GeminiEmit) → List GeminiEmit
  then_gemini none next = []
  then_gemini (some s) next = next s

  unfoldable pub parse_gemini_from :
      Option GoError → GeminiState → List GeminiEvent → List GeminiEmit
  parse_gemini_from read_error s [] = gemini_ended read_error
  parse_gemini_from read_error s (ev ∷ evs) =
      let (emits, after) = gemini_step s ev in
      emits ++ then_gemini after (λ s'. parse_gemini_from read_error s' evs)

  -- parseStream.
  unfoldable pub parse_gemini : Option GoError → List GeminiEvent → List GeminiEmit
  parse_gemini read_error evs = parse_gemini_from read_error gemini_state evs
