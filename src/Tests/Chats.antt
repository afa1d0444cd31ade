-- ===== src/Tests/Chats.antt =====
-- provider/openaicompat/openaicompat.go and provider/gemini/gemini.go: turns with two tool calls.
use rho_llm.Base.{
  ◌≡◌, refl, Text, text, true, false, none, some, List, [], ◌∷◌, ◌++◌, map, arith, ℤ, pos, All, inl,
  inr, if◌then◌else◌, Unique,
}
use rho_llm.Anthropic.{int_eq}
use rho_llm.Stream.Terminal.{ends_once}
use rho_llm.OpenAi.{ToolDelta}
use rho_llm.OpenAi.Parse.{Choice, ChatEvent, skipped, done_line, malformed, chunk, parse_chat}
use rho_llm.Errors.{sentinel, eof}
use rho_llm.OpenAi.Ending.{is_done, is_failure, ends_once-parse_chat}
use rho_llm.OpenAi.Pending.{Fits}
use rho_llm.OpenAi.Inputs.{parse_chat-Fits}
use rho_llm.OpenAi.Assembly.{deltas_at, first_text, joined, position, indexes, total}
use rho_llm.OpenAi.Assembly.Turn.{calls_in, all_deltas}
use rho_llm.OpenAi.Assembly.Parallel.{calls_in-parse_chat}
use rho_llm.Gemini.{
  make_tool_call_id, resolve_tool_name, GeminiPart, GeminiEvent, response, parse_gemini,
}
use rho_llm.Gemini.Names.{resolve_tool_name-make_tool_call_id}
use rho_llm.Gemini.Calls.{calls_of, id_of, name_of, calls_of-parse_gemini}

abbrev tool_delta : ℤ → Text → Text → Text → ToolDelta
tool_delta i id name arguments = record {
  index = some i;
  id = id;
  name = name;
  arguments = arguments;
}

abbrev choice : List ToolDelta → Text → Choice
choice tcs reason = record {
  reasoning_content = [];
  reasoning = [];
  content = text "ok";
  tool_calls = tcs;
  finish_reason = reason;
}

-- The calls start together, and their arguments arrive in turns. Blank lines, a line that does not
-- parse and a chunk without a choice stand between.
abbrev first_lines : List ChatEvent
first_lines =
    chunk
      (choice
          (tool_delta (pos 0) (text "a") (text "add") []
            ∷ tool_delta (pos 1) (text "b") (text "sub") (text "{")
            ∷ [])
          []
        ∷ [])
      none
    ∷ skipped
    ∷ malformed (sentinel eof)
    ∷ chunk [] none
    ∷ chunk (choice (tool_delta (pos 0) [] [] (text "{1") ∷ []) [] ∷ []) none
    ∷ skipped
    ∷ []

abbrev last_choice : Choice
last_choice =
    choice (tool_delta (pos 1) (text "b") [] (text "}") ∷ tool_delta (pos 0) [] [] (text "}") ∷ [])
      (text "tool_calls")

abbrev last_lines : List ChatEvent
last_lines = skipped ∷ done_line ∷ []

abbrev chat_lines : List ChatEvent
chat_lines = first_lines ++ (chunk (last_choice ∷ []) none ∷ last_lines)

abbrev call_ids : ℤ → Text
call_ids i = if int_eq i (pos 0) then text "a" else text "b"

ends_once-parse_chat_example :
    ends_once is_done is_failure (parse_chat (text "openai") 9 none chat_lines) ≡ true
ends_once-parse_chat_example = ends_once-parse_chat (text "openai") 9 none chat_lines

parse_chat-Fits_example : All (Fits 9) (parse_chat (text "openai") 9 none chat_lines)
parse_chat-Fits_example = parse_chat-Fits (text "openai") 9 none chat_lines

calls_in-parse_chat_example :
    calls_in (parse_chat (text "openai") 9 none chat_lines)
    ≡ (text "a", text "add", text "{1}") ∷ (text "b", text "sub", text "{}") ∷ []
unfolding all_deltas total deltas_at first_text joined position indexes
calls_in-parse_chat_example =
    calls_in-parse_chat (text "openai") 9 call_ids none first_lines last_choice [] none last_lines
      (
        (refl, inr refl),
        ((refl, inr refl), ((refl, inl refl), ((refl, inr refl), ((refl, inl refl), tt)))),
      )
      (refl, (refl, (refl, (refl, (refl, (refl, tt)))))) (refl, (refl, tt)) (omega arith)

resolve_tool_name-make_tool_call_id_example :
    resolve_tool_name (make_tool_call_id 12 (text "get_weather")) ≡ text "get_weather"
resolve_tool_name-make_tool_call_id_example =
    resolve_tool_name-make_tool_call_id 12 (text "get_weather")

abbrev function_part : Text → GeminiPart
function_part name = record {
  text_of = [];
  thought = false;
  function_call = some (name, text "{}");
  thought_signature = [];
}

-- One function is called twice.
abbrev gemini_lines : List GeminiEvent
gemini_lines =
    response
      (record {
        parts_of = function_part (text "get") ∷ function_part (text "get") ∷ [];
        finish_reason = text "STOP";
      }
        ∷ [])
      none
    ∷ []

calls_of-parse_gemini_example :
    Unique (map id_of (calls_of (parse_gemini 9 none gemini_lines)))
    × (map (λ c. resolve_tool_name (id_of c)) (calls_of (parse_gemini 9 none gemini_lines))
        ≡ map name_of (calls_of (parse_gemini 9 none gemini_lines)))
calls_of-parse_gemini_example = calls_of-parse_gemini 9 none gemini_lines
