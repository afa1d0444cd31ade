-- ===== src/Tests/Claude.antt =====
-- provider/anthropic/anthropic.go: a turn with a tool call whose block does not end.
use rho_llm.Base.{◌≡◌, refl, Text, text, text_eq, true, false, none, List, [], ◌∷◌, pos}
use rho_llm.Anthropic.{
  WireBlock, update_block, start, started_block, block_at, open_server_tool_use,
}
use rho_llm.Anthropic.Parse.{
  SseEvent, message_start, block_start, text_delta, input_delta, block_stop, message_delta,
  parse_stream, parse_from, step, flush, flush_tool, flush_server, begin_block, add_input, finish,
}
use rho_llm.Stream.Terminal.{ends_once}
use rho_llm.Anthropic.Ending.{is_final, is_error, ends_once-parse_stream}
use rho_llm.Anthropic.Tools.{completes, tool_calls, started_calls, tool_calls-parse_stream}

abbrev block : Text → Text → WireBlock Text
block kind id = record {
  type_name = kind;
  id = id;
  name = text "add";
  text_of = [];
  thinking_of = [];
  signature_of = [];
  whole = [];
  is_result = false;
}

abbrev lines : List (SseEvent Text Text)
lines =
    message_start (text "claude") none (pos 12) (pos 1)
    ∷ block_start (pos 0) (block (text "text") [])
    ∷ text_delta (pos 0) (text "so")
    ∷ block_stop (pos 0)
    ∷ block_start (pos 1) (block (text "tool_use") (text "t1"))
    ∷ input_delta (pos 1) (text "{}")
    ∷ message_delta (text "tool_use") none (pos 0) (pos 7)
    ∷ []

lines-completes : completes (parse_stream 9 none lines) ≡ true
unfolding completes parse_stream parse_from step flush flush_tool flush_server open_server_tool_use
    begin_block text_eq block_at update_block start started_block add_input finish
lines-completes = refl

ends_once-parse_stream_example : ends_once is_final is_error (parse_stream 9 none lines) ≡ true
ends_once-parse_stream_example = ends_once-parse_stream 9 none lines

tool_calls-parse_stream_example : tool_calls (parse_stream 9 none lines) ≡ started_calls lines
tool_calls-parse_stream_example = tool_calls-parse_stream 9 none lines lines-completes
