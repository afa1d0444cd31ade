-- ===== src/Anthropic/Ending.antt =====
-- provider/anthropic/anthropic.go: how the stream of parseStream ends.
use rho_llm.Base.{
  ℕ, ◌≡◌, refl, Text, Bool, true, false, Option, none, some, List, [], ◌∷◌, arith, ℤ, Bool-cases,
  inl, inr,
}
use rho_llm.Errors.{GoError}
use rho_llm.Stream.Terminal.{
  ends_once, none_final, ends_once-append, none_final-append, Rounded, Rounded-ends_once, too_long,
}
use rho_llm.Anthropic.Parse.{
  SseEvent, skipped, done_line, malformed, malformed_block, block_start, text_delta, thinking_delta,
  signature_delta, input_delta, citation_delta, block_stop, message_delta, error_event,
  message_start, Emit, content, thinking, citation, tool_use, server_tool, done, failed, error_item,
  Emits, Parsing, Stepped, fail, flush_tool, flush_server, flush, open_server, begin_block,
  add_input, finish, step, ended, goes_on, is_done_line, parse_from, parse_stream, parsing,
}

-- An item that ends the turn for whoever reads the stream: EventDone, or EventError.
abbrev pub is_final : {Whole Citation : Type 0} → Emit Whole Citation → Bool
is_final (done reason raw sig turn) = true
is_final (failed e turn) = true
is_final (content t) = false
is_final (thinking t) = false
is_final (citation c) = false
is_final (tool_use id name input) = false
is_final (server_tool p) = false
is_final (error_item e) = false

abbrev pub is_error : {Whole Citation : Type 0} → Emit Whole Citation → Bool
is_error (error_item e) = true
is_error (done reason raw sig turn) = false
is_error (failed e turn) = false
is_error (content t) = false
is_error (thinking t) = false
is_error (citation c) = false
is_error (tool_use id name input) = false
is_error (server_tool p) = false

-- No yield ends the turn.
abbrev Quiet : {Whole Citation : Type 0} → Emits Whole Citation → Type 0
Quiet es = none_final is_final is_error es ≡ true

module _ {Whole Citation : Type 0} (max_tool_input : ℕ) where
  ends_once-fail :
      (e : GoError) (s : Parsing Whole Citation)
      → ends_once is_final is_error (fail max_tool_input e s) ≡ true
  unfolding ends_once fail
  ends_once-fail e s = elim (Bool-cases s.started) [ inl p ↦ rw p refl | inr p ↦ rw p refl ]

  none_final-flush :
      (which : Parsing Whole Citation → Option ℤ) (s : Parsing Whole Citation)
      → Quiet (flush max_tool_input which s).0
  unfolding flush flush_tool flush_server none_final
  none_final-flush which s = ground arith

  -- A round that leaves the loop yields the last item, and no other round does.
  abbrev Round : Stepped Whole Citation → Type 0
  Round r = Rounded is_final is_error r

  add_input-Rounded :
      (i : ℤ) (t : Text) (s : Parsing Whole Citation) → Round (add_input max_tool_input i t s)
  unfolding add_input Rounded none_final
  add_input-Rounded i t s = ground (arith, ends_once-fail (too_long max_tool_input) s)

  step-Rounded :
      (s : Parsing Whole Citation) (ev : SseEvent Whole Citation) → Round (step max_tool_input s ev)
  unfolding step Rounded none_final begin_block finish ends_once
  step-Rounded s skipped = refl
  step-Rounded s done_line = refl
  step-Rounded s (malformed e) = refl
  step-Rounded s (malformed_block e) = refl
  step-Rounded s (block_start i w) =
      none_final-append is_final is_error (flush max_tool_input (open_server max_tool_input) s).0 _
        (none_final-flush (open_server max_tool_input) s) (ground arith)
  step-Rounded s (text_delta i t) = refl
  step-Rounded s (thinking_delta i t) = refl
  step-Rounded s (signature_delta i t) = refl
  step-Rounded s (input_delta i t) = add_input-Rounded i t s
  step-Rounded s (citation_delta i none) = refl
  step-Rounded s (citation_delta i (some c)) = refl
  step-Rounded s (block_stop i) = none_final-flush (λ _. some i) s
  step-Rounded s (message_delta reason container input output) =
      ends_once-append is_final is_error (flush max_tool_input (open_server max_tool_input) s).0 _
        (none_final-flush (open_server max_tool_input) s) refl
  step-Rounded s (error_event e) = ends_once-fail e s
  step-Rounded s (message_start model container input output) = refl

  parse_from-ends_once :
      (read_error : Option GoError) (s : Parsing Whole Citation)
      (evs : List (SseEvent Whole Citation))
      → ends_once is_final is_error (parse_from max_tool_input read_error s evs) ≡ true
  unfolding parse_from ended
  parse_from-ends_once none s [] = ends_once-fail _ s
  parse_from-ends_once (some e) s [] = ends_once-fail _ s
  parse_from-ends_once r s (ev ∷ evs) = elim (Bool-cases (is_done_line ev)) [
    | inl p ↦ rw p (ends_once-fail _ s)
    | inr p ↦ rw p (
        Rounded-ends_once is_final is_error (step max_tool_input s ev)
          (λ o. goes_on max_tool_input o (λ s'. parse_from max_tool_input r s' evs))
          (step-Rounded s ev) refl (λ s'. parse_from-ends_once r s' evs))
  ]

  -- Whatever lines the server sends, parseStream yields one EventDone, EventError or plain error at
  -- its end, and no EventDone or EventError before it.
  pub ends_once-parse_stream :
      (read_error : Option GoError) (evs : List (SseEvent Whole Citation))
      → ends_once is_final is_error (parse_stream max_tool_input read_error evs) ≡ true
  unfolding parse_stream
  ends_once-parse_stream r evs = parse_from-ends_once r (parsing max_tool_input) evs
