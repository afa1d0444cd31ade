-- ===== src/Anthropic/Inputs.antt =====
-- provider/anthropic/anthropic.go: the size of the tool inputs that parseStream yields.
use rho_llm.Base.{
  append_nil, ℕ, ◌≡◌, ◌≤◌, refl, Bool, true, ◌&&◌, Option, none, some, List, [], ◌∷◌, ◌++◌, arith,
  ℤ, Bool-cases, inl, inr, length, length-append, leb,
}
use rho_llm.Errors.{GoError}
use rho_llm.Stream.Terminal.{too_long}
use rho_llm.Anthropic.Parse.{
  SseEvent, skipped, done_line, malformed, malformed_block, block_start, text_delta, thinking_delta,
  signature_delta, input_delta, citation_delta, block_stop, message_delta, error_event,
  message_start, content, thinking, citation, tool_use, server_tool, done, failed, error_item,
  Emits, Parsing, Stepped, fail, flush_tool, flush_server, flush, open_server, begin_block,
  add_input, finish, step, ended, goes_on, is_done_line, parse_from, parse_stream, parsing,
}

-- Every tool call's input is at most so long.
unfoldable pub inputs_fit : {Whole Citation : Type 0} → ℕ → Emits Whole Citation → Bool
inputs_fit limit [] = true
inputs_fit limit (tool_use id name input ∷ es) = leb (length input) limit && inputs_fit limit es
inputs_fit limit (done reason raw sig turn ∷ es) = inputs_fit limit es
inputs_fit limit (failed e turn ∷ es) = inputs_fit limit es
inputs_fit limit (content t ∷ es) = inputs_fit limit es
inputs_fit limit (thinking t ∷ es) = inputs_fit limit es
inputs_fit limit (citation c ∷ es) = inputs_fit limit es
inputs_fit limit (server_tool p ∷ es) = inputs_fit limit es
inputs_fit limit (error_item e ∷ es) = inputs_fit limit es

module _ {Whole Citation : Type 0} (limit : ℕ) where
  inputs_fit-append :
      (xs ys : Emits Whole Citation)
      → inputs_fit limit (xs ++ ys) ≡ (inputs_fit limit xs && inputs_fit limit ys)
  unfolding inputs_fit
  inputs_fit-append [] ys = refl
  inputs_fit-append (tool_use id name input ∷ xs) ys = ground (arith, inputs_fit-append xs ys)
  inputs_fit-append (done reason raw sig turn ∷ xs) ys = inputs_fit-append xs ys
  inputs_fit-append (failed e turn ∷ xs) ys = inputs_fit-append xs ys
  inputs_fit-append (content t ∷ xs) ys = inputs_fit-append xs ys
  inputs_fit-append (thinking t ∷ xs) ys = inputs_fit-append xs ys
  inputs_fit-append (citation c ∷ xs) ys = inputs_fit-append xs ys
  inputs_fit-append (server_tool p ∷ xs) ys = inputs_fit-append xs ys
  inputs_fit-append (error_item e ∷ xs) ys = inputs_fit-append xs ys

  -- A round's yields fit, and so does the buffer it leaves.
  record Fits (r : Emits Whole Citation × Parsing Whole Citation) : Type 0 where
    yields_fit : inputs_fit limit r.0 ≡ true
    buffer_fits : length r.1.buffer ≤ limit

  abbrev StepFits : Stepped Whole Citation → Type 0
  StepFits (emits, none) = inputs_fit limit emits ≡ true
  StepFits (emits, some s) = (inputs_fit limit emits ≡ true) × (length s.buffer ≤ limit)

  flush-Fits :
      (which : Parsing Whole Citation → Option ℤ) (s : Parsing Whole Citation)
      → length s.buffer ≤ limit
      → Fits (flush limit which s)
  unfolding flush flush_tool flush_server inputs_fit
  flush-Fits which s h = record { yields_fit = ground arith; buffer_fits = ground arith }

  fail-Fits : (e : GoError) (s : Parsing Whole Citation) → inputs_fit limit (fail limit e s) ≡ true
  unfolding fail inputs_fit
  fail-Fits e s = ground arith

  step-StepFits :
      (s : Parsing Whole Citation) (ev : SseEvent Whole Citation)
      → length s.buffer ≤ limit
      → StepFits (step limit s ev)
  unfolding step begin_block add_input finish inputs_fit
  step-StepFits s skipped h = (refl, h)
  step-StepFits s done_line h = (refl, h)
  step-StepFits s (malformed e) h = (refl, h)
  step-StepFits s (malformed_block e) h = (refl, h)
  step-StepFits s (block_start i w) h =
      let f = flush-Fits (open_server limit) s h in
      let out = (flush limit (open_server limit) s).0 in
      let now = (flush limit (open_server limit) s).1 in
      let emits = (begin_block limit i w now).0 in
      (ground (arith, inputs_fit-append out emits, f.yields_fit), ground (arith, f.buffer_fits))
  step-StepFits s (text_delta i t) h = (refl, h)
  step-StepFits s (thinking_delta i t) h = (refl, h)
  step-StepFits s (signature_delta i t) h = (refl, h)
  step-StepFits s (input_delta i t) h =
      ground (arith, fail-Fits (too_long limit) s, length-append s.buffer t)
  step-StepFits s (citation_delta i none) h = (refl, h)
  step-StepFits s (citation_delta i (some c)) h = (refl, h)
  step-StepFits s (block_stop i) h =
      let f = flush-Fits (λ _. some i) s h in (f.yields_fit, f.buffer_fits)
  step-StepFits s (message_delta reason container input output) h =
      let f = flush-Fits (open_server limit) s h in
      let out = (flush limit (open_server limit) s).0 in
      let now = (flush limit (open_server limit) s).1 in
      ground (
        arith,
        inputs_fit-append out (finish limit reason container input output now),
        f.yields_fit,
      )
  step-StepFits s (error_event e) h = fail-Fits e s
  step-StepFits s (message_start model container input output) h = (refl, h)

  goes_on-Fits :
      (r : Stepped Whole Citation) (next : Parsing Whole Citation → Emits Whole Citation)
      → StepFits r
      → ((s : Parsing Whole Citation) → length s.buffer ≤ limit → inputs_fit limit (next s) ≡ true)
      → inputs_fit limit (r.0 ++ goes_on limit r.1 next) ≡ true
  goes_on-Fits (emits, none) next p h = rw (append_nil emits) p
  goes_on-Fits (emits, some s) next (p, q) h =
      ground (arith, inputs_fit-append emits (next s), h s q)

  parse_from-Fits :
      (read_error : Option GoError) (s : Parsing Whole Citation)
      (evs : List (SseEvent Whole Citation))
      → length s.buffer ≤ limit
      → inputs_fit limit (parse_from limit read_error s evs) ≡ true
  unfolding parse_from ended
  parse_from-Fits none s [] h = fail-Fits _ s
  parse_from-Fits (some e) s [] h = fail-Fits _ s
  parse_from-Fits r s (ev ∷ evs) h = elim (Bool-cases (is_done_line ev)) [
    | inl p ↦ rw p (fail-Fits _ s)
    | inr p ↦
        rw p (
          goes_on-Fits (step limit s ev) _ (step-StepFits s ev h)
            (λ a q. parse_from-Fits r a evs q))
  ]

  -- No tool call that parseStream yields has an input longer than the limit.
  pub inputs_fit-parse_stream :
      (read_error : Option GoError) (evs : List (SseEvent Whole Citation))
      → inputs_fit limit (parse_stream limit read_error evs) ≡ true
  unfolding parse_stream
  inputs_fit-parse_stream r evs = parse_from-Fits r (parsing limit) evs (omega arith)
