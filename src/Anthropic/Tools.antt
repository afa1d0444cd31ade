-- ===== src/Anthropic/Tools.antt =====
-- provider/anthropic/anthropic.go: the tool calls that parseStream yields.
use rho_llm.Base.{
  append_nil, ℕ, ◌≡◌, refl, ap, Text, text, text_eq, Bool, true, false, ◌||◌, Option, none, some,
  List, [], ◌∷◌, ◌++◌, arith, ℤ, Bool-cases, inl, inr, if◌then◌else◌,
}
use rho_llm.Errors.{GoError}
use rho_llm.Anthropic.{WireBlock}
use rho_llm.Stream.Terminal.{too_long}
use rho_llm.Anthropic.Parse.{
  SseEvent, skipped, done_line, malformed, malformed_block, block_start, text_delta, thinking_delta,
  signature_delta, input_delta, citation_delta, block_stop, message_delta, error_event,
  message_start, Emit, content, thinking, citation, tool_use, server_tool, done, failed, error_item,
  Emits, Parsing, Stepped, fail, flush_tool, flush_server, flush, open_server, begin_block,
  add_input, finish, step, ended, goes_on, is_done_line, parse_from, parse_stream, parsing,
}

-- The tool calls that are yielded, by ID and name, and whether EventDone is.
abbrev pub tool_calls : {Whole Citation : Type 0} → Emits Whole Citation → List (Text × Text)
tool_calls [] = []
tool_calls (tool_use id name input ∷ es) = (id, name) ∷ tool_calls es
tool_calls (done reason raw sig turn ∷ es) = tool_calls es
tool_calls (failed e turn ∷ es) = tool_calls es
tool_calls (content t ∷ es) = tool_calls es
tool_calls (thinking t ∷ es) = tool_calls es
tool_calls (citation c ∷ es) = tool_calls es
tool_calls (server_tool p ∷ es) = tool_calls es
tool_calls (error_item e ∷ es) = tool_calls es

abbrev pub is_done : {Whole Citation : Type 0} → Emit Whole Citation → Bool
is_done (done reason raw sig turn) = true
is_done (failed e turn) = false
is_done (content t) = false
is_done (thinking t) = false
is_done (citation c) = false
is_done (tool_use id name input) = false
is_done (server_tool p) = false
is_done (error_item e) = false

unfoldable pub completes : {Whole Citation : Type 0} → Emits Whole Citation → Bool
completes [] = false
completes (e ∷ es) = is_done e || completes es

-- The tool calls that the server starts before it completes the turn.
unfoldable pub started_calls :
    {Whole Citation : Type 0} → List (SseEvent Whole Citation) → List (Text × Text)
started_calls [] = []
started_calls (message_delta reason container input output ∷ evs) = []
started_calls (error_event e ∷ evs) = []
started_calls (done_line ∷ evs) = []
started_calls (block_start i w ∷ evs) =
    if text_eq w.type_name (text "tool_use")
    then (w.id, w.name) ∷ started_calls evs
    else started_calls evs
started_calls (skipped ∷ evs) = started_calls evs
started_calls (malformed e ∷ evs) = started_calls evs
started_calls (malformed_block e ∷ evs) = started_calls evs
started_calls (text_delta i t ∷ evs) = started_calls evs
started_calls (thinking_delta i t ∷ evs) = started_calls evs
started_calls (signature_delta i t ∷ evs) = started_calls evs
started_calls (input_delta i t ∷ evs) = started_calls evs
started_calls (citation_delta i c ∷ evs) = started_calls evs
started_calls (block_stop i ∷ evs) = started_calls evs
started_calls (message_start model container input output ∷ evs) = started_calls evs

-- The call that is open.
abbrev pending : Option (Text × Text) → List (Text × Text)
pending none = []
pending (some call) = call ∷ []

module _ {Whole Citation : Type 0} (max_tool_input : ℕ) where
  tool_calls-append :
      (xs ys : Emits Whole Citation) → tool_calls (xs ++ ys) ≡ tool_calls xs ++ tool_calls ys
  tool_calls-append [] ys = refl
  tool_calls-append (tool_use id name input ∷ xs) ys = ap (◌∷◌ (id, name)) (tool_calls-append xs ys)
  tool_calls-append (done reason raw sig turn ∷ xs) ys = tool_calls-append xs ys
  tool_calls-append (failed e turn ∷ xs) ys = tool_calls-append xs ys
  tool_calls-append (content t ∷ xs) ys = tool_calls-append xs ys
  tool_calls-append (thinking t ∷ xs) ys = tool_calls-append xs ys
  tool_calls-append (citation c ∷ xs) ys = tool_calls-append xs ys
  tool_calls-append (server_tool p ∷ xs) ys = tool_calls-append xs ys
  tool_calls-append (error_item e ∷ xs) ys = tool_calls-append xs ys

  completes-append :
      (xs ys : Emits Whole Citation) → completes (xs ++ ys) ≡ (completes xs || completes ys)
  unfolding completes
  completes-append [] ys = refl
  completes-append (x ∷ xs) ys = ground (arith, completes-append xs ys)

  completes-fail :
      (e : GoError) (s : Parsing Whole Citation) → completes (fail max_tool_input e s) ≡ false
  unfolding completes fail
  completes-fail e s = ground arith

  -- A flush yields the open call, and leaves none.
  record Flushed (s : Parsing Whole Citation) (r : Emits Whole Citation × Parsing Whole Citation)
      : Type 0 where
    yielded : tool_calls r.0 ≡ pending s.tool
    not_done : completes r.0 ≡ false
    none_open : r.1.tool ≡ none

  flush-Flushed :
      (which : Parsing Whole Citation → Option ℤ) (s : Parsing Whole Citation)
      → Flushed s (flush max_tool_input which s)
  unfolding flush flush_tool flush_server completes
  flush-Flushed which s = record {
    yielded = ground arith;
    not_done = ground arith;
    none_open = ground arith;
  }

  -- What a round keeps, with `evs` the lines after it.
  abbrev Traced :
      Parsing Whole Citation
      → SseEvent Whole Citation
      → List (SseEvent Whole Citation)
      → Stepped Whole Citation
      → Type 0
  Traced s ev evs (emits, none) =
      completes emits ≡ true → tool_calls emits ≡ pending s.tool ++ started_calls (ev ∷ evs)
  Traced s ev evs (emits, some after) =
      (completes emits ≡ false)
      × (tool_calls emits ++ (pending after.tool ++ started_calls evs)
          ≡ pending s.tool ++ started_calls (ev ∷ evs))

  Traced-block_start :
      (s : Parsing Whole Citation) (i : ℤ) (w : WireBlock Whole)
      (evs : List (SseEvent Whole Citation))
      → Traced s (block_start i w) evs (step max_tool_input s (block_start i w))
  unfolding step begin_block completes started_calls
  Traced-block_start s i w evs =
      let f = flush-Flushed (open_server max_tool_input) s in
      let out = (flush max_tool_input (open_server max_tool_input) s).0 in
      let now = (flush max_tool_input (open_server max_tool_input) s).1 in
      let emits = (begin_block max_tool_input i w now).0 in
      (
        ground (arith, completes-append out emits, f.not_done),
        ground (
          arith,
          tool_calls-append out emits,
          f.yielded,
          f.none_open,
          append_nil (pending s.tool),
        ),
      )

  Traced-input_delta :
      (s : Parsing Whole Citation) (i : ℤ) (t : Text) (evs : List (SseEvent Whole Citation))
      → Traced s (input_delta i t) evs (step max_tool_input s (input_delta i t))
  unfolding step add_input completes started_calls
  Traced-input_delta s i t evs = ground (arith, completes-fail (too_long max_tool_input) s)

  Traced-message_delta :
      (s : Parsing Whole Citation) (reason : Text) (container : Option Text) (input output : ℤ)
      (evs : List (SseEvent Whole Citation))
      → Traced s
          (message_delta reason container input output)
          evs
          (step max_tool_input s (message_delta reason container input output))
  unfolding step finish started_calls
  Traced-message_delta s reason container input output evs c =
      let f = flush-Flushed (open_server max_tool_input) s in
      let out = (flush max_tool_input (open_server max_tool_input) s).0 in
      let now = (flush max_tool_input (open_server max_tool_input) s).1 in
      cc
        (tool_calls-append out (finish max_tool_input reason container input output now), f.yielded)

  step-Traced :
      (s : Parsing Whole Citation) (ev : SseEvent Whole Citation)
      (evs : List (SseEvent Whole Citation))
      → is_done_line ev ≡ false
      → Traced s ev evs (step max_tool_input s ev)
  unfolding step completes started_calls
  step-Traced s skipped evs n = (refl, refl)
  step-Traced s done_line evs n = cc
  step-Traced s (malformed e) evs n = (refl, refl)
  step-Traced s (malformed_block e) evs n = (refl, refl)
  step-Traced s (block_start i w) evs n = Traced-block_start s i w evs
  step-Traced s (text_delta i t) evs n = (refl, refl)
  step-Traced s (thinking_delta i t) evs n = (refl, refl)
  step-Traced s (signature_delta i t) evs n = (refl, refl)
  step-Traced s (input_delta i t) evs n = Traced-input_delta s i t evs
  step-Traced s (citation_delta i none) evs n = (refl, refl)
  step-Traced s (citation_delta i (some c)) evs n = (refl, refl)
  step-Traced s (block_stop i) evs n =
      let f = flush-Flushed (λ _. some i) s in (f.not_done, cc (f.yielded, f.none_open))
  step-Traced s (message_delta reason container input output) evs n =
      Traced-message_delta s reason container input output evs
  step-Traced s (error_event e) evs n = λ c. cc (completes-fail e s)
  step-Traced s (message_start model container input output) evs n = (refl, refl)

  goes_on-Traced :
      (s : Parsing Whole Citation) (ev : SseEvent Whole Citation)
      (evs : List (SseEvent Whole Citation)) (r : Stepped Whole Citation)
      (next : Parsing Whole Citation → Emits Whole Citation)
      → Traced s ev evs r
      → ((a : Parsing Whole Citation)
          → completes (next a) ≡ true
          → tool_calls (next a) ≡ pending a.tool ++ started_calls evs)
      → completes (r.0 ++ goes_on max_tool_input r.1 next) ≡ true
      → tool_calls (r.0 ++ goes_on max_tool_input r.1 next)
        ≡ pending s.tool ++ started_calls (ev ∷ evs)
  goes_on-Traced s ev evs (emits, none) next t h c =
      rw (append_nil emits) (t (rw (append_nil emits) at c))
  goes_on-Traced s ev evs (emits, some a) next (n, e) h c =
      let later : completes (next a) ≡ true = ground (arith, completes-append emits (next a)) in
      cc (tool_calls-append emits (next a), h a later, e)

  parse_from-tool_calls :
      (read_error : Option GoError) (s : Parsing Whole Citation)
      (evs : List (SseEvent Whole Citation))
      → completes (parse_from max_tool_input read_error s evs) ≡ true
      → tool_calls (parse_from max_tool_input read_error s evs)
        ≡ pending s.tool ++ started_calls evs
  unfolding parse_from ended
  parse_from-tool_calls none s [] c = cc (completes-fail _ s)
  parse_from-tool_calls (some e) s [] c = cc (completes-fail _ s)
  parse_from-tool_calls r s (ev ∷ evs) c = elim (Bool-cases (is_done_line ev)) [
    | inl p ↦
        let d : completes (ended max_tool_input none s) ≡ true = rw p at c in
        cc (completes-fail _ s)
    | inr p ↦ rw p (
        goes_on-Traced s ev evs (step max_tool_input s ev) _ (step-Traced s ev evs p)
          (λ a. parse_from-tool_calls r a evs) (rw p at c))
  ]

  -- When parseStream completes a turn with EventDone, it has yielded exactly the tool calls that the
  -- server had started by then, in their order, each once, also where the end of a call's block is
  -- missing.
  pub tool_calls-parse_stream :
      (read_error : Option GoError) (evs : List (SseEvent Whole Citation))
      → completes (parse_stream max_tool_input read_error evs) ≡ true
      → tool_calls (parse_stream max_tool_input read_error evs) ≡ started_calls evs
  unfolding parse_stream
  tool_calls-parse_stream r evs c = parse_from-tool_calls r (parsing max_tool_input) evs c
