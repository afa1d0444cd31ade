-- ===== src/Gemini/Ending.antt =====
-- provider/gemini/gemini.go: how the stream of parseStream ends.
use rho_llm.Base.{ℕ, ◌≡◌, refl, Text, Bool, true, false, Option, none, some, List, [], ◌∷◌, arith}
use rho_llm.Errors.{GoError}
use rho_llm.Stream.Terminal.{
  ends_once, none_final, Rounded, Rounded-behind, Rounded-bind, Rounded-ends_once,
}
use rho_llm.Gemini.{
  GeminiPart, GeminiEvent, skipped, malformed, response, GeminiEmit, content, thinking, tool_use,
  done, error_item, GeminiState, gemini_state, with_metadata, part_text, done_of, part_call,
  add_parts, finish_candidate, gemini_step, gemini_ended, then_gemini, parse_gemini_from,
  parse_gemini,
}

-- EventDone, which is the only item that ends the turn without an error.
abbrev pub is_gemini_done : GeminiEmit → Bool
is_gemini_done (done reason raw input output thoughts cached) = true
is_gemini_done (content t) = false
is_gemini_done (thinking t) = false
is_gemini_done (tool_use id name args signature) = false
is_gemini_done (error_item e) = false

abbrev pub is_gemini_failure : GeminiEmit → Bool
is_gemini_failure (error_item e) = true
is_gemini_failure (done reason raw input output thoughts cached) = false
is_gemini_failure (content t) = false
is_gemini_failure (thinking t) = false
is_gemini_failure (tool_use id name args signature) = false

abbrev Round : List GeminiEmit × Option GeminiState → Type 0
Round r = Rounded is_gemini_done is_gemini_failure r

part_text-quiet :
    (p : GeminiPart) → none_final is_gemini_done is_gemini_failure (part_text p) ≡ true
unfolding part_text none_final
part_text-quiet p = ground arith

module _ (limit : ℕ) where
  part_call-Round :
      (c : Option (Text × Text)) (signature : Text) (s : GeminiState)
      → Round (part_call limit c signature s)
  unfolding part_call Rounded ends_once none_final
  part_call-Round none signature s = refl
  part_call-Round (some (name, args)) signature s = ground arith

  add_parts-Round : (ps : List GeminiPart) (s : GeminiState) → Round (add_parts limit ps s)
  unfolding add_parts Rounded none_final
  add_parts-Round [] s = refl
  add_parts-Round (p ∷ ps) s =
      Rounded-behind is_gemini_done is_gemini_failure (part_text p) _ (part_text-quiet p) (
        Rounded-bind is_gemini_done is_gemini_failure
          (part_call limit p.function_call p.thought_signature s) _
          (part_call-Round p.function_call p.thought_signature s) (add_parts-Round ps))

  finish_candidate-Round :
      (reason : Text) (s : GeminiState) → Round (finish_candidate limit reason s)
  unfolding finish_candidate Rounded ends_once none_final done_of
  finish_candidate-Round reason s = ground arith

  gemini_step-Round : (s : GeminiState) (ev : GeminiEvent) → Round (gemini_step limit s ev)
  unfolding gemini_step Rounded none_final
  gemini_step-Round s skipped = refl
  gemini_step-Round s (malformed e) = refl
  gemini_step-Round s (response [] usage) = refl
  gemini_step-Round s (response (c ∷ cs) usage) =
      Rounded-bind is_gemini_done is_gemini_failure
        (add_parts limit c.parts_of (with_metadata usage s)) _
        (add_parts-Round c.parts_of (with_metadata usage s))
        (finish_candidate-Round c.finish_reason)

  ends_once-parse_gemini_from :
      (read_error : Option GoError) (s : GeminiState) (evs : List GeminiEvent)
      → ends_once is_gemini_done is_gemini_failure (parse_gemini_from limit read_error s evs) ≡ true
  unfolding parse_gemini_from gemini_ended ends_once
  ends_once-parse_gemini_from none s [] = refl
  ends_once-parse_gemini_from (some e) s [] = refl
  ends_once-parse_gemini_from r s (ev ∷ evs) =
      Rounded-ends_once is_gemini_done is_gemini_failure (gemini_step limit s ev)
        (λ o. then_gemini limit o (λ s'. parse_gemini_from limit r s' evs)) (gemini_step-Round s ev)
        refl (λ s'. ends_once-parse_gemini_from r s' evs)

  -- Whatever lines the server sends, parseStream yields one EventDone or one error at its end, and no
  -- EventDone before it.
  pub ends_once-parse_gemini :
      (read_error : Option GoError) (evs : List GeminiEvent)
      → ends_once is_gemini_done is_gemini_failure (parse_gemini limit read_error evs) ≡ true
  unfolding parse_gemini
  ends_once-parse_gemini r evs = ends_once-parse_gemini_from r gemini_state evs
