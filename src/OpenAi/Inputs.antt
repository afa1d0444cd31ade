-- ===== src/OpenAi/Inputs.antt =====
-- provider/openaicompat/openaicompat.go: the size of the tool inputs that parseStream yields.
use rho_llm.Base.{
  ℕ, refl, Text, Bool, true, false, Option, none, some, List, [], ◌∷◌, arith, Bool-cases, inl, inr,
  All, All-append, is_empty,
}
use rho_llm.Errors.{GoError}
use rho_llm.Stream.Keeping.{Keeps, Keeps-behind, Keeps-bind, Keeps-goes_on}
use rho_llm.OpenAi.{assembling, emit_all, add_deltas}
use rho_llm.OpenAi.Pending.{Fits, all_held, PendingOption, Kept, emit_all-Kept}
use rho_llm.OpenAi.Pending.Deltas.{add_deltas-Keeps}
use rho_llm.OpenAi.Parse.{
  Choice, ChatEvent, skipped, done_line, malformed, chunk, ChatUsage, ChatState, chat_state,
  with_usage, deltas, capture, on_choice, chat_step, chat_ended, ends_loop, then_chat,
  parse_chat_from, parse_chat,
}

deltas-Fits : (limit : ℕ) (c : Choice) → All (Fits limit) (deltas c)
unfolding deltas
deltas-Fits limit c = ground arith

module _ (limit : ℕ) where
  abbrev Ready : ChatState → Type 0
  Ready s = Kept limit s.tools

  capture-Fits :
      (reason : Text) (s : ChatState)
      → Ready s
      → All (Fits limit) (capture reason s).0 × Ready (capture reason s).1
  unfolding capture
  capture-Fits reason s h = elim (Bool-cases (is_empty reason)) [
    | inl p ↦ rw p (tt, h)
    | inr p ↦ rw p (emit_all-Kept limit s.tools h.filed)
  ]

  on_choice-Keeps :
      (c : Choice) (s : ChatState) → Ready s → Keeps (Fits limit) Ready (on_choice limit c s)
  unfolding on_choice Keeps
  on_choice-Keeps c s h = Keeps-behind (Fits limit) Ready (deltas c) _ (deltas-Fits limit c) (
      Keeps-bind (Fits limit) (Kept limit) Ready (add_deltas limit c.tool_calls s.tools) _
        (add_deltas-Keeps limit c.tool_calls s.tools h)
        (λ now k. capture-Fits c.finish_reason (record s { tools = now }) k))

  with_usage-Ready : (u : Option ChatUsage) (s : ChatState) → Ready s → Ready (with_usage u s)
  with_usage-Ready none s h = h
  with_usage-Ready (some u) s h = h

  assembling-Kept : Kept limit assembling
  unfolding all_held PendingOption
  assembling-Kept = record {
    filed = record {
      counted = refl;
      within = omega arith;
      indexed = λ i k e. cc;
      distinct = λ i j k e f. cc;
    };
    followed = tt;
  }

module _ (provider_name : Text) (limit : ℕ) where
  chat_step-Keeps :
      (s : ChatState) (ev : ChatEvent)
      → Ready limit s
      → Keeps (Fits limit) (Ready limit) (chat_step provider_name limit s ev)
  unfolding chat_step Keeps
  chat_step-Keeps s skipped h = (tt, h)
  chat_step-Keeps s done_line h = (tt, h)
  chat_step-Keeps s (malformed e) h = elim (Bool-cases (is_empty s.finish_reason)) [
    | inl p ↦ rw p ((omega arith, tt), h)
    | inr p ↦ rw p (tt, h)
  ]
  chat_step-Keeps s (chunk [] usage) h = (tt, with_usage-Ready limit usage s h)
  chat_step-Keeps s (chunk (c ∷ cs) usage) h =
      on_choice-Keeps limit c (with_usage usage s) (with_usage-Ready limit usage s h)

  chat_ended-Fits :
      (saw_done : Bool) (read_error : Option GoError) (s : ChatState)
      → Ready limit s
      → All (Fits limit) (chat_ended provider_name limit saw_done read_error s)
  unfolding chat_ended
  chat_ended-Fits saw_done read_error s h =
      All-append (Fits limit) (emit_all s.tools).0 _ (emit_all-Kept limit s.tools h.filed).0
        (ground arith)

  parse_chat_from-Fits :
      (read_error : Option GoError) (s : ChatState) (evs : List ChatEvent)
      → Ready limit s
      → All (Fits limit) (parse_chat_from provider_name limit read_error s evs)
  unfolding parse_chat_from
  parse_chat_from-Fits r s [] h = chat_ended-Fits false r s h
  parse_chat_from-Fits r s (ev ∷ evs) h = elim (Bool-cases (ends_loop ev)) [
    | inl p ↦ rw p (chat_ended-Fits true none s h)
    | inr p ↦ rw p (
        Keeps-goes_on (Fits limit) (Ready limit) (chat_step provider_name limit s ev)
          (λ o. then_chat o (λ s'. parse_chat_from provider_name limit r s' evs))
          (chat_step-Keeps s ev h) refl (λ s' k. parse_chat_from-Fits r s' evs k))
  ]

  -- No tool call that parseStream yields has an input longer than the limit.
  pub parse_chat-Fits :
      (read_error : Option GoError) (evs : List ChatEvent)
      → All (Fits limit) (parse_chat provider_name limit read_error evs)
  unfolding parse_chat
  parse_chat-Fits r evs = parse_chat_from-Fits r chat_state evs (assembling-Kept limit)
