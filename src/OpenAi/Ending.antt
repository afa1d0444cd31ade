-- ===== src/OpenAi/Ending.antt =====
-- provider/openaicompat/openaicompat.go: how the stream of parseStream ends.
use rho_llm.Base.{
  ℕ, ◌≡◌, refl, Text, Bool, true, false, Option, none, some, List, [], ◌∷◌, ◌++◌, arith, ℤ,
  Bool-cases, inl, inr,
}
use rho_llm.Errors.{GoError}
use rho_llm.Stream.Terminal.{
  ends_once, none_final, ends_once-append, none_final-append, Rounded, Rounded-behind, Rounded-bind,
  Rounded-ends_once,
}
use rho_llm.OpenAi.{
  ToolDelta, ChatEmit, content, thinking, tool_use, done, error_item, StreamingCall, Assembling,
  give_call, emit_at, emit_call, give_all, emit_all, start_at, find_indexed, find_call,
  continue_call, add_delta, add_deltas,
}
use rho_llm.OpenAi.Parse.{
  Choice, ChatEvent, skipped, done_line, malformed, chunk, ChatState, chat_state, with_usage,
  deltas, capture, on_choice, chat_step, chat_ended, ends_loop, then_chat, parse_chat_from,
  parse_chat,
}

-- EventDone, which is the only item that ends the turn without an error.
abbrev pub is_done : ChatEmit → Bool
is_done (done reason raw input output cached) = true
is_done (content t) = false
is_done (thinking t) = false
is_done (tool_use id name input) = false
is_done (error_item e) = false

abbrev pub is_failure : ChatEmit → Bool
is_failure (error_item e) = true
is_failure (done reason raw input output cached) = false
is_failure (content t) = false
is_failure (thinking t) = false
is_failure (tool_use id name input) = false

abbrev Quiet : List ChatEmit → Type 0
Quiet es = none_final is_done is_failure es ≡ true

abbrev Round : {S : Type 0} → List ChatEmit × Option S → Type 0
Round r = Rounded is_done is_failure r

Quiet-append : (xs ys : List ChatEmit) → Quiet xs → Quiet ys → Quiet (xs ++ ys)
Quiet-append xs ys p q = none_final-append is_done is_failure xs ys p q

give_call-Quiet : (c : StreamingCall) (a : Assembling) → Quiet (give_call c a).0
unfolding give_call none_final
give_call-Quiet c a = ground arith

give_all-Quiet : (cs : List StreamingCall) (a : Assembling) → Quiet (give_all cs a).0
unfolding give_all none_final
give_all-Quiet [] a = refl
give_all-Quiet (c ∷ cs) a =
    Quiet-append (give_call c a).0 _ (give_call-Quiet c a) (give_all-Quiet cs (give_call c a).1)

emit_all-Quiet : (a : Assembling) → Quiet (emit_all a).0
unfolding emit_all
emit_all-Quiet a = give_all-Quiet a.calls a

emit_call-Quiet : (k : ℕ) (a : Assembling) → Quiet (emit_call k a).0
unfolding emit_call emit_at give_call none_final
emit_call-Quiet k a = ground arith

find_indexed-Quiet :
    (found : Option ℕ) (i : ℤ) (tc : ToolDelta) (a : Assembling)
    → Quiet (find_indexed found i tc a).0
unfolding find_indexed start_at none_final
find_indexed-Quiet none i tc a = refl
find_indexed-Quiet (some k) i tc a = ground (arith, emit_call-Quiet k a)

find_call-Quiet :
    (index : Option ℤ) (tc : ToolDelta) (a : Assembling) → Quiet (find_call index tc a).0
unfolding find_call none_final
find_call-Quiet (some i) tc a = find_indexed-Quiet (a.by_index i) i tc a
find_call-Quiet none tc a = ground (arith, emit_all-Quiet a)

module _ (limit : ℕ) where
  continue_call-Round :
      (found : Option ℕ) (tc : ToolDelta) (a : Assembling) → Round (continue_call limit found tc a)
  unfolding continue_call Rounded ends_once none_final
  continue_call-Round none tc a = refl
  continue_call-Round (some k) tc a = ground arith

  add_delta-Round : (tc : ToolDelta) (a : Assembling) → Round (add_delta limit tc a)
  unfolding add_delta
  add_delta-Round tc a =
      let found = find_call tc.index tc a in
      Rounded-behind is_done is_failure found.0 _ (find_call-Quiet tc.index tc a)
        (continue_call-Round found.2 tc found.1)

  add_deltas-Round : (tcs : List ToolDelta) (a : Assembling) → Round (add_deltas limit tcs a)
  unfolding add_deltas Rounded none_final
  add_deltas-Round [] a = refl
  add_deltas-Round (tc ∷ tcs) a =
      Rounded-bind is_done is_failure (add_delta limit tc a) _ (add_delta-Round tc a)
        (add_deltas-Round tcs)

deltas-Quiet : (c : Choice) → Quiet (deltas c)
unfolding deltas none_final
deltas-Quiet c = ground arith

capture-Quiet : (reason : Text) (s : ChatState) → Quiet (capture reason s).0
unfolding capture none_final
capture-Quiet reason s = ground (arith, emit_all-Quiet s.tools)

on_choice-Round : (limit : ℕ) (c : Choice) (s : ChatState) → Round (on_choice limit c s)
unfolding on_choice Rounded
on_choice-Round limit c s = Rounded-behind is_done is_failure (deltas c) _ (deltas-Quiet c) (
    Rounded-bind is_done is_failure (add_deltas limit c.tool_calls s.tools) _
      (add_deltas-Round limit c.tool_calls s.tools)
      (λ now. capture-Quiet c.finish_reason (record s { tools = now })))

module _ (provider_name : Text) (limit : ℕ) where
  chat_step-Round : (s : ChatState) (ev : ChatEvent) → Round (chat_step provider_name limit s ev)
  unfolding chat_step Rounded none_final
  chat_step-Round s skipped = refl
  chat_step-Round s done_line = refl
  chat_step-Round s (malformed e) = ground arith
  chat_step-Round s (chunk [] usage) = refl
  chat_step-Round s (chunk (c ∷ cs) usage) = on_choice-Round limit c (with_usage usage s)

  ends_once-chat_ended :
      (saw_done : Bool) (read_error : Option GoError) (s : ChatState)
      → ends_once is_done is_failure (chat_ended provider_name limit saw_done read_error s) ≡ true
  unfolding chat_ended ends_once
  ends_once-chat_ended saw_done read_error s =
      ends_once-append is_done is_failure (emit_all s.tools).0 _ (emit_all-Quiet s.tools)
        (ground arith)

  ends_once-parse_chat_from :
      (read_error : Option GoError) (s : ChatState) (evs : List ChatEvent)
      → ends_once is_done is_failure (parse_chat_from provider_name limit read_error s evs) ≡ true
  unfolding parse_chat_from
  ends_once-parse_chat_from r s [] = ends_once-chat_ended false r s
  ends_once-parse_chat_from r s (ev ∷ evs) = elim (Bool-cases (ends_loop ev)) [
    | inl p ↦ rw p (ends_once-chat_ended true none s)
    | inr p ↦ rw p (
        Rounded-ends_once is_done is_failure (chat_step provider_name limit s ev)
          (λ o. then_chat o (λ s'. parse_chat_from provider_name limit r s' evs))
          (chat_step-Round s ev) refl (λ s'. ends_once-parse_chat_from r s' evs))
  ]

  -- Whatever lines the server sends, parseStream yields one EventDone or one error at its end, and no
  -- EventDone before it.
  pub ends_once-parse_chat :
      (read_error : Option GoError) (evs : List ChatEvent)
      → ends_once is_done is_failure (parse_chat provider_name limit read_error evs) ≡ true
  unfolding parse_chat
  ends_once-parse_chat r evs = ends_once-parse_chat_from r chat_state evs
