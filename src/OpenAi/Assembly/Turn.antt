-- ===== src/OpenAi/Assembly/Turn.antt =====
-- provider/openaicompat/openaicompat.go: the tool calls of a turn whose deltas carry an index.
use rho_llm.Base.{
  ◌∙◌, ℕ, ◌≡◌, refl, ap, sym, subst, Text, is_empty, Bool, true, false, Option, none, some, List,
  [], ◌∷◌, ◌++◌, map, arith, ℤ, Bool-cases, inl, inr, All, append_nil,
}
use rho_llm.Errors.{GoError}
use rho_llm.OpenAi.{
  ToolDelta, ChatEmit, content, thinking, tool_use, done, error_item, Assembling, give_call,
  give_all, emit_all, add_deltas,
}
use rho_llm.OpenAi.Parse.{
  Choice, ChatEvent, skipped, done_line, malformed, chunk, ChatUsage, ChatState, with_usage, deltas,
  capture, on_choice, chat_step, chat_ended, parse_chat_from,
}
use rho_llm.OpenAi.Assembly.{call_for}
use rho_llm.OpenAi.Assembly.Matching.{Matches}

-- The tool calls among the items: their IDs, names and inputs.
unfoldable pub calls_in : List ChatEmit → List (Text × Text × Text)
calls_in [] = []
calls_in (tool_use id name input ∷ es) = (id, name, input) ∷ calls_in es
calls_in (done reason raw input output cached ∷ es) = calls_in es
calls_in (content t ∷ es) = calls_in es
calls_in (thinking t ∷ es) = calls_in es
calls_in (error_item e ∷ es) = calls_in es

-- The call of an index, by the deltas that have it.
abbrev pub whole_call : List ToolDelta → ℤ → Text × Text × Text
whole_call ds i = ((call_for ds i).id, (call_for ds i).name, (call_for ds i).args)

-- The deltas of a line: those of its first choice.
abbrev deltas_of : ChatEvent → List ToolDelta
deltas_of (chunk (c ∷ cs) usage) = c.tool_calls
deltas_of _ = []

-- The deltas of some lines and of a choice after them.
unfoldable pub all_deltas : List ChatEvent → Choice → List ToolDelta
all_deltas [] last = last.tool_calls
all_deltas (ev ∷ evs) last = deltas_of ev ++ all_deltas evs last

-- A line before the last choice: any but the marker of the end and a finish reason.
abbrev pub is_open : ChatEvent → Bool
is_open done_line = false
is_open (chunk (c ∷ cs) usage) = is_empty c.finish_reason
is_open _ = true

calls_in-append : (xs ys : List ChatEmit) → calls_in (xs ++ ys) ≡ calls_in xs ++ calls_in ys
unfolding calls_in
calls_in-append [] ys = refl
calls_in-append (tool_use id name input ∷ xs) ys =
    ap (◌∷◌ (id, name, input)) (calls_in-append xs ys)
calls_in-append (done reason raw input output cached ∷ xs) ys = calls_in-append xs ys
calls_in-append (content t ∷ xs) ys = calls_in-append xs ys
calls_in-append (thinking t ∷ xs) ys = calls_in-append xs ys
calls_in-append (error_item e ∷ xs) ys = calls_in-append xs ys

calls_in-deltas : (c : Choice) → calls_in (deltas c) ≡ []
unfolding calls_in deltas
calls_in-deltas c = ground arith

calls_in-give_all :
    (ds : List ToolDelta) (js : List ℤ) (a : Assembling)
    → calls_in (give_all (map (call_for ds) js) a).0 ≡ map (whole_call ds) js
unfolding calls_in give_all give_call
calls_in-give_all ds [] a = refl
calls_in-give_all ds (j ∷ js) a = ap (◌∷◌ (whole_call ds j)) (calls_in-give_all ds js _)

pub calls_in-emit_all :
    (ds : List ToolDelta) (js : List ℤ) (a : Assembling)
    → Matches ds js a
    → calls_in (emit_all a).0 ≡ map (whole_call ds) js
unfolding emit_all
calls_in-emit_all ds js a m =
    subst (λ cs. calls_in (give_all cs a).0 ≡ map (whole_call ds) js) (sym m.calls)
      (calls_in-give_all ds js a)

-- A line after the last choice: any but a chunk with a choice.
abbrev pub is_trailing : ChatEvent → Bool
is_trailing (chunk (c ∷ cs) usage) = false
is_trailing _ = true

pub with_usage-tools : (u : Option ChatUsage) (s : ChatState) → (with_usage u s).tools ≡ s.tools
with_usage-tools none s = refl
with_usage-tools (some u) s = refl

module _ (provider_name : Text) (limit : ℕ) where
  calls_in-chat_ended :
      (saw_done : Bool) (read_error : Option GoError) (s : ChatState)
      → calls_in (chat_ended provider_name limit saw_done read_error s)
        ≡ calls_in (emit_all s.tools).0
  unfolding chat_ended calls_in
  calls_in-chat_ended saw_done r s =
      calls_in-append (emit_all s.tools).0 _
      ∙ (ground (arith, append_nil (calls_in (emit_all s.tools).0)))

  -- A line that does not parse yields no call and changes no state.
  pub calls_in-malformed :
      (read_error : Option GoError) (s : ChatState) (e : GoError) (evs : List ChatEvent)
      → calls_in (parse_chat_from provider_name limit read_error s (malformed e ∷ evs))
        ≡ calls_in (parse_chat_from provider_name limit read_error s evs)
  unfolding parse_chat_from chat_step calls_in
  calls_in-malformed r s e evs = elim (Bool-cases (is_empty s.finish_reason)) [
    | inl p ↦ rw p refl
    | inr p ↦ rw p refl
  ]

  calls_in-trailing :
      (read_error : Option GoError) (s : ChatState) (evs : List ChatEvent)
      → All (λ ev. is_trailing ev ≡ true) evs
      → calls_in (parse_chat_from provider_name limit read_error s evs)
        ≡ calls_in (emit_all s.tools).0
  unfolding parse_chat_from chat_step
  calls_in-trailing r s [] h = calls_in-chat_ended false r s
  calls_in-trailing r s (skipped ∷ evs) h = calls_in-trailing r s evs h.1
  calls_in-trailing r s (done_line ∷ evs) h = calls_in-chat_ended true none s
  calls_in-trailing r s (chunk [] u ∷ evs) h =
      calls_in-trailing r (with_usage u s) evs h.1
      ∙ ap (λ a. calls_in (emit_all a).0) (with_usage-tools u s)
  calls_in-trailing r s (chunk (c ∷ cs) u ∷ evs) h = cc
  calls_in-trailing r s (malformed e ∷ evs) h =
      calls_in-malformed r s e evs ∙ calls_in-trailing r s evs h.1

  unfoldable pub after_choice :
      Choice → Option ChatUsage → Assembling → ChatState → List ChatEmit × ChatState
  after_choice c u now s = capture c.finish_reason (record (with_usage u s) { tools = now })

  -- A choice whose deltas yield nothing yields its own, and the calls if it is the last.
  chat_step-choice :
      (s : ChatState) (c : Choice) (cs : List Choice) (u : Option ChatUsage) (now : Assembling)
      → add_deltas limit c.tool_calls s.tools ≡ ([], some now)
      → chat_step provider_name limit s (chunk (c ∷ cs) u)
        ≡ (deltas c ++ (after_choice c u now s).0, some (after_choice c u now s).1)
  unfolding chat_step on_choice after_choice
  chat_step-choice s c cs u now e = rw (with_usage-tools u s, e) refl

  pub calls_in-choice :
      (read_error : Option GoError) (s : ChatState) (c : Choice) (cs : List Choice)
      (u : Option ChatUsage) (evs : List ChatEvent) (now : Assembling)
      → add_deltas limit c.tool_calls s.tools ≡ ([], some now)
      → calls_in (parse_chat_from provider_name limit read_error s (chunk (c ∷ cs) u ∷ evs))
        ≡ calls_in (after_choice c u now s).0
          ++ calls_in
              (parse_chat_from provider_name limit read_error (after_choice c u now s).1 evs)
  unfolding parse_chat_from
  calls_in-choice r s c cs u evs now e =
      let out = (after_choice c u now s).0 in
      let rest = parse_chat_from provider_name limit r (after_choice c u now s).1 evs in
      rw
        (
          chat_step-choice s c cs u now e,
          calls_in-append (deltas c ++ out) rest,
          calls_in-append (deltas c) out,
          calls_in-deltas c,
        )
        refl

  pub calls_in-last :
      (read_error : Option GoError) (s : ChatState) (c : Choice) (cs : List Choice)
      (u : Option ChatUsage) (evs : List ChatEvent) (now : Assembling)
      → All (λ ev. is_trailing ev ≡ true) evs
      → add_deltas limit c.tool_calls s.tools ≡ ([], some now)
      → calls_in (parse_chat_from provider_name limit read_error s (chunk (c ∷ cs) u ∷ evs))
        ≡ calls_in (emit_all now).0
  unfolding after_choice capture calls_in emit_all give_all
  calls_in-last r s c cs u evs now h e =
      calls_in-choice r s c cs u evs now e ∙ elim (Bool-cases (is_empty c.finish_reason)) [
        | inl p ↦ rw (calls_in-trailing r (after_choice c u now s).1 evs h, p) refl
        | inr p ↦
            rw (calls_in-trailing r (after_choice c u now s).1 evs h, p)
              (append_nil (calls_in (emit_all now).0))
      ]
