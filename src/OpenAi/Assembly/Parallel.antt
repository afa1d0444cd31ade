-- ===== src/OpenAi/Assembly/Parallel.antt =====
-- provider/openaicompat/openaicompat.go: a whole turn of parallel tool calls.
use rho_llm.Base.{
  ◌∙◌, ℕ, ◌≡◌, ◌≤◌, refl, sym, subst, Text, true, Option, List, [], ◌∷◌, ◌++◌, map, arith, ℤ, All,
  All-append, append_assoc,
}
use rho_llm.Errors.{GoError}
use rho_llm.OpenAi.{ToolDelta}
use rho_llm.OpenAi.Parse.{
  Choice, ChatEvent, skipped, done_line, malformed, chunk, ChatUsage, ChatState, chat_state,
  with_usage, capture, chat_step, parse_chat_from, parse_chat,
}
use rho_llm.OpenAi.Assembly.{
  position, indexes, total, Tagged, deltas_at, tag, add_index, total-append_list,
}
use rho_llm.OpenAi.Assembly.Matching.{Matches}
use rho_llm.OpenAi.Assembly.Steps.{add_deltas-Added}
use rho_llm.OpenAi.Assembly.Turn.{
  calls_in, whole_call, all_deltas, is_open, is_trailing, calls_in-emit_all, with_usage-tools,
  after_choice, calls_in-malformed, calls_in-choice, calls_in-last,
}

indexes-append :
    (js : List ℤ) (ds es : List ToolDelta) → indexes js (ds ++ es) ≡ indexes (indexes js ds) es
unfolding indexes
indexes-append js [] es = refl
indexes-append js (d ∷ ds) es = indexes-append (add_index (position (tag d) js) (tag d) js) ds es

All-append_inv :
    {A : Type 0} (P : A → Type 0) (xs ys : List A) → All P (xs ++ ys) → All P xs × All P ys
All-append_inv P [] ys h = (tt, h)
All-append_inv P (x ∷ xs) ys h = let rest = All-append_inv P xs ys h.1 in ((h.0, rest.0), rest.1)

module _ (provider_name : Text) (limit : ℕ) (ids : ℤ → Text) where
  calls_in-parallel_from :
      (read_error : Option GoError) (s : ChatState) (ds : List ToolDelta) (js : List ℤ)
      (before : List ChatEvent) (c : Choice) (cs : List Choice) (u : Option ChatUsage)
      (after : List ChatEvent)
      → Matches ds js s.tools
      → All (Tagged ids) ds
      → All (Tagged ids) (all_deltas before c)
      → All (λ ev. is_open ev ≡ true) before
      → All (λ ev. is_trailing ev ≡ true) after
      → total (ds ++ (all_deltas before c)) ≤ limit
      → calls_in
          (parse_chat_from provider_name limit read_error s (before ++ (chunk (c ∷ cs) u ∷ after)))
        ≡ map (whole_call (ds ++ (all_deltas before c))) (indexes js (all_deltas before c))
  unfolding all_deltas after_choice capture calls_in parse_chat_from chat_step
  calls_in-parallel_from r s ds js [] c cs u after m h k o t w =
      let added = add_deltas-Added limit ids ds js s.tools c.tool_calls m h k w in
      calls_in-last provider_name limit r s c cs u after added.state t added.quiet
      ∙ calls_in-emit_all (ds ++ c.tool_calls) _ added.state added.matches
  calls_in-parallel_from r s ds js (skipped ∷ before) c cs u after m h k o t w =
      calls_in-parallel_from r s ds js before c cs u after m h k o.1 t w
  calls_in-parallel_from r s ds js (done_line ∷ before) c cs u after m h k o t w = cc
  calls_in-parallel_from r s ds js (malformed e ∷ before) c cs u after m h k o t w =
      calls_in-malformed provider_name limit r s e (before ++ (chunk (c ∷ cs) u ∷ after))
      ∙ calls_in-parallel_from r s ds js before c cs u after m h k o.1 t w
  calls_in-parallel_from r s ds js (chunk [] v ∷ before) c cs u after m h k o t w =
      calls_in-parallel_from r (with_usage v s) ds js before c cs u after
        (subst (Matches ds js) (sym (with_usage-tools v s)) m) h k o.1 t w
  calls_in-parallel_from r s ds js (chunk (b ∷ bs) v ∷ before) c cs u after m h k o t w =
      let own = All-append_inv (Tagged ids) b.tool_calls (all_deltas before c) k in
      let fits : total (ds ++ b.tool_calls) ≤ limit = omega (
        arith,
        w,
        total-append_list ds (b.tool_calls ++ all_deltas before c),
        total-append_list ds b.tool_calls,
        total-append_list b.tool_calls (all_deltas before c),
      ) in
      let added = add_deltas-Added limit ids ds js s.tools b.tool_calls m h own.0 fits in
      let more = ds ++ b.tool_calls in
      let now : ChatState = record (with_usage v s) { tools = added.state } in
      let tail =
        calls_in-parallel_from r now more (indexes js b.tool_calls) before c cs u after
          added.matches (All-append (Tagged ids) ds b.tool_calls h own.0) own.1 o.1 t
          (rw (append_assoc ds b.tool_calls (all_deltas before c)) w) in
      calls_in-choice provider_name limit r s b bs v (before ++ (chunk (c ∷ cs) u ∷ after))
        added.state added.quiet
      ∙ rw
          (
            o.0,
            tail,
            append_assoc ds b.tool_calls (all_deltas before c),
            indexes-append js b.tool_calls (all_deltas before c),
          )
          refl

  -- A turn whose tool deltas all carry an index, and no ID but the one of their index: parseStream
  -- yields one tool call per index, in the order of their first deltas, whose ID and name are the
  -- first that are not empty and whose input is the index's arguments in their order, however the
  -- deltas of the calls interleave and wherever the lines split them. Blank lines, lines that do not
  -- parse and chunks without a choice may stand anywhere between; of a chunk with several choices
  -- the first counts. All arguments together fit the limit, only the last chunk with a choice may
  -- have a finish reason, and the marker of the end does not come before it.
  pub calls_in-parse_chat :
      (read_error : Option GoError) (before : List ChatEvent) (c : Choice) (cs : List Choice)
      (u : Option ChatUsage) (after : List ChatEvent)
      → All (Tagged ids) (all_deltas before c)
      → All (λ ev. is_open ev ≡ true) before
      → All (λ ev. is_trailing ev ≡ true) after
      → total (all_deltas before c) ≤ limit
      → calls_in (parse_chat provider_name limit read_error (before ++ (chunk (c ∷ cs) u ∷ after)))
        ≡ map (whole_call (all_deltas before c)) (indexes [] (all_deltas before c))
  unfolding parse_chat position total deltas_at
  calls_in-parse_chat r before c cs u after k o t w =
      calls_in-parallel_from r chat_state [] [] before c cs u after
        (record {
          calls = refl;
          indexed = λ i. refl;
          pending = refl;
          distinct = tt;
          unseen = λ i h. refl;
        })
        tt k o t w
