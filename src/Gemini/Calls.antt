-- ===== src/Gemini/Calls.antt =====
-- provider/gemini/gemini.go: the tool calls that parseStream yields.
use rho_llm.Base.{
  ℕ, suc, ◌+◌, ◌<◌, ◌≡◌, refl, ap, subst, Text, text_eq_iff, false, Option, none, some, List, [],
  ◌∷◌, ◌++◌, map, arith, member, Unique, Bool-cases, inl, inr, length, length-append, append_nil,
  is_empty, ltb,
}
use rho_llm.Errors.{GoError}
use rho_llm.Stream.Terminal.{behind, bind}
use rho_llm.Gemini.{
  make_tool_call_id, resolve_tool_name, GeminiPart, GeminiEvent, skipped, malformed, response,
  GeminiEmit, content, thinking, tool_use, done, error_item, GeminiState, gemini_state,
  with_metadata, UsageMetadata, part_text, done_of, part_call, add_parts, finish_candidate,
  gemini_step, gemini_ended, then_gemini, parse_gemini_from, parse_gemini,
}
use rho_llm.Gemini.Names.{resolve_tool_name-make_tool_call_id, make_tool_call_id_injective}

-- The IDs and the names of the tool calls among the items.
unfoldable pub calls_of : List GeminiEmit → List (Text × Text)
calls_of [] = []
calls_of (tool_use id name args signature ∷ es) = (id, name) ∷ calls_of es
calls_of (done reason raw input output thoughts cached ∷ es) = calls_of es
calls_of (content t ∷ es) = calls_of es
calls_of (thinking t ∷ es) = calls_of es
calls_of (error_item e ∷ es) = calls_of es

calls_of-append : (xs ys : List GeminiEmit) → calls_of (xs ++ ys) ≡ calls_of xs ++ calls_of ys
unfolding calls_of
calls_of-append [] ys = refl
calls_of-append (tool_use id name args signature ∷ xs) ys =
    ap (◌∷◌ (id, name)) (calls_of-append xs ys)
calls_of-append (done reason raw input output thoughts cached ∷ xs) ys = calls_of-append xs ys
calls_of-append (content t ∷ xs) ys = calls_of-append xs ys
calls_of-append (thinking t ∷ xs) ys = calls_of-append xs ys
calls_of-append (error_item e ∷ xs) ys = calls_of-append xs ys

-- The IDs are made of their names and of counted indexes.
Numbered : ℕ → List (Text × Text) → Type 0
Numbered i [] = Unit
Numbered i ((id, name) ∷ cs) = (id ≡ make_tool_call_id i name) × Numbered (suc i) cs

-- After n calls the state counts n more.
Counted : ℕ → List GeminiEmit × Option GeminiState → Type 0
Counted i (emits, none) = Numbered i (calls_of emits)
Counted i (emits, some s) =
    Numbered i (calls_of emits) × (s.call_index ≡ i + length (calls_of emits))

Numbered-append :
    (i : ℕ) (cs ds : List (Text × Text))
    → Numbered i cs
    → Numbered (i + length cs) ds
    → Numbered i (cs ++ ds)
unfolding Numbered
Numbered-append i [] ds h k = subst (λ n. Numbered n ds) (omega arith) k
Numbered-append i (c ∷ cs) ds h k =
    (h.0, Numbered-append (suc i) cs ds h.1 (subst (λ n. Numbered n ds) (omega arith) k))

Counted-behind :
    (i : ℕ) (xs : List GeminiEmit) (r : List GeminiEmit × Option GeminiState)
    → calls_of xs ≡ []
    → Counted i r
    → Counted i (behind xs r)
unfolding Counted
Counted-behind i xs (emits, none) e h = rw (calls_of-append xs emits, e) h
Counted-behind i xs (emits, some s) e h = rw (calls_of-append xs emits, e) h

Counted-bind :
    (i : ℕ) (r : List GeminiEmit × Option GeminiState)
    (next : GeminiState → List GeminiEmit × Option GeminiState)
    → Counted i r
    → ((s : GeminiState) → Counted s.call_index (next s))
    → Counted i (bind r next)
unfolding Counted
Counted-bind i (emits, none) next h k = h
Counted-bind i (emits, some s) next h k = go (next s) (k s)
  where
    go :
        (r : List GeminiEmit × Option GeminiState)
        → Counted s.call_index r
        → Counted i (behind emits r)
    go (more, none) q = rw (calls_of-append emits more) (
        Numbered-append i (calls_of emits) (calls_of more) h.0
          (subst (λ n. Numbered n (calls_of more)) h.1 q))
    go (more, some t) q = rw (calls_of-append emits more) (
      Numbered-append i (calls_of emits) (calls_of more) h.0
          (subst (λ n. Numbered n (calls_of more)) h.1 q.0),
      omega (arith, q.1, h.1, length-append (calls_of emits) (calls_of more)),
    )

calls_of-part_text : (p : GeminiPart) → calls_of (part_text p) ≡ []
unfolding calls_of part_text
calls_of-part_text p = ground arith

module _ (limit : ℕ) where
  part_call-Counted :
      (c : Option (Text × Text)) (signature : Text) (s : GeminiState)
      → Counted s.call_index (part_call limit c signature s)
  unfolding part_call Counted calls_of Numbered
  part_call-Counted none signature s = (tt, omega arith)
  part_call-Counted (some (name, args)) signature s = elim (Bool-cases (ltb limit (length args))) [
    | inl p ↦ rw p tt
    | inr p ↦ rw p ((refl, tt), omega arith)
  ]

  add_parts-Counted :
      (ps : List GeminiPart) (s : GeminiState) → Counted s.call_index (add_parts limit ps s)
  unfolding add_parts Counted calls_of Numbered
  add_parts-Counted [] s = (tt, omega arith)
  add_parts-Counted (p ∷ ps) s =
      Counted-behind s.call_index (part_text p) _ (calls_of-part_text p) (
        Counted-bind s.call_index (part_call limit p.function_call p.thought_signature s) _
          (part_call-Counted p.function_call p.thought_signature s) (add_parts-Counted ps))

  finish_candidate-Counted :
      (reason : Text) (s : GeminiState) → Counted s.call_index (finish_candidate limit reason s)
  unfolding finish_candidate Counted calls_of Numbered done_of
  finish_candidate-Counted reason s = elim (Bool-cases (is_empty reason)) [
    | inl p ↦ rw p (tt, omega arith)
    | inr p ↦ rw p tt
  ]

  with_metadata-index :
      (u : Option UsageMetadata) (s : GeminiState) → (with_metadata u s).call_index ≡ s.call_index
  with_metadata-index none s = refl
  with_metadata-index (some u) s = refl

  gemini_step-Counted :
      (s : GeminiState) (ev : GeminiEvent) → Counted s.call_index (gemini_step limit s ev)
  unfolding gemini_step Counted calls_of Numbered
  gemini_step-Counted s skipped = (tt, omega arith)
  gemini_step-Counted s (malformed e) = (tt, omega arith)
  gemini_step-Counted s (response [] u) = (tt, omega (arith, with_metadata-index u s))
  gemini_step-Counted s (response (c ∷ cs) u) =
      Counted-bind s.call_index (add_parts limit c.parts_of (with_metadata u s)) _
        (subst (λ n. Counted n (add_parts limit c.parts_of (with_metadata u s)))
          (with_metadata-index u s) (add_parts-Counted c.parts_of (with_metadata u s)))
        (finish_candidate-Counted c.finish_reason)

  goes_on-Numbered :
      (i : ℕ) (r : List GeminiEmit × Option GeminiState) (next : GeminiState → List GeminiEmit)
      → Counted i r
      → ((s : GeminiState) → Numbered s.call_index (calls_of (next s)))
      → Numbered i (calls_of (r.0 ++ then_gemini limit r.1 next))
  unfolding Counted
  goes_on-Numbered i (emits, none) next h k = rw (append_nil emits) h
  goes_on-Numbered i (emits, some s) next h k = rw (calls_of-append emits (next s)) (
      Numbered-append i (calls_of emits) (calls_of (next s)) h.0
        (subst (λ n. Numbered n (calls_of (next s))) h.1 (k s)))

  parse_gemini_from-Numbered :
      (read_error : Option GoError) (s : GeminiState) (evs : List GeminiEvent)
      → Numbered s.call_index (calls_of (parse_gemini_from limit read_error s evs))
  unfolding parse_gemini_from gemini_ended calls_of Numbered
  parse_gemini_from-Numbered none s [] = tt
  parse_gemini_from-Numbered (some e) s [] = tt
  parse_gemini_from-Numbered r s (ev ∷ evs) =
      goes_on-Numbered s.call_index (gemini_step limit s ev) _ (gemini_step-Counted s ev)
        (λ s'. parse_gemini_from-Numbered r s' evs)

abbrev pub id_of : Text × Text → Text
id_of c = c.0

abbrev pub name_of : Text × Text → Text
name_of c = c.1

later :
    (i j : ℕ) (name : Text) (cs : List (Text × Text))
    → i < j
    → Numbered j cs
    → member (make_tool_call_id i name) (map id_of cs) ≡ false
unfolding Numbered member
later i j name [] l h = refl
later i j name ((id, other) ∷ cs) l h = ground (
  arith,
  later i (suc j) name cs (omega arith) h.1,
  text_eq_iff (make_tool_call_id i name) id,
  λ (e : make_tool_call_id i name ≡ make_tool_call_id j other).
      make_tool_call_id_injective i j name other e,
  h.0,
)

Numbered-Unique : (i : ℕ) (cs : List (Text × Text)) → Numbered i cs → Unique (map id_of cs)
unfolding Numbered
Numbered-Unique i [] h = tt
Numbered-Unique i ((id, name) ∷ cs) h =
    (rw h.0 (later i (suc i) name cs (omega arith) h.1), Numbered-Unique (suc i) cs h.1)

Numbered-resolve :
    (i : ℕ) (cs : List (Text × Text))
    → Numbered i cs
    → map (λ c. resolve_tool_name (id_of c)) cs ≡ map name_of cs
unfolding Numbered
Numbered-resolve i [] h = refl
Numbered-resolve i ((id, name) ∷ cs) h =
    rw (h.0, resolve_tool_name-make_tool_call_id i name, Numbered-resolve (suc i) cs h.1) refl

-- The tool calls of a turn have different IDs, and resolveToolName gives the name of each call from
-- its ID.
pub calls_of-parse_gemini :
    (limit : ℕ) (read_error : Option GoError) (evs : List GeminiEvent)
    → Unique (map id_of (calls_of (parse_gemini limit read_error evs)))
      × (map (λ c. resolve_tool_name (id_of c)) (calls_of (parse_gemini limit read_error evs))
          ≡ map name_of (calls_of (parse_gemini limit read_error evs)))
unfolding parse_gemini
calls_of-parse_gemini limit r evs =
    let h = parse_gemini_from-Numbered limit r gemini_state evs in
    (Numbered-Unique 0 _ h, Numbered-resolve 0 _ h)
