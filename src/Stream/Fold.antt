-- ===== src/Stream/Fold.antt =====
-- streamfold.go: StreamAccumulator and CollectStream; parts.go: SetParts.
use rho_llm.Base.{
  append_assoc, ℕ, Text, is_empty, Bool, true, false, Option, none, some, List, [], ◌∷◌, ◌++◌, ◌≡◌,
  refl, ap, sym, ◌∙◌, if◌then◌else◌, arith,
}
use rho_llm.Errors.{GoError, sentinel, stream_incomplete}
use rho_llm.Stream.{
  Item, StreamEvent, ToolCall, ContentPart, text_part, thinking_part, tool_use_part, other_part,
  EventType, content, thinking, tool_use, done, error,
}
use rho_llm.Stream.Bracketing.{until_error}

-- The zero StreamEvent, whose Type is none of the event types, and the last terminal event.
pub record StreamAccumulator : Type 0 where
  pub text : Text
  pub thinking : Text
  pub thinking_sig : Text
  pub thinking_redacted : Bool
  pub tool_calls : List ToolCall
  pub final : Option StreamEvent
  pub done : Bool

-- Response, less the details of server tools and cache tokens.
pub record Response : Type 0 where
  pub model : Text
  pub content : Text
  pub thinking : Text
  pub thinking_signature : Text
  pub thinking_redacted : Bool
  pub tool_calls : List ToolCall
  pub stop_reason : Text
  pub input_tokens : ℕ
  pub output_tokens : ℕ
  pub parts : List ContentPart

abbrev empty_accumulator : StreamAccumulator
empty_accumulator = record {
  text = [];
  thinking = [];
  thinking_sig = [];
  thinking_redacted = false;
  tool_calls = [];
  final = none;
  done = false;
}

unfoldable pub add_typed : StreamAccumulator → EventType → StreamEvent → StreamAccumulator
add_typed a content ev = record a { text = a.text ++ ev.text }
add_typed a thinking ev = record a { thinking = a.thinking ++ ev.thinking }
add_typed a tool_use ev = elim ev.tool_call [
  | none ↦ a
  | some tc ↦ record a { tool_calls = a.tool_calls ++ tc ∷ [] }
]
add_typed a done ev = record a {
  final = some ev;
  done = true;
  thinking_sig = if is_empty ev.thinking_signature then a.thinking_sig else ev.thinking_signature;
  thinking_redacted = if ev.thinking_redacted then true else a.thinking_redacted;
}
add_typed a error ev = record a { final = some ev }
add_typed a _ ev = a

unfoldable pub add : StreamAccumulator → StreamEvent → StreamAccumulator
add a ev = add_typed a ev.event_type ev

-- One turn of SetParts's loop.
unfoldable set_part : Response → ContentPart → Response
set_part r (text_part t) = record r { content = r.content ++ t }
set_part r (thinking_part t signature redacted) = record r {
  thinking = r.thinking ++ t;
  thinking_signature = if is_empty signature then r.thinking_signature else signature;
  thinking_redacted = if redacted then true else r.thinking_redacted;
}
set_part r (tool_use_part tc) = record r { tool_calls = r.tool_calls ++ tc ∷ [] }
set_part r other_part = r

unfoldable set_each : Response → List ContentPart → Response
set_each r [] = r
set_each r (p ∷ ps) = set_each (set_part r p) ps

unfoldable set_parts : List ContentPart → Response → Response
set_parts ps r =
    set_each
      (record r {
        parts = ps;
        content = [];
        thinking = [];
        thinking_signature = [];
        thinking_redacted = false;
        tool_calls = [];
      })
      ps

-- The Parts of the terminal event, if they are not empty, replace the folded deltas.
abbrev with_parts : List ContentPart → Response → Response
with_parts [] r = r
with_parts (p ∷ ps) r = set_parts (p ∷ ps) r

abbrev final_parts : Option StreamEvent → List ContentPart
final_parts none = []
final_parts (some f) = f.parts

unfoldable pub response : StreamAccumulator → Response
unfolding set_parts set_each set_part
response a = with_parts (final_parts a.final) (record {
  model = elim a.final [ none ↦ [] | some f ↦ f.model ];
  content = a.text;
  thinking = a.thinking;
  thinking_signature = a.thinking_sig;
  thinking_redacted = a.thinking_redacted;
  tool_calls = a.tool_calls;
  stop_reason = elim a.final [ none ↦ [] | some f ↦ f.stop_reason ];
  input_tokens = elim a.final [ none ↦ 0 | some f ↦ f.input_tokens ];
  output_tokens = elim a.final [ none ↦ 0 | some f ↦ f.output_tokens ];
  parts = [];
})

unfoldable pub collect_from : StreamAccumulator → List Item → Response × Option GoError
collect_from acc [] =
    if acc.done then (response acc, none) else (response acc, some (sentinel stream_incomplete))
collect_from acc ((ev, some err) ∷ rest) = (response (add acc ev), some err)
collect_from acc ((ev, none) ∷ rest) = collect_from (add acc ev) rest

unfoldable pub collect_stream : List Item → Response × Option GoError
collect_stream seq = collect_from empty_accumulator seq

-- What the events say, each read on its own.
abbrev text_of : EventType → StreamEvent → Text
text_of content ev = ev.text
text_of _ ev = []

abbrev thinking_of : EventType → StreamEvent → Text
thinking_of thinking ev = ev.thinking
thinking_of _ ev = []

abbrev option_list : {A : Type 0} → Option A → List A
option_list none = []
option_list (some x) = x ∷ []

abbrev calls_of : EventType → StreamEvent → List ToolCall
calls_of tool_use ev = option_list ev.tool_call
calls_of _ ev = []

-- What a part says.
abbrev text_in : ContentPart → Text
text_in (text_part t) = t
text_in _ = []

abbrev thinking_in : ContentPart → Text
thinking_in (thinking_part t signature redacted) = t
thinking_in _ = []

abbrev calls_within : ContentPart → List ToolCall
calls_within (tool_use_part tc) = tc ∷ []
calls_within _ = []

abbrev pub gather_parts : {A : Type 0} → (ContentPart → List A) → List ContentPart → List A
gather_parts g [] = []
gather_parts g (p ∷ ps) = g p ++ gather_parts g ps

-- The terminal event that the last of the items leaves, `f` before them.
abbrev final_at : EventType → StreamEvent → Option StreamEvent → Option StreamEvent
final_at done ev f = some ev
final_at error ev f = some ev
final_at _ ev f = f

abbrev pub final_after : Option StreamEvent → List Item → Option StreamEvent
final_after f [] = f
final_after f (it ∷ rest) = final_after (final_at it.0.event_type it.0 f) rest

-- What the parts say, or, without parts, what the deltas say.
abbrev pub parts_or : {A : Type 0} → (ContentPart → List A) → List ContentPart → List A → List A
parts_or g [] deltas = deltas
parts_or g (p ∷ ps) deltas = gather_parts g (p ∷ ps)

abbrev is_done : EventType → Bool
is_done done = true
is_done _ = false

abbrev pub gather : {A : Type 0} → (EventType → StreamEvent → List A) → List Item → List A
gather f [] = []
gather f (it ∷ rest) = f it.0.event_type it.0 ++ gather f rest

abbrev pub has_done : List Item → Bool
has_done [] = false
has_done (it ∷ rest) = if is_done it.0.event_type then true else has_done rest

abbrev pub first_error : List Item → Option GoError
first_error [] = none
first_error ((ev, some e) ∷ rest) = some e
first_error ((ev, none) ∷ rest) = first_error rest

-- The error CollectStream owes: the stream's own, or that the end of the turn is missing.
abbrev pub owed_error : List Item → Bool → Option GoError
owed_error seq complete = elim (first_error seq) [
  | some e ↦ some e
  | none ↦ if complete then none else some (sentinel stream_incomplete)
]

append_nil : {A : Type 0} (xs : List A) → xs ++ [] ≡ xs
append_nil [] = refl
append_nil (x ∷ xs) = ap (◌∷◌ x) (append_nil xs)

abbrev Adds : StreamAccumulator → EventType → StreamEvent → StreamAccumulator → Type 0
Adds a t ev b =
    (b.text ≡ a.text ++ text_of t ev)
    × (b.thinking ≡ a.thinking ++ thinking_of t ev)
    × (b.tool_calls ≡ a.tool_calls ++ calls_of t ev)
    × (b.done ≡ (if is_done t then true else a.done))
    × (b.final ≡ final_at t ev a.final)

add_typed-Adds :
    (a : StreamAccumulator) (t : EventType) (ev : StreamEvent) → Adds a t ev (add_typed a t ev)
unfolding add_typed
add_typed-Adds a content ev =
    (refl, sym (append_nil a.thinking), sym (append_nil a.tool_calls), refl, refl)
add_typed-Adds a thinking ev =
    (sym (append_nil a.text), refl, sym (append_nil a.tool_calls), refl, refl)
add_typed-Adds a tool_use ev = called ev.tool_call
  where
    called :
        (o : Option ToolCall)
        → let b : StreamAccumulator = elim o [
          | none ↦ a
          | some tc ↦ record a { tool_calls = a.tool_calls ++ tc ∷ [] }
        ] in
          (b.text ≡ a.text ++ [])
          × (b.thinking ≡ a.thinking ++ [])
          × (b.tool_calls ≡ a.tool_calls ++ option_list o)
          × (b.done ≡ a.done)
          × (b.final ≡ a.final)
    called none = (
      sym (append_nil a.text),
      sym (append_nil a.thinking),
      sym (append_nil a.tool_calls),
      refl,
      refl,
    )
    called (some tc) = (sym (append_nil a.text), sym (append_nil a.thinking), refl, refl, refl)
add_typed-Adds a done ev = (
  sym (append_nil a.text),
  sym (append_nil a.thinking),
  sym (append_nil a.tool_calls),
  refl,
  refl,
)
add_typed-Adds a error ev = (
  sym (append_nil a.text),
  sym (append_nil a.thinking),
  sym (append_nil a.tool_calls),
  refl,
  refl,
)
add_typed-Adds a _ ev = (
  sym (append_nil a.text),
  sym (append_nil a.thinking),
  sym (append_nil a.tool_calls),
  refl,
  refl,
)

set_each-gather :
    (r : Response) (ps : List ContentPart)
    → let r' = set_each r ps in
      (r'.content ≡ r.content ++ gather_parts text_in ps)
      × (r'.thinking ≡ r.thinking ++ gather_parts thinking_in ps)
      × (r'.tool_calls ≡ r.tool_calls ++ gather_parts calls_within ps)
unfolding set_each set_part
set_each-gather r [] =
    (sym (append_nil r.content), sym (append_nil r.thinking), sym (append_nil r.tool_calls))
set_each-gather r (text_part t ∷ ps) =
    let (x, y, z) = set_each-gather (set_part r (text_part t)) ps in
    (x ∙ append_assoc r.content t (gather_parts text_in ps), y, z)
set_each-gather r (thinking_part t signature redacted ∷ ps) =
    let (x, y, z) = set_each-gather (set_part r (thinking_part t signature redacted)) ps in
    (x, y ∙ append_assoc r.thinking t (gather_parts thinking_in ps), z)
set_each-gather r (tool_use_part tc ∷ ps) =
    let (x, y, z) = set_each-gather (set_part r (tool_use_part tc)) ps in
    (x, y, z ∙ append_assoc r.tool_calls (tc ∷ []) (gather_parts calls_within ps))
set_each-gather r (other_part ∷ ps) = set_each-gather r ps

with_parts-parts_or :
    (ps : List ContentPart) (r : Response)
    → let r' = with_parts ps r in
      (r'.content ≡ parts_or text_in ps r.content)
      × (r'.thinking ≡ parts_or thinking_in ps r.thinking)
      × (r'.tool_calls ≡ parts_or calls_within ps r.tool_calls)
unfolding set_parts
with_parts-parts_or [] r = (refl, refl, refl)
with_parts-parts_or (p ∷ ps) r = set_each-gather _ (p ∷ ps)

-- The accumulator that some items leave, and what CollectStream returns with it.
abbrev Collects : StreamAccumulator → List Item → Response × Option GoError → Type 0
Collects a seq (r, err) =
    let heard = until_error seq in
    (b : StreamAccumulator) × (r ≡ response b)
    × (b.text ≡ a.text ++ gather text_of heard)
    × (b.thinking ≡ a.thinking ++ gather thinking_of heard)
    × (b.tool_calls ≡ a.tool_calls ++ gather calls_of heard)
    × (b.final ≡ final_after a.final heard)
    × (err ≡ owed_error seq (if a.done then true else has_done seq))

done_or :
    (t : EventType) (d rest : Bool)
    → (if (if is_done t then true else d) then true else rest)
      ≡ (if d then true else (if is_done t then true else rest))
done_or t d rest = ground arith

collect_from-Collects :
    (a : StreamAccumulator) (seq : List Item) → Collects a seq (collect_from a seq)
unfolding collect_from add
collect_from-Collects a [] = ended a.done refl
  where
    ended :
        (d : Bool)
        → a.done ≡ d
        → Collects a []
            (if d then (response a, none) else (response a, some (sentinel stream_incomplete)))
    ended true p = (
      a,
      refl,
      sym (append_nil a.text),
      sym (append_nil a.thinking),
      sym (append_nil a.tool_calls),
      refl,
      rw p refl,
    )
    ended false p = (
      a,
      refl,
      sym (append_nil a.text),
      sym (append_nil a.thinking),
      sym (append_nil a.tool_calls),
      refl,
      rw p refl,
    )
collect_from-Collects a ((ev, some err) ∷ rest) =
    let (x, y, z, d, f) = add_typed-Adds a ev.event_type ev in
    (
      add a ev,
      refl,
      rw (x, append_nil (text_of ev.event_type ev)) refl,
      rw (y, append_nil (thinking_of ev.event_type ev)) refl,
      rw (z, append_nil (calls_of ev.event_type ev)) refl,
      f,
      refl,
    )
collect_from-Collects a ((ev, none) ∷ rest) =
    let t = ev.event_type in
    let heard = until_error rest in
    let (x, y, z, d, f) = add_typed-Adds a t ev in
    let (b, r, x', y', z', f', e) = collect_from-Collects (add a ev) rest in
    (
      b,
      r,
      x' ∙ rw x (append_assoc a.text (text_of t ev) (gather text_of heard)),
      y' ∙ rw y (append_assoc a.thinking (thinking_of t ev) (gather thinking_of heard)),
      z' ∙ rw z (append_assoc a.tool_calls (calls_of t ev) (gather calls_of heard)),
      f' ∙ ap (λ o. final_after o heard) f,
      e ∙ ap (owed_error rest) (rw d (done_or t a.done (has_done rest))),
    )

-- What CollectStream's response says is what the stream said up to its first error. If the last
-- terminal event before that carries Parts, the content, the reasoning and the tool calls are those
-- of the Parts, each in order; otherwise they are the texts, the reasoning and the tool calls of the
-- events, each in order and complete. It returns the stream's own error if there is one, the
-- incomplete-stream error if there is none and no EventDone came, and no error otherwise.
pub collect_stream_lem :
    (seq : List Item)
    → let (r, err) = collect_stream seq in
      let heard = until_error seq in
      let ps = final_parts (final_after none heard) in
      (r.content ≡ parts_or text_in ps (gather text_of heard))
      × (r.thinking ≡ parts_or thinking_in ps (gather thinking_of heard))
      × (r.tool_calls ≡ parts_or calls_within ps (gather calls_of heard))
      × (err ≡ owed_error seq (has_done seq))
unfolding collect_stream response
collect_stream_lem seq =
    let (b, r, x, y, z, f, e) = collect_from-Collects empty_accumulator seq in
    let (x', y', z') = with_parts-parts_or (final_parts b.final) _ in
    (
      ap (λ q. q.content) r ∙ (x' ∙ rw (x, f) refl),
      ap (λ q. q.thinking) r ∙ (y' ∙ rw (y, f) refl),
      ap (λ q. q.tool_calls) r ∙ (z' ∙ rw (z, f) refl),
      e,
    )
