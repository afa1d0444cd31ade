-- ===== src/Stream/Bracketing.antt =====
-- streamevents.go: what a consumer that never stops is given.
use rho_llm.Base.{
  ◌≡◌, refl, ap, Bool, true, false, List, [], ◌∷◌, ◌++◌, Option, none, some, if◌then◌else◌, All,
  arith,
}
use rho_llm.Errors.{GoError}
use rho_llm.Stream.{
  Item, StreamEvent, EventType, untyped, content, tool_use, thinking, done, error, server_tool,
  citation, text_start, text_end, thinking_start, thinking_end, tool_start, tool_end, Consumer,
  Block, no_block, text_block, thinking_block, close_block, bracket, yield_all, run_boundaries,
  stream_with_boundaries,
}

abbrev always : Consumer
always delivered = true

-- The items in the order they are delivered.
abbrev onto : List Item → List Item → List Item
onto [] ys = ys
onto (x ∷ xs) ys = onto xs (x ∷ ys)

abbrev pub delivery : List Item → List Item
delivery seq = onto (stream_with_boundaries seq always) []

onto-onto : (xs ys zs : List Item) → onto (onto xs ys) zs ≡ onto ys (xs ++ zs)
onto-onto [] ys zs = refl
onto-onto (x ∷ xs) ys zs = onto-onto xs (x ∷ ys) zs

onto-append : (xs ys zs : List Item) → onto (xs ++ ys) zs ≡ onto ys (onto xs zs)
onto-append [] ys zs = refl
onto-append (x ∷ xs) ys zs = onto-append xs ys (x ∷ zs)

-- What is delivered, as one list.
abbrev plan : Block → List Item → List Item
plan b [] = close_block b
plan b ((ev, some err) ∷ rest) = close_block b ++ (ev, some err) ∷ []
plan b ((ev, none) ∷ rest) =
    let (items, after) = bracket b ev.event_type (ev, none) in items ++ plan after rest

yield_all-always : (items h : List Item) → yield_all always items h ≡ (true, onto items h)
unfolding yield_all
yield_all-always [] h = refl
yield_all-always (it ∷ rest) h = yield_all-always rest (it ∷ h)

run_boundaries-always :
    (b : Block) (seq h : List Item) → run_boundaries always b seq h ≡ onto (plan b seq) h
unfolding run_boundaries
run_boundaries-always b [] h = rw (run_boundaries, yield_all-always (close_block b) h) refl
run_boundaries-always b ((ev, some err) ∷ rest) h =
    rw (run_boundaries, yield_all-always (close_block b ++ (ev, some err) ∷ []) h) refl
run_boundaries-always b ((ev, none) ∷ rest) h =
    let r = bracket b ev.event_type (ev, none) in
    rw (run_boundaries, yield_all-always r.0 h, onto-append r.0 (plan r.1 rest) h)
      (run_boundaries-always r.1 rest (onto r.0 h))

append_nil : (xs : List Item) → xs ++ [] ≡ xs
append_nil [] = refl
append_nil (x ∷ xs) = ap (◌∷◌ x) (append_nil xs)

delivery-plan : (seq : List Item) → delivery seq ≡ plan no_block seq
unfolding stream_with_boundaries
delivery-plan seq =
    rw
      (
        run_boundaries-always no_block seq [],
        onto-onto (plan no_block seq) [] [],
        append_nil (plan no_block seq),
      )
      refl

-- The provider's own event types.
abbrev pub is_coarse : EventType → Bool
is_coarse content = true
is_coarse tool_use = true
is_coarse thinking = true
is_coarse done = true
is_coarse error = true
is_coarse server_tool = true
is_coarse citation = true
is_coarse untyped = true
is_coarse _ = false

-- Where a reader of the brackets stands.
pub data Context : Type 0 where
  outside in_text in_thinking in_tool after_call : Context

-- A reader that takes text only between text_start and text_end, reasoning only between
-- thinking_start and thinking_end, a tool call only between tool_start and tool_end, the end of the
-- turn and an error only outside of every block.
abbrev pub read_event : Context → Option GoError → EventType → Option Context
read_event outside (some e) t = some outside
read_event _ (some e) t = none
read_event outside none text_start = some in_text
read_event in_text none content = some in_text
read_event in_text none text_end = some outside
read_event outside none thinking_start = some in_thinking
read_event in_thinking none thinking = some in_thinking
read_event in_thinking none thinking_end = some outside
read_event outside none tool_start = some in_tool
read_event in_tool none tool_use = some after_call
read_event after_call none tool_end = some outside
read_event outside none done = some outside
read_event outside none error = some outside
read_event in_text none error = some in_text
read_event in_thinking none error = some in_thinking
read_event outside none server_tool = some outside
read_event in_text none server_tool = some in_text
read_event in_thinking none server_tool = some in_thinking
read_event outside none citation = some outside
read_event in_text none citation = some in_text
read_event in_thinking none citation = some in_thinking
read_event outside none untyped = some outside
read_event in_text none untyped = some in_text
read_event in_thinking none untyped = some in_thinking
read_event _ none _ = none

abbrev pub read_all : Option Context → List Item → Option Context
read_all none items = none
read_all (some k) [] = some k
read_all (some k) (it ∷ items) = read_all (read_event k it.1 it.0.event_type) items

abbrev context : Block → Context
context no_block = outside
context text_block = in_text
context thinking_block = in_thinking

read_all-append :
    (k : Option Context) (xs ys : List Item) → read_all k (xs ++ ys) ≡ read_all (read_all k xs) ys
read_all-append none xs ys = refl
read_all-append (some k) [] ys = refl
read_all-append (some k) (x ∷ xs) ys = read_all-append (read_event k x.1 x.0.event_type) xs ys

read-close_block : (b : Block) → read_all (some (context b)) (close_block b) ≡ some outside
read-close_block no_block = refl
read-close_block text_block = refl
read-close_block thinking_block = refl

-- The stream itself: its items up to the first error.
abbrev pub until_error : List Item → List Item
until_error [] = []
until_error ((ev, some err) ∷ rest) = (ev, some err) ∷ []
until_error ((ev, none) ∷ rest) = (ev, none) ∷ until_error rest

-- No event is a marker: each has a provider's type, or is untyped.
abbrev pub Coarse : List Item → Type 0
Coarse seq = All (λ it. is_coarse it.0.event_type ≡ true) seq

abbrev pub without_markers : List Item → List Item
without_markers [] = []
without_markers (it ∷ rest) =
    if is_coarse it.0.event_type then it ∷ without_markers rest else without_markers rest

without-append :
    (xs ys : List Item) → without_markers (xs ++ ys) ≡ without_markers xs ++ without_markers ys
without-append [] ys = refl
without-append (x ∷ xs) ys = ground (arith, without-append xs ys)

-- The items for one event bring the reader to the new block, and are the event and markers.
bracket_lem :
    (b : Block) (t : EventType) (ev : StreamEvent)
    → ev.event_type ≡ t
    → is_coarse t ≡ true
    → let r = bracket b t (ev, none) in
      (read_all (some (context b)) r.0 ≡ some (context r.1))
      × (without_markers r.0 ≡ (ev, none) ∷ [])
unfolding bracket
bracket_lem no_block content ev p h = rw p (refl, refl)
bracket_lem text_block content ev p h = rw p (refl, refl)
bracket_lem thinking_block content ev p h = rw p (refl, refl)
bracket_lem no_block thinking ev p h = rw p (refl, refl)
bracket_lem text_block thinking ev p h = rw p (refl, refl)
bracket_lem thinking_block thinking ev p h = rw p (refl, refl)
bracket_lem no_block tool_use ev p h = rw p (refl, refl)
bracket_lem text_block tool_use ev p h = rw p (refl, refl)
bracket_lem thinking_block tool_use ev p h = rw p (refl, refl)
bracket_lem no_block done ev p h = rw p (refl, refl)
bracket_lem text_block done ev p h = rw p (refl, refl)
bracket_lem thinking_block done ev p h = rw p (refl, refl)
bracket_lem no_block error ev p h = rw p (refl, refl)
bracket_lem text_block error ev p h = rw p (refl, refl)
bracket_lem thinking_block error ev p h = rw p (refl, refl)
bracket_lem no_block server_tool ev p h = rw p (refl, refl)
bracket_lem text_block server_tool ev p h = rw p (refl, refl)
bracket_lem thinking_block server_tool ev p h = rw p (refl, refl)
bracket_lem no_block citation ev p h = rw p (refl, refl)
bracket_lem text_block citation ev p h = rw p (refl, refl)
bracket_lem thinking_block citation ev p h = rw p (refl, refl)
bracket_lem no_block untyped ev p h = rw p (refl, refl)
bracket_lem text_block untyped ev p h = rw p (refl, refl)
bracket_lem thinking_block untyped ev p h = rw p (refl, refl)
bracket_lem b text_start ev p h = cc
bracket_lem b text_end ev p h = cc
bracket_lem b thinking_start ev p h = cc
bracket_lem b thinking_end ev p h = cc
bracket_lem b tool_start ev p h = cc
bracket_lem b tool_end ev p h = cc

read-plan :
    (b : Block) (seq : List Item)
    → Coarse seq
    → read_all (some (context b)) (plan b seq) ≡ some outside
read-plan b [] h = read-close_block b
read-plan b ((ev, some err) ∷ rest) h =
    rw
      (read_all-append (some (context b)) (close_block b) ((ev, some err) ∷ []), read-close_block b)
      refl
read-plan b ((ev, none) ∷ rest) (h, hs) =
    let r = bracket b ev.event_type (ev, none) in
    rw
      (
        read_all-append (some (context b)) r.0 (plan r.1 rest),
        (bracket_lem b ev.event_type ev refl h).0,
      )
      (read-plan r.1 rest hs)

without-close_block :
    (b : Block) (ys : List Item) → without_markers (close_block b ++ ys) ≡ without_markers ys
without-close_block no_block ys = refl
without-close_block text_block ys = refl
without-close_block thinking_block ys = refl

without-plan :
    (b : Block) (seq : List Item) → Coarse seq → without_markers (plan b seq) ≡ until_error seq
without-plan no_block [] h = refl
without-plan text_block [] h = refl
without-plan thinking_block [] h = refl
without-plan b ((ev, some err) ∷ rest) (h, hs) =
    rw (without-close_block b ((ev, some err) ∷ []), h) refl
without-plan b ((ev, none) ∷ rest) (h, hs) =
    let r = bracket b ev.event_type (ev, none) in
    rw
      (
        without-append r.0 (plan r.1 rest),
        (bracket_lem b ev.event_type ev refl h).1,
        without-plan r.1 rest hs,
      )
      refl

-- A stream of provider events, through StreamWithBoundaries and a consumer that takes everything:
-- every block that is opened is closed, in order and without overlap, also when the stream ends
-- with an error or without an EventDone; and the original items come through unchanged and in
-- order, up to the first error, which is the last.
pub delivery_bracketed :
    (seq : List Item)
    → Coarse seq
    → (read_all (some outside) (delivery seq) ≡ some outside)
      × (without_markers (delivery seq) ≡ until_error seq)
delivery_bracketed seq h =
    rw (delivery-plan seq) (read-plan no_block seq h, without-plan no_block seq h)
