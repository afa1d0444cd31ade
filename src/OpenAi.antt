-- ===== src/OpenAi.antt =====
-- provider/openaicompat/openaicompat.go: the streamed tool calls that parseStream assembles. A call is
-- a pointer of the source: here its position in `calls`, which `by_index` and `latest` keep. They are
-- cleared together with `calls`, so that no position outlives its call. A tool's input is its JSON as
-- text; what it decodes to is not followed.
pub mod Parse
pub mod Ending
pub mod Pending
pub mod Inputs
pub mod Assembly
use rho_llm.Base.{
  ℕ, zero, suc, ◌+◌, ◌-◌, Text, text_eq, is_empty, Bool, true, false, ◌&&◌, not, Option, none, some,
  List, [], ◌∷◌, ◌++◌, length, ltb, if◌then◌else◌, ℤ, get_elem?, set,
}
use rho_llm.Errors.{GoError}
use rho_llm.Stream.Terminal.{behind, bind, too_long}
use rho_llm.Anthropic.{int_eq}

-- openaiToolCall, as a delta of the stream carries it.
pub record ToolDelta : Type 0 where
  pub index : Option ℤ
  pub id : Text
  pub name : Text
  pub arguments : Text

-- A yield.
pub data ChatEmit : Type 0 where
  content thinking : Text → ChatEmit
  tool_use : Text → Text → Text → ChatEmit
  done : Text → Text → ℤ → ℤ → ℤ → ChatEmit
  error_item : GoError → ChatEmit

-- streamingCall.
pub record StreamingCall : Type 0 where
  pub id : Text
  pub name : Text
  pub args : Text
  pub emitted : Bool

-- calls, byIndex, latest, pendingBytes and emittedToolCall.
pub record Assembling : Type 0 where
  pub calls : List StreamingCall
  pub by_index : ℤ → Option ℕ
  pub latest : Option ℕ
  pub pending_bytes : ℕ
  pub emitted_tool_call : Bool

abbrev pub no_index : ℤ → Option ℕ
no_index i = none

abbrev pub assembling : Assembling
assembling = record {
  calls = [];
  by_index = no_index;
  latest = none;
  pending_bytes = 0;
  emitted_tool_call = false;
}

-- emitCall, less its write of `emitted`. pendingBytes counts the arguments of every call that is not
-- emitted, so that the subtraction does not stop at 0.
unfoldable pub give_call : StreamingCall → Assembling → List ChatEmit × Assembling
give_call c a = if c.emitted then ([], a) else (
  tool_use c.id c.name c.args ∷ [],
  record a { pending_bytes = a.pending_bytes - length c.args; emitted_tool_call = true },
)

-- emitCall on the call at a position.
unfoldable pub emit_at : Option StreamingCall → ℕ → Assembling → List ChatEmit × Assembling
emit_at none k a = ([], a)
emit_at (some c) k a =
    let (emits, now) = give_call c a in
    (emits, record now { calls = set now.calls k (record c { emitted = true }) })

unfoldable pub emit_call : ℕ → Assembling → List ChatEmit × Assembling
emit_call k a = emit_at (get_elem? a.calls k) k a

unfoldable pub give_all : List StreamingCall → Assembling → List ChatEmit × Assembling
give_all [] a = ([], a)
give_all (c ∷ cs) a =
    let (emits, now) = give_call c a in
    let (rest, after) = give_all cs now in (emits ++ rest, after)

-- emitAll, which forgets every call, so that `emitted` need not be written first.
unfoldable pub emit_all : Assembling → List ChatEmit × Assembling
emit_all a =
    let (emits, now) = give_all a.calls a in
    (emits, record now { calls = []; by_index = no_index; latest = none })

abbrev pub new_call : ToolDelta → StreamingCall
new_call tc = record { id = tc.id; name = tc.name; args = []; emitted = false }

-- startCall, whose call stands at the end.
abbrev pub start_call : ToolDelta → Assembling → Assembling
start_call tc a = record a { calls = a.calls ++ (new_call tc ∷ []) }

abbrev pub point_index : ℤ → ℕ → Assembling → Assembling
point_index i k a = record a { by_index = λ j. if int_eq i j then some k else a.by_index j }

-- Whether the delta is of another call than the one its index stands for.
abbrev pub reuses : ToolDelta → Option StreamingCall → Bool
reuses tc none = false
reuses tc (some c) = not (is_empty tc.id) && (not (is_empty c.id) && not (text_eq tc.id c.id))

-- What a delta does before its arguments, and the position of its call, if it has one.
abbrev pub Found : Type 0
Found = List ChatEmit × Assembling × Option ℕ

-- A new call for an index, behind what has been yielded.
unfoldable pub start_at : List ChatEmit → ℤ → ToolDelta → Assembling → Found
start_at emits i tc a =
    (emits, point_index i (length a.calls) (start_call tc a), some (length a.calls))

-- The case of a delta with an index, by what byIndex has for it.
unfoldable pub find_indexed : Option ℕ → ℤ → ToolDelta → Assembling → Found
find_indexed none i tc a = start_at [] i tc a
find_indexed (some k) i tc a =
    if reuses tc (get_elem? a.calls k)
    then (let (emits, now) = emit_call k a in start_at emits i tc now)
    else ([], a, some k)

-- The switch over the cases of a delta, by its index.
unfoldable pub find_call : Option ℤ → ToolDelta → Assembling → Found
find_call (some i) tc a = find_indexed (a.by_index i) i tc a
find_call none tc a =
    if is_empty tc.id
    then ([], a, a.latest)
    else (let (emits, now) = emit_all a in (emits, start_call tc now, some (length now.calls)))

abbrev pub or_new : Text → Text → Text
or_new old new = if is_empty old then new else old

-- The call with what the delta adds to it.
abbrev pub filled : ToolDelta → StreamingCall → StreamingCall
filled tc c = record c {
  id = or_new c.id tc.id;
  name = or_new c.name tc.name;
  args = c.args ++ tc.arguments;
}

abbrev pub continue_at : ℕ → ToolDelta → Option StreamingCall → Assembling → Assembling
continue_at k tc none a = a
continue_at k tc (some c) a = record a {
  calls = set a.calls k (filled tc c);
  latest = some k;
  pending_bytes = a.pending_bytes + length tc.arguments;
}

-- Whether the arguments of a delta are too long, with those that are pending.
abbrev pub exceeds : ℕ → ToolDelta → Assembling → Bool
exceeds max_tool_input tc a =
    not (is_empty tc.arguments) && ltb max_tool_input (a.pending_bytes + length tc.arguments)

module _ (max_tool_input : ℕ) where
  -- The rest of the loop's body, on the call that was found. On an error it returns.
  unfoldable pub continue_call :
      Option ℕ → ToolDelta → Assembling → List ChatEmit × Option Assembling
  continue_call none tc a = ([], some a)
  continue_call (some k) tc a =
      if exceeds max_tool_input tc a
      then (error_item (too_long max_tool_input) ∷ [], none)
      else ([], some (continue_at k tc (get_elem? a.calls k) a))

  -- One round of the loop over the deltas of a chunk.
  unfoldable pub add_delta : ToolDelta → Assembling → List ChatEmit × Option Assembling
  add_delta tc a =
      let (emits, now, found) = find_call tc.index tc a in behind emits (continue_call found tc now)

  unfoldable pub add_deltas : List ToolDelta → Assembling → List ChatEmit × Option Assembling
  add_deltas [] a = ([], some a)
  add_deltas (tc ∷ tcs) a = bind (add_delta tc a) (add_deltas tcs)
