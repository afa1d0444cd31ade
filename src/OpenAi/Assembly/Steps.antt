-- ===== src/OpenAi/Assembly/Steps.antt =====
-- provider/openaicompat/openaicompat.go: the deltas of parallel tool calls, one after the other.
use rho_llm.Base.{
  ◌∙◌, ℕ, ◌+◌, ◌≡◌, ◌≤◌, refl, Text, false, Option, none, some, List, [], ◌∷◌, ◌++◌, arith, ℤ,
  length, get_elem?, set, All, All-append, append_assoc, append_nil, length-map, if◌then◌else◌,
}
use rho_llm.Anthropic.{int_eq}
use rho_llm.OpenAi.{
  ToolDelta, ChatEmit, StreamingCall, Assembling, new_call, start_call, point_index, start_at,
  find_indexed, find_call, filled, exceeds, continue_at, continue_call, add_delta, add_deltas,
  reuses,
}
use rho_llm.OpenAi.Assembly.{
  tag, deltas_at, position, add_index, indexes, call_for, total, Tagged, int_eq_sound, map-append,
  deltas_at-append, total-append, total-append_list, call_for-other, call_for-same,
}
use rho_llm.OpenAi.Assembly.Matching.{
  position-append, get_elem?-position, Distinct-append, map-same, map-set, Matches, filled-new,
  get_elem?-last, set-last, get_elem?-map, reuses-call_for,
}

-- The state after a delta of an index that has no call yet, and of one that has.
abbrev with_new : ℤ → ToolDelta → Assembling → Assembling
with_new i d a = record a {
  calls = a.calls ++ (filled d (new_call d) ∷ []);
  by_index = λ j. if int_eq i j then some (length a.calls) else a.by_index j;
  latest = some (length a.calls);
  pending_bytes = a.pending_bytes + length d.arguments;
}

abbrev with_more : ℕ → ToolDelta → StreamingCall → Assembling → Assembling
with_more k d c a = record a {
  calls = set a.calls k (filled d c);
  latest = some k;
  pending_bytes = a.pending_bytes + length d.arguments;
}

module _ (limit : ℕ) where
  continue_call-some :
      (k : ℕ) (d : ToolDelta) (a : Assembling)
      → a.pending_bytes + length d.arguments ≤ limit
      → continue_call limit (some k) d a ≡ ([], some (continue_at k d (get_elem? a.calls k) a))
  unfolding continue_call
  continue_call-some k d a w = let fits : exceeds limit d a ≡ false = ground arith in rw fits refl

  add_delta-new :
      (i : ℤ) (d : ToolDelta) (a : Assembling)
      → d.index ≡ some i
      → a.by_index i ≡ none
      → a.pending_bytes + length d.arguments ≤ limit
      → add_delta limit d a ≡ ([], some (with_new i d a))
  unfolding add_delta find_call find_indexed start_at continue_call
  add_delta-new i d a e n w =
      rw
        (
          e,
          n,
          continue_call-some (length a.calls) d (point_index i (length a.calls) (start_call d a)) w,
          get_elem?-last a.calls (new_call d),
          set-last a.calls (new_call d) (filled d (new_call d)),
        )
        refl

  add_delta-more :
      (i : ℤ) (k : ℕ) (d : ToolDelta) (c : StreamingCall) (a : Assembling)
      → d.index ≡ some i
      → a.by_index i ≡ some k
      → get_elem? a.calls k ≡ some c
      → reuses d (some c) ≡ false
      → a.pending_bytes + length d.arguments ≤ limit
      → add_delta limit d a ≡ ([], some (with_more k d c a))
  unfolding add_delta find_call find_indexed continue_call
  add_delta-more i k d c a e n g r w = rw (e, n, g, r, continue_call-some k d a w, g) refl

-- The states after these match the deltas with one more.
with_new-Matches :
    (ds : List ToolDelta) (js : List ℤ) (a : Assembling) (d : ToolDelta)
    → Matches ds js a
    → position (tag d) js ≡ none
    → Matches (ds ++ (d ∷ [])) (js ++ (tag d ∷ [])) (with_new (tag d) d a)
unfolding deltas_at
with_new-Matches ds js a d m n =
    let f = call_for ds in
    let g = call_for (ds ++ (d ∷ [])) in
    record {
      calls =
          rw
            (
              m.calls,
              map-append g js (tag d ∷ []),
              map-same f g (tag d) (λ j e. call_for-other ds d j e) js n,
              call_for-same ds d,
              filled-new d (f (tag d)) (rw (m.unseen (tag d) n) refl),
            )
            refl;
      indexed =
          λ i. rw (position-append i (tag d) js n, m.indexed i, m.calls, length-map js f) refl;
      pending = rw (total-append ds d, m.pending) refl;
      distinct = Distinct-append (tag d) js n m.distinct;
      unseen = λ i h.
          ground (arith, position-append i (tag d) js n, deltas_at-append i ds d, m.unseen i);
    }

with_more-Matches :
    (ds : List ToolDelta) (js : List ℤ) (a : Assembling) (d : ToolDelta) (k : ℕ)
    → Matches ds js a
    → position (tag d) js ≡ some k
    → Matches (ds ++ (d ∷ [])) js (with_more k d (call_for ds (tag d)) a)
with_more-Matches ds js a d k m n = record {
  calls =
      rw
        (
          m.calls,
          map-set (call_for ds) (call_for (ds ++ (d ∷ []))) (tag d) (λ j e. call_for-other ds d j e)
              k js m.distinct n,
          call_for-same ds d,
        )
        refl;
  indexed = m.indexed;
  pending = rw (total-append ds d, m.pending) refl;
  distinct = m.distinct;
  unseen = λ i h. ground (arith, deltas_at-append i ds d, m.unseen i h, int_eq_sound (tag d) i);
}

-- A run that yields nothing and leaves a state which matches.
pub record Added (ds : List ToolDelta) (js : List ℤ) (r : List ChatEmit × Option Assembling)
    : Type 0 where
  pub state : Assembling
  pub quiet : r ≡ ([], some state)
  pub matches : Matches ds js state

module _ (limit : ℕ) (ids : ℤ → Text) where
  add_delta-Added :
      (ds : List ToolDelta) (js : List ℤ) (a : Assembling) (d : ToolDelta)
      → Matches ds js a
      → All (Tagged ids) ds
      → Tagged ids d
      → total (ds ++ (d ∷ [])) ≤ limit
      → (o : Option ℕ) → position (tag d) js ≡ o
      → Added (ds ++ (d ∷ [])) (add_index o (tag d) js) (add_delta limit d a)
  add_delta-Added ds js a d m h t w none n =
      let fits : a.pending_bytes + length d.arguments ≤ limit =
        omega (arith, m.pending, total-append ds d) in
      record {
        state = with_new (tag d) d a;
        quiet = add_delta-new limit (tag d) d a t.0 (m.indexed (tag d) ∙ n) fits;
        matches = with_new-Matches ds js a d m n;
      }
  add_delta-Added ds js a d m h t w (some k) n =
      let fits : a.pending_bytes + length d.arguments ≤ limit =
        omega (arith, m.pending, total-append ds d) in
      let at = get_elem?-map (call_for ds) js k (tag d) (get_elem?-position (tag d) k js n) in
      record {
        state = with_more k d (call_for ds (tag d)) a;
        quiet =
            add_delta-more limit (tag d) k d (call_for ds (tag d)) a t.0 (m.indexed (tag d) ∙ n)
              (rw m.calls at) (reuses-call_for ids ds d h t) fits;
        matches = with_more-Matches ds js a d k m n;
      }

  pub add_deltas-Added :
      (ds : List ToolDelta) (js : List ℤ) (a : Assembling) (es : List ToolDelta)
      → Matches ds js a
      → All (Tagged ids) ds
      → All (Tagged ids) es
      → total (ds ++ es) ≤ limit
      → Added (ds ++ es) (indexes js es) (add_deltas limit es a)
  unfolding add_deltas indexes total
  add_deltas-Added ds js a [] m h k w = record {
    state = a;
    quiet = refl;
    matches = rw (append_nil ds) m;
  }
  add_deltas-Added ds js a (d ∷ es) m h k w =
      let one =
        add_delta-Added ds js a d m h k.0
          (omega (arith, w, total-append ds d, total-append_list ds (d ∷ es))) (position (tag d) js)
          refl in
      let rest =
        add_deltas-Added (ds ++ (d ∷ [])) (add_index (position (tag d) js) (tag d) js) one.state es
          one.matches (All-append (Tagged ids) ds (d ∷ []) h (k.0, tt)) k.1
          (rw (append_assoc ds (d ∷ []) es) w) in
      record {
        state = rest.state;
        quiet = rw (one.quiet, rest.quiet) refl;
        matches = rw⁻¹ (append_assoc ds (d ∷ []) es) rest.matches;
      }
