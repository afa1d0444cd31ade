-- ===== src/OpenAi/Assembly.antt =====
-- provider/openaicompat/openaicompat.go: parallel tool calls whose deltas carry an index, however the
-- server interleaves them.
pub mod Matching
pub mod Steps
pub mod Turn
pub mod Parallel
use rho_llm.Base.{
  ◌∙◌, ℕ, zero, suc, ◌+◌, ◌≡◌, ◌≢◌, ◌≤◌, ◌<◌, refl, ap, sym, Text, text_eq, text_eq_iff, is_empty,
  Bool, true, false, not, Option, none, some, List, [], ◌∷◌, ◌++◌, map, arith, ℤ, pos, negsuc,
  Bool-cases, ◌⊎◌, inl, inr, length, get_elem?, set, All, append_assoc, append_nil, length-append,
  length-map, if◌then◌else◌,
}
use rho_llm.Anthropic.{int_eq}
use rho_llm.OpenAi.{
  ToolDelta, StreamingCall, Assembling, new_call, start_call, point_index, start_at, find_indexed,
  find_call, filled, or_new, exceeds, continue_at, continue_call, add_delta, add_deltas, reuses,
}

abbrev pub tag_of : Option ℤ → ℤ
tag_of none = negsuc 0
tag_of (some i) = i

-- The index of a delta that has one.
abbrev pub tag : ToolDelta → ℤ
tag d = tag_of d.index

-- The deltas with an index.
unfoldable pub deltas_at : ℤ → List ToolDelta → List ToolDelta
deltas_at i [] = []
deltas_at i (d ∷ ds) = if int_eq (tag d) i then d ∷ deltas_at i ds else deltas_at i ds

unfoldable pub first_text : List Text → Text
first_text [] = []
first_text (t ∷ ts) = if is_empty t then first_text ts else t

unfoldable pub joined : List Text → Text
joined [] = []
joined (t ∷ ts) = t ++ joined ts

unfoldable pub position : ℤ → List ℤ → Option ℕ
position i [] = none
position i (j ∷ js) =
    let rest = position i js in
    if int_eq i j then some 0 else elim rest [ none ↦ none | some k ↦ some (suc k) ]

abbrev pub add_index : Option ℕ → ℤ → List ℤ → List ℤ
add_index none i js = js ++ (i ∷ [])
add_index (some k) i js = js

-- The indexes in the order of their first delta, behind those that are there.
unfoldable pub indexes : List ℤ → List ToolDelta → List ℤ
indexes js [] = js
indexes js (d ∷ ds) = indexes (add_index (position (tag d) js) (tag d) js) ds

-- The call that the deltas with an index make: their first ID and name, and all their arguments.
abbrev pub call_for : List ToolDelta → ℤ → StreamingCall
call_for ds i = record {
  id = first_text (map (λ d. d.id) (deltas_at i ds));
  name = first_text (map (λ d. d.name) (deltas_at i ds));
  args = joined (map (λ d. d.arguments) (deltas_at i ds));
  emitted = false;
}

unfoldable pub total : List ToolDelta → ℕ
total [] = 0
total (d ∷ ds) = length d.arguments + total ds

-- The delta has an index, and no ID but the one of its index.
abbrev pub Tagged : (ℤ → Text) → ToolDelta → Type 0
Tagged ids d = (d.index ≡ some (tag d)) × ((d.id ≡ []) ⊎ (d.id ≡ ids (tag d)))

pub int_eq_refl : (i : ℤ) → int_eq i i ≡ true
int_eq_refl i = ground arith

pub int_eq_sound : (i j : ℤ) → int_eq i j ≡ true → i ≡ j
int_eq_sound (pos a) (pos b) h = ap pos (ground arith)
int_eq_sound (pos a) (negsuc b) h = ground arith
int_eq_sound (negsuc a) (pos b) h = ground arith
int_eq_sound (negsuc a) (negsuc b) h = ap negsuc (ground arith)

pub map-append :
    {A B : Type 0} (f : A → B) (xs ys : List A) → map f (xs ++ ys) ≡ map f xs ++ map f ys
map-append f [] ys = refl
map-append f (x ∷ xs) ys = ap (◌∷◌ (f x)) (map-append f xs ys)

pub first_text-append :
    (ts : List Text) (t : Text) → first_text (ts ++ (t ∷ [])) ≡ or_new (first_text ts) t
unfolding first_text
first_text-append [] t = ground arith
first_text-append (u ∷ ts) t = ground (arith, first_text-append ts t)

pub joined-append : (ts : List Text) (t : Text) → joined (ts ++ (t ∷ [])) ≡ joined ts ++ t
unfolding joined
joined-append [] t = append_nil t
joined-append (u ∷ ts) t = rw (joined-append ts t, append_assoc u (joined ts) t) refl

pub deltas_at-append :
    (i : ℤ) (ds : List ToolDelta) (d : ToolDelta)
    → deltas_at i (ds ++ (d ∷ []))
      ≡ (if int_eq (tag d) i then deltas_at i ds ++ (d ∷ []) else deltas_at i ds)
unfolding deltas_at
deltas_at-append i [] d = ground arith
deltas_at-append i (e ∷ ds) d = ground (arith, deltas_at-append i ds d)

pub total-append :
    (ds : List ToolDelta) (d : ToolDelta) → total (ds ++ (d ∷ [])) ≡ total ds + length d.arguments
unfolding total
total-append [] d = omega arith
total-append (e ∷ ds) d = omega (arith, total-append ds d)

pub total-append_list : (ds es : List ToolDelta) → total (ds ++ es) ≡ total ds + total es
unfolding total
total-append_list [] es = omega arith
total-append_list (d ∷ ds) es = omega (arith, total-append_list ds es)

pub call_for-other :
    (ds : List ToolDelta) (d : ToolDelta) (i : ℤ)
    → int_eq (tag d) i ≡ false
    → call_for (ds ++ (d ∷ [])) i ≡ call_for ds i
call_for-other ds d i n = rw (deltas_at-append i ds d, n) refl

pub call_for-same :
    (ds : List ToolDelta) (d : ToolDelta)
    → call_for (ds ++ (d ∷ [])) (tag d) ≡ filled d (call_for ds (tag d))
call_for-same ds d =
    let at = deltas_at (tag d) ds in
    rw
      (
        deltas_at-append (tag d) ds d,
        int_eq_refl (tag d),
        map-append (λ e. e.id) at (d ∷ []),
        map-append (λ e. e.name) at (d ∷ []),
        map-append (λ e. e.arguments) at (d ∷ []),
        first_text-append (map (λ e. e.id) at) d.id,
        first_text-append (map (λ e. e.name) at) d.name,
        joined-append (map (λ e. e.arguments) at) d.arguments,
      )
      refl
