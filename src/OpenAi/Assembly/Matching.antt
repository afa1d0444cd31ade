-- ===== src/OpenAi/Assembly/Matching.antt =====
-- provider/openaicompat/openaicompat.go: calls and byIndex while parallel tool calls are assembled.
use rho_llm.Base.{
  ◌∙◌, ℕ, zero, suc, ◌≡◌, refl, ap, Text, text_eq_iff, is_empty, false, none, some, List, [], ◌∷◌,
  ◌++◌, map, arith, ℤ, Bool-cases, ◌⊎◌, inl, inr, length, get_elem?, set, All, if◌then◌else◌,
}
use rho_llm.Anthropic.{int_eq}
use rho_llm.OpenAi.{ToolDelta, StreamingCall, Assembling, new_call, filled, or_new, reuses}
use rho_llm.OpenAi.Assembly.{
  tag, deltas_at, first_text, joined, position, call_for, total, Tagged, int_eq_sound,
}

pub position-append :
    (i j : ℤ) (js : List ℤ)
    → position j js ≡ none
    → position i (js ++ (j ∷ [])) ≡ (if int_eq j i then some (length js) else position i js)
unfolding position
position-append i j [] h = ground arith
position-append i j (k ∷ js) h = ground (arith, position-append i j js)

pub get_elem?-position :
    (i : ℤ) (k : ℕ) (js : List ℤ) → position i js ≡ some k → get_elem? js k ≡ some i
unfolding position
get_elem?-position i k [] h = cc
get_elem?-position i zero (j ∷ js) h = ground (arith, int_eq_sound i j)
get_elem?-position i (suc k) (j ∷ js) h = get_elem?-position i k js (ground arith)

-- No index stands twice.
abbrev pub Distinct : List ℤ → Type 0
Distinct [] = Unit
Distinct (j ∷ js) = (position j js ≡ none) × Distinct js

pub Distinct-append :
    (i : ℤ) (js : List ℤ) → position i js ≡ none → Distinct js → Distinct (js ++ (i ∷ []))
unfolding position
Distinct-append i [] h d = (refl, tt)
Distinct-append i (j ∷ js) h d = (
  position-append j i js (ground arith) ∙ ground (arith, d.0),
  Distinct-append i js (ground arith) d.1,
)

module _ (f g : ℤ → StreamingCall) (i : ℤ) (e : (j : ℤ) → int_eq i j ≡ false → g j ≡ f j) where
  pub map-same : (js : List ℤ) → position i js ≡ none → map g js ≡ map f js
  unfolding position
  map-same [] h = refl
  map-same (j ∷ js) h = ground (arith, e j, map-same js)

  -- Changing a function at one index changes its values at that index's position.
  pub map-set :
      (k : ℕ) (js : List ℤ)
      → Distinct js
      → position i js ≡ some k
      → map g js ≡ set (map f js) k (g i)
  unfolding position
  map-set k [] d h = cc
  map-set zero (j ∷ js) d h =
      let same : i ≡ j = int_eq_sound i j (ground arith) in
      ground (arith, same, map-same js (rw same d.0))
  map-set (suc k) (j ∷ js) d h = ground (arith, e j (ground arith), map-set k js d.1 (ground arith))

-- The state holds the calls of the deltas so far, in the order of their indexes.
pub record Matches (ds : List ToolDelta) (js : List ℤ) (a : Assembling) : Type 0 where
  pub calls : a.calls ≡ map (call_for ds) js
  pub indexed : (i : ℤ) → a.by_index i ≡ position i js
  pub pending : a.pending_bytes ≡ total ds
  pub distinct : Distinct js
  pub unseen : (i : ℤ) → position i js ≡ none → deltas_at i ds ≡ []

or_new_self : (t : Text) → or_new t t ≡ t
or_new_self t = ground arith

pub filled-new :
    (d : ToolDelta) (c : StreamingCall)
    → c ≡ call_for [] (tag d)
    → filled d (new_call d) ≡ filled d c
unfolding deltas_at first_text joined
filled-new d c e = rw (e, or_new_self d.id, or_new_self d.name) refl

pub get_elem?-last :
    {A : Type 0} (xs : List A) (x : A) → get_elem? (xs ++ (x ∷ [])) (length xs) ≡ some x
get_elem?-last [] x = refl
get_elem?-last (y ∷ ys) x = get_elem?-last ys x

pub set-last :
    {A : Type 0} (xs : List A) (x y : A) → set (xs ++ (x ∷ [])) (length xs) y ≡ xs ++ (y ∷ [])
set-last [] x y = refl
set-last (z ∷ xs) x y = ap (◌∷◌ z) (set-last xs x y)

pub get_elem?-map :
    {A B : Type 0} (f : A → B) (xs : List A) (k : ℕ) (x : A)
    → get_elem? xs k ≡ some x
    → get_elem? (map f xs) k ≡ some (f x)
get_elem?-map f [] k x h = cc
get_elem?-map f (y ∷ ys) zero x h = ground arith
get_elem?-map f (y ∷ ys) (suc k) x h = get_elem?-map f ys k x h

-- The deltas with one index have no ID but that one's.
first_text-Tagged :
    (ids : ℤ → Text) (i : ℤ) (ds : List ToolDelta)
    → All (Tagged ids) ds
    → (first_text (map (λ d. d.id) (deltas_at i ds)) ≡ [])
      ⊎ (first_text (map (λ d. d.id) (deltas_at i ds)) ≡ ids i)
unfolding deltas_at first_text
first_text-Tagged ids i [] h = inl refl
first_text-Tagged ids i (d ∷ ds) h = elim (Bool-cases (int_eq (tag d) i)) [
  | inl p ↦ elim (Bool-cases (is_empty d.id)) [
    | inl q ↦ rw (p, q) (first_text-Tagged ids i ds h.1)
    | inr q ↦ elim h.0.1 [
      | inl r ↦ cc
      | inr r ↦ rw (p, q) (inr (r ∙ ap ids (int_eq_sound (tag d) i p)))
    ]
  ]
  | inr p ↦ rw p (first_text-Tagged ids i ds h.1)
]

-- A delta whose ID is that of its index continues the call of its index.
pub reuses-call_for :
    (ids : ℤ → Text) (ds : List ToolDelta) (d : ToolDelta)
    → All (Tagged ids) ds
    → Tagged ids d
    → reuses d (some (call_for ds (tag d))) ≡ false
reuses-call_for ids ds d h t =
    ground
      (arith, first_text-Tagged ids (tag d) ds h, t.1, text_eq_iff d.id (call_for ds (tag d)).id)
