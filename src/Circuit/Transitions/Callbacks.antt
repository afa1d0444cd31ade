-- ===== src/Circuit/Transitions/Callbacks.antt =====
-- circuitbreaker.go: the callbacks of several goroutines. A method releases cb.mu before it calls
-- onStateChange, so that other goroutines may enter and leave the breaker, and call onStateChange,
-- between the two.
use mathlib.Core.List.{Permᴰ}
use mathlib.Core.List.Permᴰ
use mathlib.Core.List.Permᴰ.{nil, cons, swap, trans}
use rho_llm.Base.{
  ℕ, ◌≡◌, refl, true, List, [], ◌∷◌, ◌++◌, append_assoc, Option-cases, inl, inr, subst, sym, ◌∙◌,
}
use rho_llm.Circuit.{CircuitBreaker, CircuitState, Transition, Event, step}
use rho_llm.Circuit.Transitions.{Chain, Edge, cons_fired, step-Edge, step_quiet}

-- The breaker, the transitions whose goroutines are on their way to the callback, and those that the
-- callback has been given, the last first.
pub record Watched : Type 0 where
  pub breaker : CircuitBreaker
  pub due : List Transition
  pub seen : List Transition

-- One goroutine's critical section, or one goroutine's callback: any that is due may be the next.
pub data Moves : Watched → Watched → Type 0 where
  section :
      {w : Watched} (e : ℕ × Event)
      → Moves w
          (record w { breaker = (step w.breaker e).0; due = cons_fired (step w.breaker e).1 w.due })
  callback :
      {w : Watched} (before : List Transition) (t : Transition) (after : List Transition)
      → w.due ≡ before ++ (t ∷ after)
      → Moves w (record w { due = before ++ after; seen = t ∷ w.seen })

-- Any number of them, from a breaker that no goroutine has used.
pub data Unfolds (cb : CircuitBreaker) : Watched → Type 0 where
  unused : Unfolds cb (record { breaker = cb; due = []; seen = [] })
  later : {w w' : Watched} → Unfolds cb w → Moves w w' → Unfolds cb w'

Permᴰ-last :
    (t : Transition) (ts xs ys : List Transition)
    → Permᴰ ts (xs ++ ys)
    → Permᴰ (ts ++ (t ∷ [])) (xs ++ (t ∷ ys))
Permᴰ-last t ts xs ys p = trans (Permᴰ.append_right (t ∷ []) p) (
    subst (λ zs. Permᴰ zs (xs ++ (t ∷ ys))) (sym (append_assoc xs ys (t ∷ [])))
      (Permᴰ.append_left xs (Permᴰ-back t ys)))
  where
    Permᴰ-back : (t : Transition) (ys : List Transition) → Permᴰ (ys ++ (t ∷ [])) (t ∷ ys)
    Permᴰ-back t [] = Permᴰ.refl (t ∷ [])
    Permᴰ-back t (y ∷ ys) = trans (cons refl (Permᴰ-back t ys)) (swap refl refl)

Permᴰ-given :
    (t : Transition) (xs before after : List Transition)
    → Permᴰ (xs ++ (before ++ (t ∷ after))) (t ∷ (xs ++ (before ++ after)))
Permᴰ-given t xs before after =
    trans (Permᴰ.append_left xs (Permᴰ.middle t before after)) (Permᴰ.middle t xs (before ++ after))

Chain-last :
    (s u v : CircuitState) (ts : List Transition) (t : Transition)
    → Chain s ts u
    → u ≡ t.from
    → Edge t.from t.to
    → t.to ≡ v
    → Chain s (ts ++ (t ∷ [])) v
Chain-last s u v [] t c f e g = (c ∙ f, e, g)
Chain-last s u v (t' ∷ ts) t c f e g = (c.0, c.1, Chain-last t'.to u v ts t c.2 f e g)

-- The transitions so far, in the order of their critical sections, are a chain.
abbrev Rearranged : CircuitBreaker → Watched → Type 0
Rearranged cb w =
    (ts : List Transition) × (Chain cb.state ts w.breaker.state × Permᴰ ts (w.seen ++ w.due))
    × (w.breaker.observed ≡ true)

Moves-Rearranged :
    (cb : CircuitBreaker) {w w' : Watched} → Moves w w' → Rearranged cb w → Rearranged cb w'
Moves-Rearranged cb {w} (section e) (ts, (c, p), o) =
    let quiet = step_quiet w.breaker e o in
    elim (Option-cases (step w.breaker e).1) [
      | inl q ↦ (ts, (subst (λ s. Chain cb.state ts s) (sym (quiet.1 q)) c, rw q p), quiet.0)
      | inr (t, q) ↦
          let edge = step-Edge w.breaker e t q in
          (
            ts ++ (t ∷ []),
            (
              Chain-last cb.state w.breaker.state (step w.breaker e).0.state ts t c edge.1 edge.0
                  (sym edge.2),
              rw q (Permᴰ-last t ts w.seen w.due p),
            ),
            quiet.0,
          )
    ]
Moves-Rearranged cb {w} (callback before t after h) (ts, (c, p), o) = (
  ts,
  (c, trans (subst (λ d. Permᴰ ts (w.seen ++ d)) h p) (Permᴰ-given t w.seen before after)),
  o,
)

Unfolds-Rearranged :
    (cb : CircuitBreaker) {w : Watched} → cb.observed ≡ true → Unfolds cb w → Rearranged cb w
Unfolds-Rearranged cb o unused = ([], (refl, nil), o)
Unfolds-Rearranged cb o (later r m) = Moves-Rearranged cb m (Unfolds-Rearranged cb o r)

-- However the critical sections of several goroutines and the callbacks after them interleave: in the
-- order of the critical sections the transitions start at the breaker's first state, follow the edges
-- of the diagram one after the other and end at its present state. Those that the callback has been
-- given so far and those that are still due are together exactly these, none lost, repeated or made
-- up, but possibly in another order. The breaker has an onStateChange.
pub Unfolds-Chain :
    (cb : CircuitBreaker) (w : Watched)
    → cb.observed ≡ true
    → Unfolds cb w
    → (ts : List Transition) × (Chain cb.state ts w.breaker.state × Permᴰ ts (w.seen ++ w.due))
Unfolds-Chain cb w o r = let (ts, found, _) = Unfolds-Rearranged cb o r in (ts, found)
