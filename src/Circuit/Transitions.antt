-- ===== src/Circuit/Transitions.antt =====
-- circuitbreaker.go: the transitions that are due to onStateChange.
pub mod Callbacks
use rho_llm.Base.{
  ℕ, ◌≡◌, refl, inl, inr, Option-cases, subst, true, Option, none, some, List, [], ◌∷◌, arith,
}
use rho_llm.Circuit.{
  CircuitBreaker, CircuitState, circuit_closed, circuit_open, circuit_half_open, Transition, Event,
  allows, resets, succeeds, fails, releases, step, run,
}

-- The transitions that are due after a critical section.
abbrev pub cons_fired : Option Transition → List Transition → List Transition
cons_fired none ts = ts
cons_fired (some t) ts = t ∷ ts

-- The edges of the state diagram.
pub data Edge : CircuitState → CircuitState → Type 0 where
  trip : Edge circuit_closed circuit_open
  probe : Edge circuit_open circuit_half_open
  recover : Edge circuit_half_open circuit_closed
  reopen : Edge circuit_half_open circuit_open
  force : Edge circuit_open circuit_closed

ruleset edges = (trip, probe, recover, reopen, force)

-- A list of transitions that leads from one state to another along the edges.
abbrev pub Chain : CircuitState → List Transition → CircuitState → Type 0
Chain s [] u = s ≡ u
Chain s (t ∷ ts) u = (s ≡ t.from) × Edge t.from t.to × Chain t.to ts u

pub step-Edge :
    (cb : CircuitBreaker) (e : ℕ × Event) (t : Transition)
    → (step cb e).1 ≡ some t
    → Edge t.from t.to × (cb.state ≡ t.from) × ((step cb e).0.state ≡ t.to)
unfolding step
step-Edge cb (now, allows) t h = grind (arith, edges)
step-Edge cb (now, resets) t h = grind (arith, edges)
step-Edge cb (now, succeeds token) t h = grind (arith, edges)
step-Edge cb (now, fails token) t h = grind (arith, edges)
step-Edge cb (now, releases token) t h = cc

pub step_quiet :
    (cb : CircuitBreaker) (e : ℕ × Event)
    → cb.observed ≡ true
    → ((step cb e).0.observed ≡ true) × ((step cb e).1 ≡ none → (step cb e).0.state ≡ cb.state)
unfolding step
step_quiet cb (now, allows) h = ground arith
step_quiet cb (now, resets) h = ground arith
step_quiet cb (now, succeeds token) h = ground arith
step_quiet cb (now, fails token) h = ground arith
step_quiet cb (now, releases token) h = ground arith
