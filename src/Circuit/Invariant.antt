-- ===== src/Circuit/Invariant.antt =====
-- circuitbreaker.go: what holds of a breaker between two calls.
use rho_llm.Base.{ℕ, ◌≡◌, ◌≢◌, ◌<◌, ◌⊎◌, Bool, Option, List, [], ◌∷◌, arith, ℤ, pos, ◌<ℤ◌}
use rho_llm.Errors.{GoError}
use rho_llm.Circuit.{
  CircuitBreaker, circuit_closed, circuit_half_open, any_probe, new_circuit_breaker, bump_probe_gen,
  Event, allows, resets, succeeds, fails, releases, step, run,
}

-- A probe token is never one of the two reserved values; a closed circuit has not used up its
-- threshold.
pub record WellFormed (cb : CircuitBreaker) : Type 0 where
  pub gen_bounded : cb.probe_gen < any_probe
  pub probing : cb.state ≡ circuit_half_open → 0 < cb.probe_gen
  pub below : cb.state ≡ circuit_closed → (cb.failures ≡ 0) ⊎ (pos cb.failures <ℤ cb.threshold)

pub new-WellFormed :
    (t c : ℤ) (good : Option (GoError → Bool)) (o : Bool)
    → WellFormed (new_circuit_breaker t c good o)
unfolding new_circuit_breaker
new-WellFormed t c good o = ground arith

pub bump_bounds : (g : ℕ) → (0 < bump_probe_gen g) × (bump_probe_gen g < any_probe)
unfolding bump_probe_gen
bump_bounds g = ground arith

pub bump-ne : (g : ℕ) → 0 < g → g < any_probe → bump_probe_gen g ≢ g
unfolding bump_probe_gen
bump-ne g h k = ground arith

-- Every method, with any token at any time, keeps the breaker well formed.
pub step-WellFormed :
    (cb : CircuitBreaker) (e : ℕ × Event) → WellFormed cb → WellFormed (step cb e).0
unfolding step
step-WellFormed cb (now, allows) w = ground (arith, bump_bounds cb.probe_gen)
step-WellFormed cb (now, resets) w = ground arith
step-WellFormed cb (now, succeeds token) w = ground arith
step-WellFormed cb (now, fails token) w = ground arith
step-WellFormed cb (now, releases token) w = ground arith

pub run-WellFormed :
    (cb : CircuitBreaker) (es : List (ℕ × Event)) → WellFormed cb → WellFormed (run cb es)
run-WellFormed cb [] w = w
run-WellFormed cb (e ∷ es) w = run-WellFormed (step cb e).0 es (step-WellFormed cb e w)
