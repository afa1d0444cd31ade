-- ===== src/Circuit/Probe.antt =====
-- circuitbreaker.go: the half-open state, its probe and the token of the probe.
use rho_llm.Base.{
  ℕ, ◌≡◌, refl, sym, subst, ◌≢◌, ◌⊎◌, true, false, List, [], ◌∷◌, arith, pos, ◌<ℤ◌, ◌≤ℤ◌, All, none,
}
use rho_llm.Clock.{since, at, max_int64}
use rho_llm.Circuit.{
  CircuitBreaker, circuit_closed, circuit_open, circuit_half_open, allow, Event, allows, resets,
  succeeds, fails, releases, step, run, any_probe,
}
use rho_llm.Circuit.Invariant.{WellFormed, bump_bounds, bump-ne}

-- A call by somebody who does not own the current probe, made while the probe may still report.
abbrev pub IsForeign : CircuitBreaker → ℕ × Event → Type 0
IsForeign cb (now, allows) = since now cb.probe_started <ℤ cb.cooldown
IsForeign cb (now, resets) = ⊥
IsForeign cb (now, succeeds token) = (token ≢ cb.probe_gen) × (token ≢ any_probe)
IsForeign cb (now, fails token) = (token ≢ cb.probe_gen) × (token ≢ any_probe)
IsForeign cb (now, releases token) = token ≢ cb.probe_gen

step_foreign :
    (cb : CircuitBreaker) (e : ℕ × Event)
    → cb.state ≡ circuit_half_open
    → IsForeign cb e
    → step cb e ≡ (cb, none)
unfolding step
step_foreign cb (now, allows) s h = ground arith
step_foreign cb (now, resets) s h = absurd h
step_foreign cb (now, succeeds token) s h = ground arith
step_foreign cb (now, fails token) s h = ground arith
step_foreign cb (now, releases token) s h = ground arith

run_foreign :
    (cb : CircuitBreaker) (es : List (ℕ × Event))
    → cb.state ≡ circuit_half_open
    → All (IsForeign cb) es
    → run cb es ≡ cb
run_foreign cb [] s h = refl
run_foreign cb (e ∷ es) s h =
    subst (λ p. run p.0 es ≡ cb) (sym (step_foreign cb e s h.0)) (run_foreign cb es s h.1)

held :
    (cb : CircuitBreaker) (now : ℕ)
    → cb.state ≡ circuit_half_open
    → since now cb.probe_started <ℤ cb.cooldown
    → (allow cb now).admitted ≡ false
unfolding allow
held cb now s w = ground arith

-- While a half-open probe is outstanding and its cooldown has not passed, calls of Allow, outcomes
-- and releases with any token but the probe's own or the wildcard leave the breaker exactly as it
-- is, and a further Allow is refused.
pub foreign_ignored :
    (cb : CircuitBreaker) (es : List (ℕ × Event)) (now : ℕ)
    → cb.state ≡ circuit_half_open
    → All (IsForeign cb) es
    → since now cb.probe_started <ℤ cb.cooldown
    → (run cb es ≡ cb) × ((allow (run cb es) now).admitted ≡ false)
foreign_ignored cb es now s h w =
    let same = run_foreign cb es s h in (same, rw same (held cb now s w))

-- The cooldown of the open circuit, or of the outstanding probe, is over.
abbrev pub Due : CircuitBreaker → ℕ → Type 0
Due cb now =
    ((cb.state ≡ circuit_open) × (cb.cooldown ≤ℤ since now cb.opened_at))
    ⊎ ((cb.state ≡ circuit_half_open) × (cb.cooldown ≤ℤ since now cb.probe_started))

-- When the cooldown is over, Allow admits one probe: the circuit is half-open, the probe's clock
-- starts now, and its token is not 0, not the wildcard, and not the token of the probe before it.
pub allow-Due :
    (cb : CircuitBreaker) (now : ℕ)
    → WellFormed cb
    → Due cb now
    → let a = allow cb now in
      (a.admitted ≡ true)
      × (a.breaker.state ≡ circuit_half_open)
      × (a.breaker.probe_started ≡ at now)
      × (a.token ≡ a.breaker.probe_gen)
      × (a.token ≢ 0)
      × (a.token ≢ any_probe)
      × ((cb.probe_gen ≡ 0) ⊎ (a.token ≢ cb.probe_gen))
unfolding allow
allow-Due cb now w d = ground (arith, bump_bounds cb.probe_gen, bump-ne cb.probe_gen)

owner_resolves :
    (cb : CircuitBreaker) (now : ℕ)
    → cb.state ≡ circuit_half_open
    → ((step cb (now, succeeds cb.probe_gen)).0.state ≡ circuit_closed)
      × ((step cb (now, succeeds cb.probe_gen)).0.failures ≡ 0)
      × ((step cb (now, fails cb.probe_gen)).0.state ≡ circuit_open)
      × ((step cb (now, fails cb.probe_gen)).0.opened_at ≡ at now)
unfolding step
owner_resolves cb now s = ground arith

-- A probe that its owner releases re-arms the half-open circuit: the next Allow is admitted at once.
pub release-allow :
    (cb : CircuitBreaker) (now : ℕ)
    → cb.state ≡ circuit_half_open
    → WellFormed cb
    → cb.cooldown ≤ℤ pos max_int64
    → (allow (step cb (now, releases cb.probe_gen)).0 now).admitted ≡ true
unfolding step allow
release-allow cb now s w c = ground arith
