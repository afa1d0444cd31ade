-- ===== src/Circuit/Opening.antt =====
-- circuitbreaker.go: when the circuit opens, and how long it stays open.
use rho_llm.Base.{
  ℕ, suc, ◌+◌, ◌≡◌, refl, inl, inr, Bool, false, ◌&&◌, not, List, [], ◌∷◌, arith, pos, ◌<ℤ◌, ◌==◌,
  leb_ℤ, if◌then◌else◌, length, Bool-cases, All,
}
use rho_llm.Clock.{since}
use rho_llm.Circuit.{
  CircuitBreaker, circuit_closed, circuit_open, allow, Event, allows, resets, succeeds, fails,
  releases, step, run,
}
use rho_llm.Circuit.Invariant.{WellFormed, step-WellFormed}

-- Failures reported one after the other, each with its time and token.
abbrev pub failing : List (ℕ × ℕ) → List (ℕ × Event)
failing [] = []
failing ((now, token) ∷ fs) = (now, fails token) ∷ failing fs

-- An open circuit ignores failures.
fails_open :
    (cb : CircuitBreaker) (now token : ℕ)
    → cb.state ≡ circuit_open
    → (step cb (now, fails token)).0.state ≡ circuit_open
unfolding step
fails_open cb now token h = ground arith

stays_open :
    (cb : CircuitBreaker) (fs : List (ℕ × ℕ))
    → cb.state ≡ circuit_open
    → (run cb (failing fs)).state ≡ circuit_open
stays_open cb [] h = h
stays_open cb ((now, token) ∷ fs) h =
    stays_open (step cb (now, fails token)).0 fs (fails_open cb now token h)

fails_closed :
    (cb : CircuitBreaker) (now token : ℕ)
    → cb.state ≡ circuit_closed
    → let after = (step cb (now, fails token)).0 in
      (after.state
        ≡ (if leb_ℤ cb.threshold (pos (suc cb.failures)) then circuit_open else circuit_closed))
      × (after.failures ≡ suc cb.failures)
      × (after.threshold ≡ cb.threshold)
unfolding step
fails_closed cb now token h = ground arith

abbrev reached : CircuitBreaker → ℕ → Bool
reached cb n = not (n == 0) && leb_ℤ cb.threshold (pos (cb.failures + n))

-- n consecutive failures open a closed circuit exactly when they bring the count to the threshold.
pub run-failing :
    (cb : CircuitBreaker) (fs : List (ℕ × ℕ))
    → WellFormed cb
    → cb.state ≡ circuit_closed
    → (run cb (failing fs)).state
      ≡ (if reached cb (length fs) then circuit_open else circuit_closed)
run-failing cb [] w h = h
run-failing cb ((now, token) ∷ fs) w h =
    let after = fails_closed cb now token h in
    elim (Bool-cases (leb_ℤ cb.threshold (pos (suc cb.failures)))) [
      | inl hit ↦ ground (arith, stays_open (step cb (now, fails token)).0 fs)
      | inr miss ↦ ground (
        arith,
        run-failing (step cb (now, fails token)).0 fs (step-WellFormed cb (now, fails token) w),
      )
    ]

-- A call at a time within the open circuit's cooldown, other than Reset.
abbrev pub WithinCooldown : CircuitBreaker → ℕ × Event → Type 0
WithinCooldown cb (now, resets) = ⊥
WithinCooldown cb (now, _) = since now cb.opened_at <ℤ cb.cooldown

record SameOpening (cb : CircuitBreaker) (after : CircuitBreaker) : Type 0 where
  state : after.state ≡ circuit_open
  opened_at : after.opened_at ≡ cb.opened_at
  cooldown : after.cooldown ≡ cb.cooldown

step-SameOpening :
    (cb b : CircuitBreaker) (e : ℕ × Event)
    → SameOpening cb b
    → WithinCooldown cb e
    → SameOpening cb (step b e).0
unfolding step
step-SameOpening cb b (now, allows) s h = ground arith
step-SameOpening cb b (now, resets) s h = absurd h
step-SameOpening cb b (now, succeeds token) s h = ground arith
step-SameOpening cb b (now, fails token) s h = ground arith
step-SameOpening cb b (now, releases token) s h = ground arith

run-SameOpening :
    (cb b : CircuitBreaker) (es : List (ℕ × Event))
    → SameOpening cb b
    → All (WithinCooldown cb) es
    → SameOpening cb (run b es)
run-SameOpening cb b [] s h = s
run-SameOpening cb b (e ∷ es) s h =
    run-SameOpening cb (step b e).0 es (step-SameOpening cb b e s h.0) h.1

blocked :
    (cb b : CircuitBreaker) (now : ℕ)
    → SameOpening cb b
    → since now cb.opened_at <ℤ cb.cooldown
    → ((allow b now).admitted ≡ false) × ((allow b now).breaker ≡ b) × (b.state ≡ circuit_open)
unfolding allow
blocked cb b now s w = ground arith

-- Until its cooldown is over an open circuit admits nobody and stays open, whatever is reported
-- to it, short of a Reset.
pub open_blocks :
    (cb : CircuitBreaker) (es : List (ℕ × Event)) (now : ℕ)
    → cb.state ≡ circuit_open
    → All (WithinCooldown cb) es
    → since now cb.opened_at <ℤ cb.cooldown
    → ((allow (run cb es) now).admitted ≡ false)
      × ((allow (run cb es) now).breaker ≡ run cb es)
      × ((run cb es).state ≡ circuit_open)
open_blocks cb es now o h w =
    blocked cb (run cb es) now
      (run-SameOpening cb cb es (record { state = o; opened_at = refl; cooldown = refl }) h) w
