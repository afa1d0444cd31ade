-- ===== src/Circuit.antt =====
-- circuitbreaker.go: the three-state circuit breaker. Each method is one critical section, given
-- the clock reading `now`; it returns the breaker it leaves and the transition that is due
-- to onStateChange. The callback itself is the caller's code, and runs after the mutex is released: see
-- Transitions/Callbacks for when.
pub mod Invariant
pub mod Opening
pub mod Probe
pub mod Transitions
pub mod Execute
use rho_llm.Base.{
  ℕ, ◌+◌, ◌%◌, ◌^◌, Bool, true, false, ◌&&◌, ◌||◌, not, Option, none, some, List, [], ◌∷◌, ◌==◌,
  if◌then◌else◌, ℤ, pos, leb_ℤ,
}
use rho_llm.Clock.{Stamp, never, at, since}
use rho_llm.Errors.{GoError}

pub data CircuitState : Type 0 where
  circuit_closed circuit_open circuit_half_open : CircuitState

abbrev pub state_eq : CircuitState → CircuitState → Bool
state_eq circuit_closed circuit_closed = true
state_eq circuit_open circuit_open = true
state_eq circuit_half_open circuit_half_open = true
state_eq _ _ = false

pub record Transition : Type 0 where
  pub from : CircuitState
  pub to : CircuitState

-- `observed` says whether onStateChange is set.
pub record CircuitBreaker : Type 0 where
  pub state : CircuitState
  pub failures : ℕ
  pub threshold : ℤ
  pub cooldown : ℤ
  pub opened_at : Stamp
  pub probe_started : Stamp
  pub probe_gen : ℕ
  pub is_success : Option (GoError → Bool)
  pub observed : Bool

abbrev pub two64 : ℕ
two64 = 2 ^ 64

-- ^uint64(0): the wildcard token.
abbrev pub any_probe : ℕ
any_probe = 18446744073709551615

unfoldable pub new_circuit_breaker : ℤ → ℤ → Option (GoError → Bool) → Bool → CircuitBreaker
new_circuit_breaker threshold cooldown is_success observed = record {
  state = circuit_closed;
  failures = 0;
  threshold = threshold;
  cooldown = cooldown;
  opened_at = never;
  probe_started = never;
  probe_gen = 0;
  is_success = is_success;
  observed = observed;
}

-- probeGen++ on a uint64, skipping 0 and anyProbe.
unfoldable pub bump_probe_gen : ℕ → ℕ
bump_probe_gen gen =
    let next = (gen + 1) % two64 in if next == 0 || next == any_probe then 1 else next

unfoldable pub set_state_locked : CircuitBreaker → CircuitState → CircuitBreaker × Option Transition
set_state_locked cb to =
    if state_eq cb.state to
    then (cb, none)
    else (record cb { state = to }, some (record { from = cb.state; to = to }))

-- Whether a transition is due to onStateChange.
unfoldable pub fire_callback : CircuitBreaker → Option Transition → Option Transition
fire_callback cb none = none
fire_callback cb (some t) = if cb.observed then some t else none

pub record Allowed : Type 0 where
  pub breaker : CircuitBreaker
  pub admitted : Bool
  pub token : ℕ
  pub fired : Option Transition

admit_probe : CircuitBreaker → ℕ → CircuitBreaker
admit_probe cb now = record cb { probe_started = at now; probe_gen = bump_probe_gen cb.probe_gen }

-- The switch of allow() over the state.
allow_in : CircuitState → CircuitBreaker → ℕ → Allowed
unfolding admit_probe set_state_locked fire_callback
allow_in circuit_closed cb now = record { breaker = cb; admitted = true; token = 0; fired = none }
allow_in circuit_open cb now =
    if leb_ℤ cb.cooldown (since now cb.opened_at)
    then (let (half, changed) = set_state_locked cb circuit_half_open in
        let probing = admit_probe half now in
        record {
          breaker = probing;
          admitted = true;
          token = probing.probe_gen;
          fired = fire_callback probing changed;
        })
    else record { breaker = cb; admitted = false; token = 0; fired = none }
allow_in circuit_half_open cb now =
    if leb_ℤ cb.cooldown (since now cb.probe_started)
    then (let probing = admit_probe cb now in
        record { breaker = probing; admitted = true; token = probing.probe_gen; fired = none })
    else record { breaker = cb; admitted = false; token = 0; fired = none }

unfoldable pub allow : CircuitBreaker → ℕ → Allowed
unfolding allow_in
allow cb now = allow_in cb.state cb now

-- A half-open circuit is resolved only by its current probe, or by the wildcard.
unfoldable pub is_foreign : CircuitBreaker → ℕ → Bool
is_foreign cb token =
    state_eq cb.state circuit_half_open && not (token == any_probe) && not (cb.probe_gen == token)

unfoldable pub record_success : CircuitBreaker → ℕ → CircuitBreaker × Option Transition
unfolding is_foreign set_state_locked fire_callback
record_success cb token =
    if is_foreign cb token
    then (cb, none)
    else (let cleared = record cb { failures = 0 } in
        let (after, changed) =
          (if state_eq cleared.state circuit_half_open
            then set_state_locked cleared circuit_closed
            else (cleared, none)) in
        (after, fire_callback after changed))

-- The switch of recordFailure over the state, the failure already counted.
fail_in : CircuitState → CircuitBreaker → ℕ → CircuitBreaker × Option Transition
unfolding set_state_locked
fail_in circuit_closed cb now =
    if leb_ℤ cb.threshold (pos cb.failures)
    then set_state_locked (record cb { opened_at = at now }) circuit_open
    else (cb, none)
fail_in circuit_half_open cb now = set_state_locked (record cb { opened_at = at now }) circuit_open
fail_in circuit_open cb now = (cb, none)

unfoldable pub record_failure : CircuitBreaker → ℕ → ℕ → CircuitBreaker × Option Transition
unfolding is_foreign fail_in fire_callback
record_failure cb token now =
    if is_foreign cb token
    then (cb, none)
    else (let (after, changed) = fail_in cb.state (record cb { failures = cb.failures + 1 }) now in
        (after, fire_callback after changed))

unfoldable pub release_probe : CircuitBreaker → ℕ → CircuitBreaker
release_probe cb token =
    if token == 0
    then cb
    else (if state_eq cb.state circuit_half_open && cb.probe_gen == token
        then record cb { probe_started = never }
        else cb)

unfoldable pub reset : CircuitBreaker → CircuitBreaker × Option Transition
unfolding set_state_locked fire_callback
reset cb =
    let (after, changed) = set_state_locked (record cb { failures = 0 }) circuit_closed in
    (after, fire_callback after changed)

-- What other goroutines may do to the breaker, in any order.
pub data Event : Type 0 where
  allows resets : Event
  succeeds fails releases : ℕ → Event

unfoldable pub step : CircuitBreaker → ℕ × Event → CircuitBreaker × Option Transition
unfolding allow record_success record_failure release_probe reset
step cb (now, allows) = ((allow cb now).breaker, (allow cb now).fired)
step cb (now, resets) = reset cb
step cb (now, succeeds token) = record_success cb token
step cb (now, fails token) = record_failure cb token now
step cb (now, releases token) = (release_probe cb token, none)

abbrev pub run : CircuitBreaker → List (ℕ × Event) → CircuitBreaker
run cb [] = cb
run cb (e ∷ es) = run (step cb e).0 es
