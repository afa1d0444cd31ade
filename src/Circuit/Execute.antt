-- ===== src/Circuit/Execute.antt =====
-- circuitbreaker.go: Execute, on a breaker that is not nil, with a function that returns.
use rho_llm.Base.{ℕ, ◌≡◌, Bool, true, false, Option, none, some, arith, if◌then◌else◌}
use rho_llm.Errors.{GoError, sentinel}
use rho_llm.Circuit.{
  CircuitBreaker, CircuitState, circuit_closed, circuit_open, circuit_half_open, allow,
  record_success, record_failure, any_probe,
}

-- What fn returns, the breaker and the time when it does: other calls may come in between.
abbrev pub Ran : Type 0
Ran = Option GoError × CircuitBreaker × ℕ

abbrev pub excused : CircuitBreaker → GoError → Bool
excused cb e = elim cb.is_success [ none ↦ false | some good ↦ good e ]

-- RecordSuccess and RecordFailure resolve the circuit with the wildcard token.
unfoldable pub settle : Ran → Option GoError × CircuitBreaker
settle (none, cb, now) = (none, (record_success cb any_probe).0)
settle (some e, cb, now) =
    if excused cb e then (some e, cb) else (some e, (record_failure cb any_probe now).0)

unfoldable pub execute :
    CircuitBreaker → ℕ → (CircuitBreaker → Ran) → Option GoError × CircuitBreaker
execute cb now fn =
    let out = settle (fn (allow cb now).breaker) in
    if (allow cb now).admitted
    then out
    else (some (sentinel rho_llm.Errors.circuit_open), (allow cb now).breaker)

-- How the breaker stands once a half-open circuit's call is settled.
abbrev pub settled_state : CircuitBreaker → Option GoError → CircuitState
settled_state cb none = circuit_closed
settled_state cb (some e) = if excused cb e then circuit_half_open else circuit_open

-- An admitted Execute hands fn's error back as it is. If the circuit is half-open when fn returns, a
-- success closes it, an error that the predicate excuses leaves it half-open, and any other error
-- opens it again.
pub execute_settles :
    (cb : CircuitBreaker) (now : ℕ) (fn : CircuitBreaker → Ran)
    → (allow cb now).admitted ≡ true
    → let (err, left, later) = fn (allow cb now).breaker in
      ((execute cb now fn).0 ≡ err)
      × (left.state ≡ circuit_half_open → (execute cb now fn).1.state ≡ settled_state left err)
unfolding execute settle record_success record_failure
execute_settles cb now fn a = rw a (settles (fn (allow cb now).breaker))
  where
    settles :
        (r : Ran)
        → ((settle r).0 ≡ r.0)
          × (r.1.state ≡ circuit_half_open → (settle r).1.state ≡ settled_state r.1 r.0)
    settles (none, left, later) = ground arith
    settles (some e, left, later) = ground arith
