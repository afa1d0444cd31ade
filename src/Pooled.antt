-- ===== src/Pooled.antt =====
-- pool.go: PooledClient, a client that retries, rotates its keys, and drives a circuit breaker.
-- One goroutine's calls are followed step by step. Between its blocking operations (the provider
-- call, the making of a client, a sleep) it runs undisturbed; during each of these the other
-- goroutines may change everything that is shared, in any way: the World says what they leave.
pub mod Rotate
pub mod Complete
pub mod Limits
pub mod Calls
pub mod Origin
pub mod Streaming
use rho_llm.Base.{
  ℕ, zero, suc, ◌+◌, Text, text, text_eq, Bool, true, false, ◌&&◌, not, Option, none, some, List,
  [], ◌∷◌, ltb, leb, ◌==◌, if◌then◌else◌, ℤ, pos, leb_ℤ, ltb_ℤ, ◌⊎◌, inl, inr, pos_part,
}
use rho_llm.Errors.{GoError}
use rho_llm.Circuit.{
  CircuitBreaker, allow, record_success, record_failure, release_probe, new_circuit_breaker,
}
use rho_llm.Retry.{Floats, RetryPolicy}
use rho_llm.AuthPool.Profile.{AuthProfile}
use rho_llm.AuthPool.{AuthPool, Cooldowns, Redactor, healthy_count}

-- The fields of Config that PooledClient reads.
pub record PoolConfig : Type 0 where
  pub circuit_threshold : ℤ
  pub circuit_cooldown : ℤ
  pub cooldown_rate_limit : ℤ
  pub cooldown_overload : ℤ
  pub cooldown_default : ℤ
  pub max_retries : ℤ
  pub retry_budget : ℤ
  pub disable_retries : Bool

-- What the goroutines share: the fields of PooledClient that change, and the clock. `rc` is the
-- client in the slot, none once the pool is closed.
pub record Shared (Client : Type 0) : Type 0 where
  pub pool : AuthPool
  pub breaker : Option CircuitBreaker
  pub rc : Option Client
  pub active_name : Text
  pub now : ℕ

-- What the code calls and the program does not implement: providers, the caller's context, the
-- client constructor, the clock, the random source, and URL redaction. Every answer may depend on
-- the attempt, and comes with the shared state at the time of the answer.
pub record World : Type 1 where
  pub Client : Type 0
  pub Response : Type 0
  pub floats : Floats
  pub policy : RetryPolicy floats
  pub draw : ℕ → ℤ → ℤ
  pub call : ℕ → Client → Shared Client → (Response ⊎ GoError) × Shared Client
  pub client_func : ℕ → AuthProfile → Shared Client → (Client ⊎ GoError) × Shared Client
  pub ctx_err : ℕ → Option GoError
  pub sleep : ℕ → ℤ → Shared Client → Option GoError × Shared Client
  pub deadline : Option ℕ
  pub redact : Redactor
  pub duration_string : ℤ → Text

abbrev pub default_max_retries : ℤ
default_max_retries = pos 10

abbrev or_default : ℤ → ℤ → ℤ
or_default d fallback = if leb_ℤ d (pos 0) then fallback else d

unfoldable pub cooldown_for_error : PoolConfig → Cooldowns
cooldown_for_error cfg = record {
  rate_limit = or_default cfg.cooldown_rate_limit (pos 60000000000);
  overload = or_default cfg.cooldown_overload (pos 30000000000);
  default = or_default cfg.cooldown_default (pos 10000000000);
}

-- maxRetries, with the number of healthy keys at the time.
unfoldable pub max_retries : PoolConfig → ℕ → ℕ
max_retries cfg healthy =
    if cfg.disable_retries
    then 1
    else (let cap = pos_part (or_default cfg.max_retries default_max_retries) in
        let n = (if ltb healthy 3 then 3 else healthy) in if ltb cap n then cap else n)

-- The breaker that NewPooledClient wires from the config.
unfoldable pub configured_breaker : PoolConfig → Option CircuitBreaker
configured_breaker cfg =
    if ltb_ℤ (pos 0) cfg.circuit_threshold
    then some (
        new_circuit_breaker cfg.circuit_threshold
          (or_default cfg.circuit_cooldown (pos 30000000000)) none false)
    else none

-- The breaker's methods are no-ops on a nil receiver, which admits everybody with token 0.
unfoldable pub gate : Option CircuitBreaker → ℕ → Option CircuitBreaker × Bool × ℕ
gate none now = (none, true, 0)
gate (some cb) now = let a = allow cb now in (some a.breaker, a.admitted, a.token)

abbrev pub on_breaker :
    (CircuitBreaker → CircuitBreaker) → Option CircuitBreaker → Option CircuitBreaker
on_breaker f none = none
on_breaker f (some cb) = some (f cb)

unfoldable pub succeed : Option CircuitBreaker → ℕ → Option CircuitBreaker
succeed b token = on_breaker (λ cb. (record_success cb token).0) b

unfoldable pub fail : Option CircuitBreaker → ℕ → ℕ → Option CircuitBreaker
fail b token now = on_breaker (λ cb. (record_failure cb token now).0) b

unfoldable pub rearm : Option CircuitBreaker → ℕ → Option CircuitBreaker
rearm b token = on_breaker (λ cb. release_probe cb token) b

pub data RetryEventType : Type 0 where
  attempt_failed rotating backing_off circuit_open exhausted : RetryEventType

pub record RetryEvent : Type 0 where
  pub event_type : RetryEventType
  pub attempt : ℕ
  pub err : Option GoError
  pub backoff : ℤ

-- What one call of Complete does besides changing the shared state, in order: the references it
-- takes and gives back, the provider calls, what it closes, and what the retry hook is told.
pub data Effect (Client : Type 0) : Type 0 where
  acquires releases closes : Client → Effect Client
  calls : ℕ → Effect Client
  emits : RetryEvent → Effect Client
  sleeps : ℤ → Effect Client
