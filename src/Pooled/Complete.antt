-- ===== src/Pooled/Complete.antt =====
-- pool.go: PooledClient.Complete.
use rho_llm.Base.{
  ℕ, zero, suc, ◌+◌, Text, text, ◌&&◌, not, Option, none, some, List, [], ◌∷◌, ◌++◌, ◌==◌,
  if◌then◌else◌, ℤ, pos, ◌⊎◌, inl, inr,
}
use rho_llm.Errors.{GoError, sentinel, wrapped, circuit_open, client_closed, is_sentinel}
use rho_llm.Errors.Status.{is_auth_error, is_retryable}
use rho_llm.Retry.{RetryBudget, budget_allows, sleep_outlasts_deadline}
use rho_llm.AuthPool.{mark_success_by_name, healthy_count}
use rho_llm.Pooled.{
  PoolConfig, Shared, World, Effect, acquires, releases, calls, emits, sleeps, RetryEvent,
  RetryEventType, attempt_failed, rotating, backing_off, exhausted, gate, succeed, fail, rearm,
  max_retries,
}
use rho_llm.Pooled.Rotate.{rotate_client, mark_failed_in, backoff_after_failed_rotation}

-- How an attempt ends: with Complete's return, with another attempt, or with the loop left.
pub data Verdict (Response : Type 0) : Type 0 where
  returns : Response → Verdict Response
  fails : GoError → Verdict Response
  again : GoError → Verdict Response
  breaks : GoError → Verdict Response

abbrev pub event : RetryEventType → ℕ → Option GoError → ℤ → RetryEvent
event t i err backoff = record { event_type = t; attempt = i; err = err; backoff = backoff }

abbrev pub open_error : Text → Option GoError → GoError
open_error prefix none = wrapped (prefix ++ text "circuit breaker open") (sentinel circuit_open)
open_error prefix (some last) = wrapped (prefix ++ text "circuit breaker open") last

-- The loop that Complete and Stream share, which differ in the prefix of their error messages: none,
-- and "stream: ".
module _ (w : World) (cfg : PoolConfig) (budget : RetryBudget) (prefix : Text) where
  open w use {Client, Response, call, ctx_err, sleep, deadline, duration_string}

  abbrev pub Result : Type 0
  Result = Verdict Response × Shared Client × List (Effect Client)

  abbrev pub budget_text : Text
  budget_text =
      prefix
      ++ (text "all retries exhausted (retry budget "
          ++ (duration_string cfg.retry_budget ++ text ")"))

  unfoldable pub after_sleep : GoError → ℤ → RetryEvent → Option GoError × Shared Client → Result
  after_sleep err backoff e (some cancelled, s) =
      (fails cancelled, s, emits e ∷ sleeps backoff ∷ [])
  after_sleep err backoff e (none, s) = (again err, s, emits e ∷ sleeps backoff ∷ [])

  unfoldable pub back_off : ℕ → GoError → GoError → Shared Client → Result
  back_off i rot_err err s =
      let backoff = backoff_after_failed_rotation w i (healthy_count s.pool.profiles) rot_err err in
      if not (budget_allows budget s.now backoff)
      then (fails (wrapped budget_text err), s, emits (event exhausted i (some err) (pos 0)) ∷ [])
      else if sleep_outlasts_deadline deadline s.now backoff
      then (
        fails (
            wrapped
              (prefix
                ++ (text "all retries exhausted (backoff "
                    ++ (duration_string backoff ++ text " exceeds context deadline)")))
              err),
        s,
        emits (event exhausted i (some err) (pos 0)) ∷ [],
      )
      else after_sleep err backoff (event backing_off i (some rot_err) backoff) (sleep i backoff s)

  unfoldable pub after_rotation :
      ℕ → ℕ → GoError → Option GoError × Shared Client × List (Effect Client) → Result
  after_rotation i limit err (some rot_err, s, log) =
      let rest = back_off i rot_err err s in
      if is_sentinel client_closed rot_err
      then (fails (sentinel client_closed), s, log)
      else if is_auth_error err
      then (fails err, s, log)
      else if i + 1 == limit
      then (breaks err, s, log)
      else (rest.0, rest.1, log ++ rest.2)
  after_rotation i limit err (none, s, log) =
      if not (budget_allows budget s.now (pos 0))
      then (
        fails (wrapped budget_text err),
        s,
        log ++ emits (event exhausted i (some err) (pos 0)) ∷ [],
      )
      else (again err, s, log ++ emits (event rotating i (some err) (pos 0)) ∷ [])

  -- An error that may be retried: count it, mark the key, rotate.
  unfoldable pub retry : ℕ → ℕ → ℕ → Text → GoError → Shared Client → Result
  retry i limit token used err s =
      let counted =
        (if is_auth_error err then s else record s { breaker = fail s.breaker token s.now }) in
      after_rotation i limit err (rotate_client w i used (mark_failed_in w cfg used err counted))

  -- The caller is still there: hand the error back, or go on to the next key.
  unfoldable pub judge_error : ℕ → ℕ → ℕ → Text → GoError → Shared Client → Result
  judge_error i limit token used err s =
      let released = record s { breaker = rearm s.breaker token } in
      let told : Effect Client = emits (event attempt_failed i (some err) (pos 0)) in
      let retried = retry i limit token used err s in
      if cfg.disable_retries
      then (fails err, released, told ∷ [])
      else if not (is_retryable err) && not (is_auth_error err)
      then (fails err, released, told ∷ [])
      else (retried.0, retried.1, told ∷ retried.2)

  unfoldable pub on_error : ℕ → ℕ → ℕ → Text → GoError → Shared Client → Result
  on_error i limit token used err s = elim (ctx_err i) [
    | some cancelled ↦ (fails err, record s { breaker = rearm s.breaker token }, [])
    | none ↦ judge_error i limit token used err s
  ]

  unfoldable pub on_answer : ℕ → ℕ → ℕ → Text → (Response ⊎ GoError) × Shared Client → Result
  on_answer i limit token used (inl resp, s) = (
    returns resp,
    record s { pool = mark_success_by_name s.pool used; breaker = succeed s.breaker token },
    [],
  )
  on_answer i limit token used (inr err, s) = on_error i limit token used err s

  unfoldable pub use_client : ℕ → ℕ → ℕ → Option Client → Shared Client → Result
  use_client i limit token none s = (fails (sentinel client_closed), s, [])
  use_client i limit token (some c) s =
      let r = on_answer i limit token s.active_name (call i c s) in
      (r.0, r.1, acquires c ∷ calls i ∷ releases c ∷ r.2)

  -- One round of the loop, at attempt `i` of `limit`.
  unfoldable pub attempt : ℕ → ℕ → Option GoError → Shared Client → Result
  attempt i limit last s =
      let (breaker, admitted, token) = gate s.breaker s.now in
      let entered = record s { breaker = breaker } in
      if admitted then use_client i limit token entered.rc entered else (
        fails (open_error prefix last),
        entered,
        emits (event RetryEventType.circuit_open i none (pos 0)) ∷ [],
      )

  abbrev pub Answer : Type 0
  Answer = (Response ⊎ GoError) × Shared Client × List (Effect Client)

  unfoldable pub give_up : Option GoError → Shared Client → Answer
  give_up last s = (
    inr (
        wrapped (prefix ++ text "all retries exhausted")
          (elim last [ some e ↦ e | none ↦ GoError.plain [] ])),
    s,
    emits (event exhausted 0 last (pos 0)) ∷ [],
  )

  unfoldable pub conclude : (GoError → Shared Client → Answer) → Result → Answer
  conclude next (returns resp, s, log) = (inl resp, s, log)
  conclude next (fails e, s, log) = (inr e, s, log)
  conclude next (breaks e, s, log) = let out = give_up (some e) s in (out.0, out.1, log ++ out.2)
  conclude next (again e, s, log) = let out = next e s in (out.0, out.1, log ++ out.2)

  -- The rounds left, the number of the next attempt, and lastErr.
  unfoldable pub rounds : ℕ → ℕ → ℕ → Option GoError → Shared Client → Answer
  rounds zero i limit last s = give_up last s
  rounds (suc left) i limit last s =
      conclude (λ e s'. rounds left (i + 1) limit (some e) s') (attempt i limit last s)

-- Complete reads the retry cap and starts the budget's clock once.
unfoldable pub complete :
    (w : World) (cfg : PoolConfig)
    → Shared w.Client
    → (w.Response ⊎ GoError) × Shared w.Client × List (Effect w.Client)
complete w cfg s =
    let limit = max_retries cfg (healthy_count s.pool.profiles) in
    rounds w cfg (record { start = s.now; budget = cfg.retry_budget }) [] limit 0 limit none s
