-- ===== src/Transport.antt =====
-- transport.go: DoHTTPWithOptions, the retry loop of modality and batch requests, and SSEData.
-- Building and sending a request, the clock, the caller's context and the random source are
-- parameters; attempt `i` finds them as they are at that time.
pub mod Loop
pub mod Resend
pub mod Events
use rho_llm.Base.{
  ℕ, zero, suc, ◌+◌, Text, text, has_prefix, is_empty, Bool, true, false, ◌&&◌, ◌||◌, not, Option,
  none, some, List, [], ◌∷◌, ◌++◌, ◌==◌, leb, ltb, if◌then◌else◌, ℤ, pos, leb_ℤ, pos_part, ◌⊎◌, inl,
  inr, text_eq,
}
use rho_llm.Errors.{GoError, ApiError, api, wrapped, as_dns, as_op}
use rho_llm.Errors.Status.{new_api_error_from_status, is_retryable}
use rho_llm.Retry.{
  Floats, RetryPolicy, RetryBudget, backoff_for, budget_allows, sleep_outlasts_deadline,
}

-- An http.Response: its status, and what parseRetryAfter reads in its header.
pub record HttpResponse : Type 0 where
  pub status_code : ℕ
  pub status : Text
  pub retry_after : Option ℤ

-- The fields of Config and of HTTPCallOptions that the loop reads. `provider` is ProviderName, or
-- Provider where that is empty.
pub record HttpConfig : Type 0 where
  pub disable_retries : Bool
  pub max_retries : ℤ
  pub retry_budget : ℤ
  pub provider : Text
  pub non_idempotent : Bool

pub record HttpWorld : Type 1 where
  pub floats : Floats
  pub policy : RetryPolicy floats
  pub draw : ℕ → ℤ → ℤ
  pub build : ℕ → Option GoError
  pub send : ℕ → HttpResponse ⊎ GoError
  pub ctx_err : ℕ → Option GoError
  pub interrupted : ℕ → Option GoError
  pub start : ℕ
  pub now : ℕ → ℕ
  pub deadline : Option ℕ

abbrev default_http_max_attempts : ℕ
default_http_max_attempts = 3

unfoldable pub http_attempts : HttpConfig → ℕ
http_attempts cfg =
    let attempts =
      (if leb_ℤ cfg.max_retries (pos 0)
        then default_http_max_attempts
        else pos_part cfg.max_retries) in
    if cfg.disable_retries then 1 else if ltb attempts 3 then 3 else attempts

unfoldable pub retryable_http_status : ℕ → Bool
retryable_http_status status =
    (status == 408)
    || ((status == 429)
        || ((status == 500) || ((status == 502) || ((status == 503) || (status == 504)))))

unfoldable pub idempotent_safe_status : ℕ → Bool
idempotent_safe_status status = (status == 429) || (status == 503)

unfoldable pub is_dial_error : GoError → Bool
is_dial_error err = as_dns err || elim (as_op err) [
  | none ↦ false
  | some op ↦ text_eq op (text "dial") || text_eq op (text "proxyconnect")
]

pub data HttpEvent : Type 0 where
  sends : ℕ → HttpEvent
  attempt_failed exhausted : ℕ → GoError → HttpEvent
  backing_off : ℕ → GoError → ℤ → HttpEvent

-- How an attempt ends: with DoHTTP's return, or with another attempt after a wait.
pub data HttpVerdict : Type 0 where
  stops : HttpResponse ⊎ GoError → HttpVerdict
  resends : GoError → ℤ → HttpVerdict

-- apiErr, with the hint.
unfoldable pub status_error : HttpConfig → HttpResponse → ApiError
status_error cfg resp =
    let e = new_api_error_from_status cfg.provider resp.status_code resp.status in
    elim resp.retry_after [ none ↦ e | some wait ↦ record e { retry_after = wait } ]

module _ (w : HttpWorld) (cfg : HttpConfig) where
  open w use {build, send, ctx_err, interrupted}

  -- The wait before the next attempt, if there is one to make.
  unfoldable pub gives_up : ℕ → ℕ → ℤ → Bool
  gives_up i limit delay =
      (i + 1 == limit)
      || (not
            (budget_allows (record { start = w.start; budget = cfg.retry_budget }) (w.now i) delay)
          || sleep_outlasts_deadline w.deadline (w.now i) delay)

  unfoldable pub on_response : ℕ → ℕ → HttpResponse → HttpVerdict × List HttpEvent
  on_response i limit resp =
      let e = status_error cfg resp in
      let delay = backoff_for w.floats w.policy (w.draw i) (pos i) e.retry_after in
      if not (retryable_http_status resp.status_code)
      then (stops (inl resp), [])
      else if cfg.non_idempotent && not (idempotent_safe_status resp.status_code)
      then (stops (inl resp), [])
      else if gives_up i limit delay
      then (stops (inl resp), exhausted i (api e) ∷ [])
      else (resends (api e) delay, [])

  unfoldable pub on_transport_error : ℕ → ℕ → GoError → HttpVerdict × List HttpEvent
  on_transport_error i limit err =
      let delay = backoff_for w.floats w.policy (w.draw i) (pos i) (pos 0) in
      if is_retryable err && (cfg.non_idempotent && not (is_dial_error err))
      then (stops (inr err), [])
      else if not (is_retryable err)
      then (stops (inr err), [])
      else if gives_up i limit delay
      then (stops (inr err), exhausted i err ∷ [])
      else (resends err delay, [])

  unfoldable pub on_sent : ℕ → ℕ → HttpResponse ⊎ GoError → HttpVerdict × List HttpEvent
  on_sent i limit (inl resp) = on_response i limit resp
  on_sent i limit (inr err) = elim (ctx_err i) [
    | some cancelled ↦ (stops (inr cancelled), [])
    | none ↦ on_transport_error i limit err
  ]

  abbrev pub HttpAnswer : Type 0
  HttpAnswer = (HttpResponse ⊎ GoError) × List HttpEvent

  -- After the attempt: the hooks, the timer, and the next round.
  unfoldable pub proceed : ℕ → (GoError → HttpAnswer) → HttpVerdict × List HttpEvent → HttpAnswer
  proceed i next (stops out, log) = (out, sends i ∷ log)
  proceed i next (resends err delay, log) =
      let told = sends i ∷ log ++ attempt_failed i err ∷ backing_off i err delay ∷ [] in
      let out = next err in
      elim (interrupted i) [ some c ↦ (inr c, told) | none ↦ (out.0, told ++ out.1) ]

  -- The rounds left, the number of the next attempt, the last error.
  unfoldable pub http_rounds : ℕ → ℕ → ℕ → GoError → HttpAnswer
  http_rounds zero i limit last = (inr (wrapped (text "llm: retry loop exhausted") last), [])
  http_rounds (suc left) i limit last =
      let round = proceed i (http_rounds left (i + 1) limit) (on_sent i limit (send i)) in
      elim (build i) [ some e ↦ (inr e, []) | none ↦ round ]

  unfoldable pub do_http : HttpAnswer
  do_http = http_rounds (http_attempts cfg) 0 (http_attempts cfg) (GoError.plain [])
