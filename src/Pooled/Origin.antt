-- ===== src/Pooled/Origin.antt =====
-- pool.go: where Complete's answer comes from.
mod Causes
use rho_llm.Base.{
  ℕ, ◌<◌, ◌≡◌, ap, ◌⊎◌, inl, inr, ◌&&◌, not, Option, none, some, List, ℤ, Bool-cases, Text, ◌==◌,
  append_nil, ◌∙◌, sym,
}
use rho_llm.Errors.{GoError, wrapped, client_closed}
use rho_llm.Errors.Status.{is_auth_error, is_retryable}
use rho_llm.Retry.{RetryBudget, budget_allows, sleep_outlasts_deadline}
use rho_llm.Pooled.{PoolConfig, World, Effect, RetryEvent, backing_off, fail, rearm}
use rho_llm.Pooled.Calls.{Quiet}
use rho_llm.Pooled.Rotate.{rotate_client, mark_failed_in, backoff_after_failed_rotation}
use rho_llm.Pooled.Complete.{
  Verdict, returns, fails, again, breaks, on_error, judge_error, retry, after_rotation, back_off,
  after_sleep, budget_text,
}
use rho_llm.Pooled.Origin.Causes.{Raised, Answered, Cause, Last, Origin}

module _ (w : World) where
  open w use {Client, Response}

  module _ (cfg : PoolConfig) (b : RetryBudget) (prefix : Text) where
    -- What the attempts so far leave: the last error, of the last call, or no call yet and a round to
    -- come.
    abbrev Past : List (Effect Client) → ℕ → Option GoError → Type 0
    Past log left none = Quiet log × (0 < left)
    Past log left (some e) = (i : ℕ) × (c : Client) × Last w i c log × Raised w i c e

    -- The same after an attempt, with its log.
    abbrev Settled : List (Effect Client) → Verdict Response → Type 0
    Settled log (returns r) = (i : ℕ) × (c : Client) × Last w i c log × Answered w i c r
    Settled log (fails e) = Origin w log e
    Settled log (again e) = (i : ℕ) × (c : Client) × Last w i c log × Raised w i c e
    Settled log (breaks e) = (i : ℕ) × (c : Client) × Last w i c log × Raised w i c e

    -- A response that the last call was answered with, or an error with an origin.
    abbrev pub Explained : List (Effect Client) → Response ⊎ GoError → Type 0
    Explained log (inl resp) = (i : ℕ) × (c : Client) × Last w i c log × Answered w i c resp
    Explained log (inr e) = Origin w log e
