-- ===== src/Retry/Bounds.antt =====
-- retrypolicy.go, retrybudget.go: the bounds of the delays.
use rho_llm.Base.{◌≡◌, arith, ℤ, pos, ◌≤ℤ◌, ◌<ℤ◌, ◌⊎◌}
use rho_llm.Retry.{Floats, RetryPolicy, delay, backoff_for, max_retry_after, retry_after_of}
use rho_llm.Errors.{GoError}

module _ (F : Floats) (p : RetryPolicy F) (draw : ℤ → ℤ) where
  -- Whatever the float arithmetic and the random draw, a delay is positive and at most MaxDelay.
  pub delay_bounds :
      (attempt : ℤ)
      → pos 0 <ℤ p.base_delay
      → p.base_delay ≤ℤ p.max_delay
      → (pos 0 <ℤ delay F p draw attempt) × (delay F p draw attempt ≤ℤ p.max_delay)
  unfolding delay
  delay_bounds attempt h k = ground arith

  -- A Retry-After hint, which is parsed to at most its cap, is a floor: the backoff is the longer
  -- of the delay and the hint.
  pub backoff_bounds :
      (attempt after : ℤ)
      → after ≤ℤ max_retry_after
      → let b = backoff_for F p draw attempt after in
        (delay F p draw attempt ≤ℤ b) × (after ≤ℤ b) × ((b ≡ delay F p draw attempt) ⊎ (b ≡ after))
  unfolding backoff_for
  backoff_bounds attempt after h = ground arith

-- The hint read from an error is between 0 and its cap.
pub retry_after_of_bounds :
    (e : GoError) → (pos 0 ≤ℤ retry_after_of e) × (retry_after_of e ≤ℤ max_retry_after)
unfolding retry_after_of
retry_after_of_bounds e = ground arith
