-- ===== src/Retry.antt =====
-- retrypolicy.go and retrybudget.go: exponential backoff with jitter, Retry-After, the retry budget.
-- Durations are nanoseconds. What the code does in float64 is a parameter: `scale d f` stands for
-- time.Duration(float64(d) * f), and `is_positive f` for f > 0.
pub mod Bounds
pub mod Growth
pub mod Hint
use rho_llm.Base.{
  ℕ, zero, suc, ◌+◌, ◌*◌, Bool, true, false, ◌&&◌, not, Option, none, some, if◌then◌else◌, ℤ, pos,
  negsuc, ◌+ℤ◌, ◌-ℤ◌, leb_ℤ, ltb_ℤ, pos_part,
}
use rho_llm.Clock.{Stamp, at, since, second}
use rho_llm.Errors.{GoError, as_api, as_dns, as_op}

pub record Floats : Type 1 where
  pub Float64 : Type 0
  pub scale : ℤ → Float64 → ℤ
  pub is_positive : Float64 → Bool

pub record RetryPolicy (F : Floats) : Type 0 where
  pub base_delay : ℤ
  pub max_delay : ℤ
  pub factor : F.Float64
  pub jitter : F.Float64

abbrev pub min_ℤ : ℤ → ℤ → ℤ
min_ℤ a b = if ltb_ℤ b a then b else a

module _ (F : Floats) where
  open F use {scale, is_positive}

  -- The loop of Delay, leaving it once the delay passes the maximum.
  pub grown : RetryPolicy F → ℕ → ℤ → ℤ
  grown p zero delay = delay
  grown p (suc n) delay =
      let next = scale delay p.factor in
      let rest = grown p n next in if ltb_ℤ p.max_delay next then p.max_delay else rest

  -- `draw` is what rand.Int64N returns for the bound it is given.
  unfoldable pub jittered : RetryPolicy F → (ℤ → ℤ) → ℤ → ℤ
  jittered p draw delay =
      let range = scale delay p.jitter in
      if is_positive p.jitter && ltb_ℤ (pos 0) range
      then delay +ℤ (draw (range +ℤ range) -ℤ range)
      else delay

  unfoldable pub delay : RetryPolicy F → (ℤ → ℤ) → ℤ → ℤ
  unfolding grown jittered
  delay p draw attempt =
      let capped = min_ℤ (grown p (pos_part attempt) p.base_delay) p.max_delay in
      let shaken = min_ℤ (jittered p draw capped) p.max_delay in
      if leb_ℤ shaken (pos 0) then p.base_delay else shaken

-- MaxRetryAfter.
abbrev pub max_retry_after : ℤ
max_retry_after = pos 60000000000

unfoldable pub clamp_retry_after : ℤ → ℤ
clamp_retry_after d = if ltb_ℤ max_retry_after d then max_retry_after else d

unfoldable pub retry_after_of : GoError → ℤ
unfolding clamp_retry_after
retry_after_of e = elim (as_api e) [
  | none ↦ pos 0
  | some a ↦ if ltb_ℤ (pos 0) a.retry_after then clamp_retry_after a.retry_after else pos 0
]

unfoldable pub backoff_for : (F : Floats) → RetryPolicy F → (ℤ → ℤ) → ℤ → ℤ → ℤ
unfolding clamp_retry_after
backoff_for F p draw attempt retry_after =
    let d = delay F p draw attempt in
    if ltb_ℤ d retry_after then clamp_retry_after retry_after else d

pub record RetryBudget : Type 0 where
  pub start : ℕ
  pub budget : ℤ

unfoldable pub budget_allows : RetryBudget → ℕ → ℤ → Bool
budget_allows b now d =
    if leb_ℤ b.budget (pos 0) then true else ltb_ℤ (since now (at b.start) +ℤ d) b.budget

-- The context's deadline, if it has one.
unfoldable pub sleep_outlasts_deadline : Option ℕ → ℕ → ℤ → Bool
sleep_outlasts_deadline none now d = false
sleep_outlasts_deadline (some deadline) now d = leb_ℤ (pos deadline) (pos now +ℤ d)
