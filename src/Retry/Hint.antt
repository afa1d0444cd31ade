-- ===== src/Retry/Hint.antt =====
-- retrybudget.go: parseRetryAfter. What strconv and net/http make of the two headers is given: a
-- float for Retry-After-Ms, an int64 and a wait until an HTTP date for Retry-After, none where the
-- header is absent or does not parse.
use rho_llm.Base.{
  ◌*◌, ◌≡◌, Bool, true, false, Option, none, some, ℤ, pos, pos_part, ◌≤ℤ◌, leb_ℤ, ltb_ℤ,
  if◌then◌else◌, arith,
}
use rho_llm.Clock.{second}
use rho_llm.Retry.{max_retry_after, clamp_retry_after}

-- A float64 count of milliseconds: whether it is positive, whether it reaches MaxRetryAfter, and its
-- conversion to a Duration otherwise.
pub record Millis : Type 1 where
  pub Float64 : Type 0
  pub is_positive : Float64 → Bool
  pub reaches_limit : Float64 → Bool
  pub to_duration : Float64 → ℤ

pub record RetryHeaders (F : Millis) : Type 0 where
  pub millis : Option F.Float64
  pub seconds : Option ℤ
  pub date_wait : Option ℤ

module _ (F : Millis) where
  unfoldable pub millis_hint : F.Float64 → Option ℤ
  millis_hint v =
      if F.is_positive v
      then (if F.reaches_limit v then some max_retry_after else some (F.to_duration v))
      else none

  unfoldable pub seconds_hint : ℤ → Option ℤ
  seconds_hint secs =
      if leb_ℤ secs (pos 0)
      then none
      else if ltb_ℤ (pos 60) secs
      then some max_retry_after
      else some (pos (pos_part secs * second))

  unfoldable pub date_hint : ℤ → Option ℤ
  date_hint wait = if leb_ℤ wait (pos 0) then none else some (clamp_retry_after wait)

  unfoldable pub standard_hint : Option ℤ → Option ℤ → Option ℤ
  standard_hint (some secs) wait = seconds_hint secs
  standard_hint none (some wait) = date_hint wait
  standard_hint none none = none

  -- A Retry-After-Ms that is not positive falls through to the standard header.
  unfoldable pub parse_retry_after : RetryHeaders F → Option ℤ
  parse_retry_after h =
      let standard = standard_hint h.seconds h.date_wait in
      elim h.millis [
        | none ↦ standard
        | some v ↦ if F.is_positive v then millis_hint v else standard
      ]

  -- A hint is never negative and never above MaxRetryAfter, whatever the headers say, if converting
  -- a positive float below the limit gives a Duration between 0 and the limit.
  pub parse_retry_after_bounds :
      (h : RetryHeaders F) (d : ℤ)
      → ((v : F.Float64)
          → F.is_positive v ≡ true
          → F.reaches_limit v ≡ false
          → (pos 0 ≤ℤ F.to_duration v) × (F.to_duration v ≤ℤ max_retry_after))
      → parse_retry_after h ≡ some d
      → (pos 0 ≤ℤ d) × (d ≤ℤ max_retry_after)
  unfolding parse_retry_after millis_hint standard_hint seconds_hint date_hint clamp_retry_after
  parse_retry_after_bounds h d conv p = grind arith
