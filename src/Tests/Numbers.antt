-- ===== src/Tests/Numbers.antt =====
-- retrypolicy.go and usage.go: runs at concrete inputs.
use rho_llm.Base.{
  false, true, some, none, leb, ℕ, ◌*◌, ◌/◌, ◌≡◌, refl, ℤ, pos, negsuc, ◌≤ℤ◌, arith, ltb,
}
use rho_llm.Retry.{max_retry_after}
use rho_llm.Retry.Hint.{Millis, RetryHeaders, parse_retry_after, standard_hint, seconds_hint}
use rho_llm.Clock.{max_int64}
use rho_llm.Retry.{Floats, RetryPolicy}
use rho_llm.Usage.{ModalityUsage}

-- Floating-point numbers as whole numbers.
abbrev times : ℤ → ℕ → ℤ
times (pos d) f = pos (d * f)
times d f = d

abbrev whole : Floats
whole = record { Float64 = ℕ; scale = times; is_positive = λ f. ltb 0 f }

abbrev doubling : RetryPolicy whole
doubling = record { base_delay = pos 1000; max_delay = pos 8000; factor = 2; jitter = 0 }

abbrev half : ℤ → ℤ
half (pos d) = pos (d / 2)
half d = d

abbrev odd_usage : ModalityUsage
odd_usage = record {
  input_tokens = pos 10;
  output_tokens = negsuc 4;
  audio_input_tokens = pos 20;
  cache_read_tokens = pos max_int64;
}

-- Milliseconds as whole numbers.
abbrev whole_millis : Millis
whole_millis = record {
  Float64 = ℕ;
  is_positive = λ v. ltb 0 v;
  reaches_limit = λ v. leb 60000 v;
  to_duration = λ v. pos (v * 1000000);
}

millis_convert :
    (v : ℕ)
    → ltb 0 v ≡ true
    → leb 60000 v ≡ false
    → (pos 0 ≤ℤ pos (v * 1000000)) × (pos (v * 1000000) ≤ℤ max_retry_after)
millis_convert v h k = ground arith

abbrev two_seconds : RetryHeaders whole_millis
two_seconds = record { millis = some 0; seconds = some (pos 2); date_wait = none }

two_seconds_hint : parse_retry_after whole_millis two_seconds ≡ some (pos 2000000000)
unfolding parse_retry_after standard_hint seconds_hint
two_seconds_hint = refl
