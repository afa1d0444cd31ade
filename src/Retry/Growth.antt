-- ===== src/Retry/Growth.antt =====
-- retrypolicy.go: how the delay grows from attempt to attempt.
use rho_llm.Base.{ℕ, zero, suc, ◌*◌, ◌^◌, ◌≤◌, ◌<◌, ◌≡◌, false, arith, ℤ, pos, ltb, if◌then◌else◌}
use native.Mathlib.Nat.{pow-suc, pow-zero, one-le-pow, le-mul_of_pos_right}
use rho_llm.Retry.{Floats, RetryPolicy, delay, grown, min_ℤ}

times_pow : (d k n : ℕ) → d * k ^ suc n ≡ d * k * k ^ n
times_pow d k n = rw pow-suc (omega arith)

-- A policy whose float arithmetic is exact and whose factor is a whole number `k`.
module _ (F : Floats) (p : RetryPolicy F) (base cap k : ℕ) (base_is : p.base_delay ≡ pos base)
    (cap_is : p.max_delay ≡ pos cap) (exact : (n : ℕ) → F.scale (pos n) p.factor ≡ pos (n * k))
    (growing : 1 ≤ k) (no_jitter : F.is_positive p.jitter ≡ false) where
  abbrev min_ℕ : ℕ → ℕ → ℕ
  min_ℕ a b = if ltb b a then b else a

  grown-pow : (n d : ℕ) → min_ℤ (grown F p n (pos d)) (pos cap) ≡ pos (min_ℕ (d * k ^ n) cap)
  unfolding grown
  grown-pow zero d = ground (arith, pow-zero k)
  grown-pow (suc n) d =
      rw (cap_is, exact d, times_pow d k n)
        (ground (arith, grown-pow n (d * k), le-mul_of_pos_right (d * k) (one-le-pow n k growing)))

  -- Without jitter the delay is the base times the n-th power of the factor, cut off at the
  -- maximum, as long as that is positive.
  pub delay-pow :
      (draw : ℤ → ℤ) (n : ℕ)
      → 0 < min_ℕ (base * k ^ n) cap
      → delay F p draw (pos n) ≡ pos (min_ℕ (base * k ^ n) cap)
  unfolding delay
  delay-pow draw n h = ground (arith, grown-pow n base)
