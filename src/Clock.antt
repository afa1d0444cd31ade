-- ===== src/Clock.antt =====
-- Instants and durations as the program reads them (Go's time.Time and time.Duration).
-- An instant is a monotonic clock reading in nanoseconds; `never` is the zero time.Time.
use rho_llm.Base.{ℕ, ℤ, pos, sub_ℕ}

pub data Stamp : Type 0 where
  never : Stamp
  at : ℕ → Stamp

-- math.MaxInt64, also the longest time.Duration.
abbrev pub max_int64 : ℕ
max_int64 = 9223372036854775807

abbrev pub second : ℕ
second = 1000000000

-- time.Since: a difference from the zero time saturates at the longest duration.
abbrev pub since : ℕ → Stamp → ℤ
since now never = pos max_int64
since now (at t) = sub_ℕ now t
