-- ===== src/Pooled/Limits.antt =====
-- pool.go: the retry cap and the cooldowns.
use rho_llm.Base.{ℕ, ◌≤◌, ◌≡◌, ◌⊎◌, true, false, arith, pos, ◌<ℤ◌, ◌≤ℤ◌}
use rho_llm.Pooled.{PoolConfig, cooldown_for_error, max_retries}

-- With retries disabled there is one attempt; otherwise at least one, at most the configured cap,
-- and within the cap at least three and at least one for each healthy key.
pub max_retries_bounds :
    (cfg : PoolConfig) (healthy : ℕ)
    → let n = max_retries cfg healthy in
      (cfg.disable_retries ≡ true → n ≡ 1)
      × (1 ≤ n)
      × (cfg.disable_retries ≡ false → pos 0 <ℤ cfg.max_retries → pos n ≤ℤ cfg.max_retries)
      × (cfg.disable_retries ≡ false
          → (pos 3 ≤ℤ cfg.max_retries)
          → (3 ≤ n) × ((healthy ≤ n) ⊎ (pos n ≡ cfg.max_retries)))
unfolding max_retries
max_retries_bounds cfg healthy = ground arith

pub cooldown_for_error_pos :
    (cfg : PoolConfig)
    → let c = cooldown_for_error cfg in
      (pos 0 <ℤ c.rate_limit) × (pos 0 <ℤ c.overload) × (pos 0 <ℤ c.default)
unfolding cooldown_for_error
cooldown_for_error_pos cfg = ground arith
