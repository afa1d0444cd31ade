-- ===== src/Pooled/Rotate.antt =====
-- pool.go: rotateClient and backoffAfterFailedRotation.
use rho_llm.Base.{
  ℕ, Text, text_eq, not, Option, none, some, List, [], ◌∷◌, ltb, if◌then◌else◌, ℤ, pos, leb_ℤ,
  ltb_ℤ, ◌⊎◌, inl, inr,
}
use rho_llm.Clock.{second}
use rho_llm.Errors.{GoError, sentinel, client_closed, as_cooldown}
use rho_llm.Retry.{delay, retry_after_of}
use rho_llm.AuthPool.{AuthPool, Available, got, failed, get_available, mark_failed_by_name}
use rho_llm.Pooled.{PoolConfig, Shared, World, Effect, releases, closes, cooldown_for_error}

module _ (w : World) where
  open w use {Client, client_func, redact, policy, floats, draw}

  -- A new client goes into the slot, unless the pool was closed while it was being made.
  unfoldable pub install :
      Client → Text → Shared Client → Option GoError × Shared Client × List (Effect Client)
  install fresh name s = elim s.rc [
    | none ↦ (some (sentinel client_closed), s, closes fresh ∷ [])
    | some old ↦ (none, record s { rc = some fresh; active_name = name }, releases old ∷ [])
  ]

  unfoldable pub install_result :
      Text
      → (Client ⊎ GoError) × Shared Client
      → Option GoError × Shared Client × List (Effect Client)
  install_result name (inl fresh, s) = install fresh name s
  install_result name (inr e, s) = (some e, s, [])

  unfoldable pub with_profile :
      ℕ
      → AuthPool × Available
      → Shared Client
      → Option GoError × Shared Client × List (Effect Client)
  with_profile i (pool, failed e) s = (some e, record s { pool = pool }, [])
  with_profile i (pool, got profile) s =
      install_result profile.name (client_func i profile (record s { pool = pool }))

  unfoldable pub rotate_client :
      ℕ → Text → Shared Client → Option GoError × Shared Client × List (Effect Client)
  rotate_client i failed_name s =
      if not (text_eq s.active_name failed_name)
      then (none, s, [])
      else with_profile i (get_available s.pool s.now) s

  unfoldable pub mark_failed_in : PoolConfig → Text → GoError → Shared Client → Shared Client
  mark_failed_in cfg name err s = record s {
    pool = mark_failed_by_name redact s.pool name err (cooldown_for_error cfg) s.now;
  }

  -- The wait for the soonest key, when several keys are healthy and all are cooling down.
  unfoldable pub cooldown_wait : ℕ → GoError → Option ℤ
  cooldown_wait healthy rot_err =
      if ltb 1 healthy
      then elim (as_cooldown rot_err) [
        | none ↦ none
        | some wait ↦ some (if leb_ℤ wait (pos 0) then pos second else wait)
      ]
      else none

  unfoldable pub backoff_after_failed_rotation : ℕ → ℕ → GoError → GoError → ℤ
  backoff_after_failed_rotation i healthy rot_err cause =
      let backoff : ℤ = elim (cooldown_wait healthy rot_err) [
        | some wait ↦ wait
        | none ↦ delay floats policy (draw i) (pos i)
      ] in
      if ltb_ℤ backoff (retry_after_of cause) then retry_after_of cause else backoff
