-- ===== src/Fallback/Policy.antt =====
-- fallback_modality.go: which failures hand over.
use rho_llm.Base.{◌≤◌, ◌≡◌, ◌↔◌, ◌⊎◌, Bool, true, false, none, some, arith}
use rho_llm.Errors.{ApiError, GoError, canceled, deadline_exceeded, as_api, is_sentinel}
use rho_llm.Fallback.{is_provider_failure, transient_status, failover_transient_only}

-- FailoverTransientOnly never hands over after a cancellation or a deadline, hands over after an
-- APIError exactly for the statuses 401, 403, 404, 408, 429 and from 500 on, and otherwise for
-- what counts as a transport failure.
pub failover_transient_only_lem :
    (ctx_err : Bool) (err : GoError)
    → (failover_transient_only ctx_err err ≡ true
        → (ctx_err ≡ false)
          × (is_sentinel canceled err ≡ false)
          × (is_sentinel deadline_exceeded err ≡ false))
      × ((a : ApiError)
          → as_api err ≡ some a
          → is_provider_failure ctx_err err ≡ true
          → (failover_transient_only ctx_err err ≡ true) ↔ (
              (a.status_code ≡ 401)
              ⊎ (a.status_code ≡ 403)
              ⊎ (a.status_code ≡ 404)
              ⊎ (a.status_code ≡ 408)
              ⊎ (a.status_code ≡ 429)
              ⊎ (500 ≤ a.status_code)))
      × (as_api err ≡ none → failover_transient_only ctx_err err ≡ is_provider_failure ctx_err err)
unfolding failover_transient_only is_provider_failure transient_status
failover_transient_only_lem ctx_err err = ground arith
