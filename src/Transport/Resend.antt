-- ===== src/Transport/Resend.antt =====
-- transport.go: after which answers a request is sent again.
use rho_llm.Base.{ℕ, ◌≡◌, Bool, true, arith, ◌⊎◌, inl, inr, ℤ, Option-cases}
use rho_llm.Errors.{GoError}
use rho_llm.Errors.Status.{is_retryable}
use rho_llm.Transport.{
  HttpResponse, HttpConfig, HttpWorld, resends, on_response, on_transport_error, on_sent,
  retryable_http_status, idempotent_safe_status, is_dial_error,
}

-- An answer after which the request may be sent again: a status that may be retried, or a transport
-- error that may be. For a request that is not idempotent, only the rejections 429 and 503, and
-- connections that were never made.
abbrev pub MayResend : Bool → HttpResponse ⊎ GoError → Type 0
MayResend non_idempotent (inl r) =
    (retryable_http_status r.status_code ≡ true)
    × (non_idempotent ≡ true → (r.status_code ≡ 429) ⊎ (r.status_code ≡ 503))
MayResend non_idempotent (inr e) =
    (is_retryable e ≡ true) × (non_idempotent ≡ true → is_dial_error e ≡ true)

module _ (w : HttpWorld) (cfg : HttpConfig) where
  on_response-MayResend :
      (i limit : ℕ) (r : HttpResponse) (e : GoError) (d : ℤ)
      → (on_response w cfg i limit r).0 ≡ resends e d
      → MayResend cfg.non_idempotent (inl r)
  unfolding on_response idempotent_safe_status
  on_response-MayResend i limit r e d p = ground arith

  on_transport_error-MayResend :
      (i limit : ℕ) (err e : GoError) (d : ℤ)
      → (on_transport_error w cfg i limit err).0 ≡ resends e d
      → MayResend cfg.non_idempotent (inr err)
  unfolding on_transport_error
  on_transport_error-MayResend i limit err e d p = ground arith

  pub on_sent-MayResend :
      (i limit : ℕ) (a : HttpResponse ⊎ GoError) (e : GoError) (d : ℤ)
      → (on_sent w cfg i limit a).0 ≡ resends e d
      → MayResend cfg.non_idempotent a
  unfolding on_sent
  on_sent-MayResend i limit (inl r) e d p = on_response-MayResend i limit r e d p
  on_sent-MayResend i limit (inr err) e d p = elim (Option-cases (w.ctx_err i)) [
    | inr (c, q) ↦ grind arith
    | inl q ↦ on_transport_error-MayResend i limit err e d (ground arith)
  ]
