-- ===== src/Errors/Status.antt =====
-- errors.go: the errors made from an HTTP status, and the classes of an error.
use rho_llm.Base.{
  ℕ, Text, text, contains, has_suffix, to_lower, Bool, true, false, ◌&&◌, ◌||◌, none, some, ◌++◌,
  ◌==◌, leb, if◌then◌else◌, ℤ, pos, ltb_ℤ, pos_part, length, take,
}
use rho_llm.Errors.{
  ApiError, GoError, canceled, private_address, eof, unexpected_eof, conn_reset, conn_refused,
  as_api, is_sentinel, as_cert, as_net,
}
use rho_llm.Errors.Render.{error_text}

abbrev pub default_max_error_message_len : ℕ
default_max_error_message_len = 4096

unfoldable pub truncate_error_body : Text → ℤ → Text
truncate_error_body s max_len =
    let cap = (if ltb_ℤ (pos 0) max_len then pos_part max_len else default_max_error_message_len) in
    if leb (length s) cap then s else take cap s ++ text "... [truncated]"

unfoldable pub new_rate_limit_error : Text → Text → ApiError
new_rate_limit_error provider message = record {
  status_code = 429;
  message = message;
  provider = provider;
  retryable = true;
  retry_after = pos 0;
}

unfoldable pub new_overloaded_error : Text → Text → ApiError
new_overloaded_error provider message = record {
  status_code = 503;
  message = message;
  provider = provider;
  retryable = true;
  retry_after = pos 0;
}

unfoldable pub new_auth_error : Text → Text → ℕ → ApiError
new_auth_error provider message status = record {
  status_code = status;
  message = message;
  provider = provider;
  retryable = false;
  retry_after = pos 0;
}

unfoldable pub new_context_length_error : Text → Text → ApiError
new_context_length_error provider message = record {
  status_code = 400;
  message = message;
  provider = provider;
  retryable = false;
  retry_after = pos 0;
}

unfoldable pub is_context_length_message : Text → Bool
unfolding contains
is_context_length_message body =
    let lower = to_lower body in
    contains lower (text "context length")
    || contains lower (text "context_length")
    || contains lower (text "maximum context")
    || contains lower (text "prompt is too long")
    || contains lower (text "input too long")
    || contains lower (text "request too large")
    || contains lower (text "token count exceeds")

unfoldable pub new_api_error_from_status_with_limit : Text → ℕ → Text → ℤ → ApiError
unfolding new_rate_limit_error new_overloaded_error new_auth_error new_context_length_error
new_api_error_from_status_with_limit provider status full max_len =
    let body = truncate_error_body full max_len in
    if status == 429
    then new_rate_limit_error provider body
    else if status == 503 || status == 529
    then record (new_overloaded_error provider body) { status_code = status }
    else if status == 401 || status == 403
    then new_auth_error provider body status
    else if status == 400 && is_context_length_message body
    then new_context_length_error provider body
    else record {
      status_code = status;
      message = body;
      provider = provider;
      retryable = status == 500 || status == 502 || status == 504 || status == 408;
      retry_after = pos 0;
    }

unfoldable pub new_api_error_from_status : Text → ℕ → Text → ApiError
new_api_error_from_status provider status body =
    new_api_error_from_status_with_limit provider status body (pos default_max_error_message_len)

unfoldable pub status_is : (ℕ → Bool) → GoError → Bool
unfolding as_api
status_is test err = elim (as_api err) [ none ↦ false | some a ↦ test a.status_code ]

unfoldable pub is_rate_limited : GoError → Bool
unfolding status_is
is_rate_limited = status_is (λ code. code == 429)

unfoldable pub is_overloaded : GoError → Bool
unfolding status_is
is_overloaded = status_is (λ code. code == 503 || code == 529)

unfoldable pub is_auth_error : GoError → Bool
unfolding status_is
is_auth_error = status_is (λ code. code == 401 || code == 403)

unfoldable pub is_context_length : GoError → Bool
is_context_length err = elim (as_api err) [
  | none ↦ false
  | some a ↦ a.status_code == 400 && is_context_length_message a.message
]

-- The fallback of IsRetryable on the error's text.
unfoldable pub looks_transient : Text → Bool
looks_transient t =
    let msg = to_lower t in
    contains msg (text "connection refused")
    || contains msg (text "no such host")
    || has_suffix msg (text "timeout")
    || contains msg (text "timeout ")
    || contains msg (text "timed out")
    || has_suffix msg (text "eof")
    || contains msg (text "eof:")
    || contains msg (text "connection reset")
    || contains msg (text "broken pipe")

unfoldable pub is_retryable : GoError → Bool
is_retryable err =
    if is_sentinel canceled err
    then false
    else if is_sentinel private_address err
    then false
    else if as_cert err
    then false
    else elim (as_api err) [
      | some a ↦ a.retryable
      | none ↦
          as_net err
          || (is_sentinel eof err || is_sentinel unexpected_eof err)
          || (is_sentinel conn_reset err || is_sentinel conn_refused err)
          || looks_transient (error_text err)
    ]
