-- ===== src/Errors/Render.antt =====
-- errors.go, pool.go: what err.Error() says, for each error of the model.
use rho_llm.Base.{
  ℕ, ◌+◌, ◌/◌, ◌%◌, Text, text, decimal, ◌++◌, ◌==◌, ltb, if◌then◌else◌, ℤ, pos, negsuc,
}
use rho_llm.Errors.{
  Sentinel, canceled, deadline_exceeded, private_address, eof, unexpected_eof, conn_reset,
  conn_refused, circuit_open, client_closed, no_available_profiles, stream_incomplete, GoError,
  plain, sentinel, api, cooldown_error, cert_error, dns_error, op_error, url_error, wrapped,
  suffixed,
}

-- time.Duration.String of a duration rounded to whole seconds.
whole_seconds : ℕ → Text
whole_seconds s =
    if ltb s 60
    then decimal s ++ text "s"
    else (let rest = decimal (s % 3600 / 60) ++ text "m" ++ decimal (s % 60) ++ text "s" in
        if ltb s 3600 then rest else decimal (s / 3600) ++ text "h" ++ rest)

round_seconds : ℕ → ℕ
round_seconds ns = (ns + 500000000) / 1000000000

duration_text : ℤ → Text
unfolding whole_seconds round_seconds
duration_text (pos ns) = whole_seconds (round_seconds ns)
duration_text (negsuc ns) =
    let s = round_seconds (ns + 1) in
    if s == 0 then whole_seconds 0 else text "-" ++ whole_seconds s

abbrev sentinel_text : Sentinel → Text
sentinel_text canceled = text "context canceled"
sentinel_text deadline_exceeded = text "context deadline exceeded"
sentinel_text private_address =
    text "llm: private or reserved address refused (BlockPrivateBaseURL)"
sentinel_text eof = text "EOF"
sentinel_text unexpected_eof = text "unexpected EOF"
sentinel_text conn_reset = text "connection reset by peer"
sentinel_text conn_refused = text "connection refused"
sentinel_text circuit_open = text "circuit breaker is open"
sentinel_text client_closed = text "llm: client is closed"
sentinel_text no_available_profiles = text "no available auth profiles (all in cooldown)"
sentinel_text stream_incomplete = text "llm: stream ended without completion: unexpected EOF"

-- err.Error().
unfoldable pub error_text : GoError → Text
unfolding duration_text
error_text (plain t) = t
error_text (sentinel s) = sentinel_text s
error_text (api a) =
    a.provider ++ text " API error (status " ++ decimal a.status_code ++ text "): " ++ a.message
error_text (cooldown_error wait) =
    sentinel_text no_available_profiles ++ text ": next available in " ++ duration_text wait
error_text (cert_error t) = t
error_text (dns_error t) = t
error_text (op_error op place e) = op ++ place ++ text ": " ++ error_text e
error_text (url_error t e) = t ++ text ": " ++ error_text e
error_text (wrapped t e) = t ++ text ": " ++ error_text e
error_text (suffixed e t) = error_text e ++ t
