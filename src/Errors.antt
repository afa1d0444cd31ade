-- ===== src/Errors.antt =====
-- errors.go: the errors the program tells apart, and how it classifies them.
-- An error is its chain of wrappers as errors.As and errors.Is walk it, down to a leaf. Texts are
-- ASCII; the leaves of other packages carry only what the program asks of them.
pub mod Render
pub mod Status
pub mod Classes
use rho_llm.Base.{ℕ, Text, Bool, true, false, ◌||◌, Option, none, some, ℤ}

-- APIError. A status is a small non-negative int; `retry_after` is a time.Duration.
pub record ApiError : Type 0 where
  pub status_code : ℕ
  pub message : Text
  pub provider : Text
  pub retryable : Bool
  pub retry_after : ℤ

-- The package variables and library values that errors.Is compares with.
pub data Sentinel : Type 0 where
  canceled deadline_exceeded private_address eof unexpected_eof conn_reset conn_refused : Sentinel
  circuit_open client_closed no_available_profiles stream_incomplete : Sentinel

abbrev pub sentinel_eq : Sentinel → Sentinel → Bool
sentinel_eq canceled canceled = true
sentinel_eq deadline_exceeded deadline_exceeded = true
sentinel_eq private_address private_address = true
sentinel_eq eof eof = true
sentinel_eq unexpected_eof unexpected_eof = true
sentinel_eq conn_reset conn_reset = true
sentinel_eq conn_refused conn_refused = true
sentinel_eq circuit_open circuit_open = true
sentinel_eq client_closed client_closed = true
sentinel_eq no_available_profiles no_available_profiles = true
sentinel_eq stream_incomplete stream_incomplete = true
sentinel_eq _ _ = false

-- `op_error` (its operation, then where) and `url_error` are net.OpError and url.Error, which wrap a
-- cause; `wrapped` is fmt.Errorf("text: %w"), and `suffixed` fmt.Errorf("%w text").
pub data GoError : Type 0 where
  plain : Text → GoError
  sentinel : Sentinel → GoError
  api : ApiError → GoError
  cooldown_error : ℤ → GoError
  cert_error : Text → GoError
  dns_error : Text → GoError
  op_error : Text → Text → GoError → GoError
  url_error : Text → GoError → GoError
  wrapped : Text → GoError → GoError
  suffixed : GoError → Text → GoError

-- errors.As(err, &apiErr).
unfoldable pub as_api : GoError → Option ApiError
as_api (api a) = some a
as_api (op_error op place e) = as_api e
as_api (url_error op e) = as_api e
as_api (wrapped t e) = as_api e
as_api (suffixed e t) = as_api e
as_api _ = none

-- errors.Is(err, target). CooldownError unwraps to ErrNoAvailableProfiles, and ErrStreamIncomplete
-- to io.ErrUnexpectedEOF.
unfoldable pub is_sentinel : Sentinel → GoError → Bool
is_sentinel target (sentinel stream_incomplete) =
    sentinel_eq target stream_incomplete || sentinel_eq target unexpected_eof
is_sentinel target (sentinel s) = sentinel_eq target s
is_sentinel target (cooldown_error wait) = sentinel_eq target no_available_profiles
is_sentinel target (op_error op place e) = is_sentinel target e
is_sentinel target (url_error op e) = is_sentinel target e
is_sentinel target (wrapped t e) = is_sentinel target e
is_sentinel target (suffixed e t) = is_sentinel target e
is_sentinel target _ = false

-- errors.As(err, &certErr).
unfoldable pub as_cert : GoError → Bool
as_cert (cert_error t) = true
as_cert (op_error op place e) = as_cert e
as_cert (url_error op e) = as_cert e
as_cert (wrapped t e) = as_cert e
as_cert (suffixed e t) = as_cert e
as_cert _ = false

-- errors.As(err, &netErr): the errors with Timeout() and Temporary(). context.DeadlineExceeded and
-- a syscall.Errno have both.
unfoldable pub as_net : GoError → Bool
as_net (dns_error t) = true
as_net (op_error op place e) = true
as_net (url_error op e) = true
as_net (sentinel deadline_exceeded) = true
as_net (sentinel conn_reset) = true
as_net (sentinel conn_refused) = true
as_net (wrapped t e) = as_net e
as_net (suffixed e t) = as_net e
as_net _ = false

-- errors.As(err, &cooldownErr).
unfoldable pub as_cooldown : GoError → Option ℤ
as_cooldown (cooldown_error wait) = some wait
as_cooldown (op_error op place e) = as_cooldown e
as_cooldown (url_error op e) = as_cooldown e
as_cooldown (wrapped t e) = as_cooldown e
as_cooldown (suffixed e t) = as_cooldown e
as_cooldown _ = none

-- isDialError's two errors.As calls: a DNS error, or an outermost net.OpError that dials.
unfoldable pub as_dns : GoError → Bool
as_dns (dns_error t) = true
as_dns (op_error op place e) = as_dns e
as_dns (url_error op e) = as_dns e
as_dns (wrapped t e) = as_dns e
as_dns (suffixed e t) = as_dns e
as_dns _ = false

unfoldable pub as_op : GoError → Option Text
as_op (op_error op place e) = some op
as_op (url_error op e) = as_op e
as_op (wrapped t e) = as_op e
as_op (suffixed e t) = as_op e
as_op _ = none
