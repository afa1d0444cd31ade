-- ===== src/Errors/Classes.antt =====
-- errors.go: the classes of an error, and the length of its message.
use rho_llm.Base.{
  ℕ, ◌+◌, ◌≤◌, Text, ◌≡◌, refl, Bool, false, ◌||◌, ◌∙◌, some, ◌==◌, arith, ℤ, pos, length, take,
  length-append, text, if◌then◌else◌, ltb_ℤ, pos_part, length-take,
}
use rho_llm.Errors.{
  ApiError, GoError, Sentinel, plain, sentinel, api, cooldown_error, cert_error, dns_error,
  op_error, url_error, wrapped, suffixed, as_api, is_sentinel, as_cert,
}
use rho_llm.Errors.Status.{
  is_rate_limited, is_overloaded, is_auth_error, is_retryable, new_api_error_from_status_with_limit,
  truncate_error_body, default_max_error_message_len,
}

-- A chain that ends in an APIError matches no sentinel and no certificate error.
sentinel_api :
    (t : Sentinel) (e : GoError) {a : ApiError} → as_api e ≡ some a → is_sentinel t e ≡ false
unfolding as_api is_sentinel
sentinel_api t (plain x) h = refl
sentinel_api t (sentinel s) h = cc
sentinel_api t (api a) h = refl
sentinel_api t (cooldown_error w) h = cc
sentinel_api t (cert_error x) h = refl
sentinel_api t (dns_error x) h = refl
sentinel_api t (op_error o p e) h = sentinel_api t e h
sentinel_api t (url_error x e) h = sentinel_api t e h
sentinel_api t (wrapped x e) h = sentinel_api t e h
sentinel_api t (suffixed e x) h = sentinel_api t e h

cert_api : (e : GoError) {a : ApiError} → as_api e ≡ some a → as_cert e ≡ false
unfolding as_api as_cert
cert_api (plain x) h = refl
cert_api (sentinel s) h = refl
cert_api (api a) h = refl
cert_api (cooldown_error w) h = refl
cert_api (cert_error x) h = cc
cert_api (dns_error x) h = refl
cert_api (op_error o p e) h = cert_api e h
cert_api (url_error x e) h = cert_api e h
cert_api (wrapped x e) h = cert_api e h
cert_api (suffixed e x) h = cert_api e h

-- However it is wrapped, an APIError is retried exactly when its flag says so.
pub is_retryable-as_api :
    (e : GoError) {a : ApiError} → as_api e ≡ some a → is_retryable e ≡ a.retryable
unfolding is_retryable
is_retryable-as_api e {a} h = simp (sentinel_api _ e h, cert_api e h, h)

abbrev pub transient : ℕ → Bool
transient s = s == 429 || s == 503 || s == 529 || s == 500 || s == 502 || s == 504 || s == 408

made :
    (provider : Text) (status : ℕ) (body : Text) (limit : ℤ)
    → let a = new_api_error_from_status_with_limit provider status body limit in
      (a.status_code ≡ status) × (a.retryable ≡ transient status)
unfolding new_api_error_from_status_with_limit
made provider status body limit = ground arith

-- An error made from an HTTP status, under any wrapping, is a rate limit, an overload or an
-- authentication error by its status alone, and is retried for 408, 429, 500, 502, 503, 504 and 529
-- only.
pub status_classes :
    (e : GoError) (provider : Text) (status : ℕ) (body : Text) (limit : ℤ)
    → as_api e ≡ some (new_api_error_from_status_with_limit provider status body limit)
    → (is_rate_limited e ≡ (status == 429))
      × (is_overloaded e ≡ (status == 503 || status == 529))
      × (is_auth_error e ≡ (status == 401 || status == 403))
      × (is_retryable e ≡ transient status)
unfolding is_rate_limited is_overloaded is_auth_error
status_classes e provider status body limit h =
    let m = made provider status body limit in
    (ground (arith, m), ground (arith, m), ground (arith, m), is_retryable-as_api e h ∙ m.1)

-- The stored message is at most the limit and the truncation marker long, and a message within the
-- limit is kept whole.
pub truncate_bounds :
    (s : Text) (limit : ℤ)
    → let cap = (if ltb_ℤ (pos 0) limit then pos_part limit else default_max_error_message_len) in
      (length (truncate_error_body s limit) ≤ cap + 15)
      × (length s ≤ cap → truncate_error_body s limit ≡ s)
unfolding truncate_error_body
truncate_bounds s limit =
    let cap = (if ltb_ℤ (pos 0) limit then pos_part limit else default_max_error_message_len) in
    ground (arith, length-append (take cap s) (text "... [truncated]"), length-take cap s)
