-- ===== src/Transport/Loop.antt =====
-- transport.go: what one call of DoHTTP sends, and which response it returns.
use rho_llm.Base.{
  ℕ, zero, suc, ◌+◌, ◌≤◌, ◌≡◌, refl, ap, ◌∙◌, true, false, Option, none, some, List, [], ◌∷◌, ◌++◌,
  arith, ◌⊎◌, inl, inr, ℤ, pos,
}
use rho_llm.Errors.{GoError}
use rho_llm.Transport.{
  HttpResponse, HttpConfig, HttpWorld, HttpVerdict, stops, resends, on_response, on_transport_error,
  on_sent, HttpEvent, sends, attempt_failed, exhausted, backing_off, proceed, http_rounds, do_http,
  HttpAnswer, http_attempts,
}
use rho_llm.Transport.Resend.{MayResend, on_sent-MayResend}

-- The attempts that were sent, in order.
abbrev pub sent : List HttpEvent → List ℕ
sent [] = []
sent (sends i ∷ log) = i ∷ sent log
sent (attempt_failed i e ∷ log) = sent log
sent (exhausted i e ∷ log) = sent log
sent (backing_off i e d ∷ log) = sent log

-- `k` numbers from `i` on.
abbrev pub count_from : ℕ → ℕ → List ℕ
count_from i zero = []
count_from i (suc k) = i ∷ count_from (i + 1) k

sent-append : (xs ys : List HttpEvent) → sent (xs ++ ys) ≡ sent xs ++ sent ys
sent-append [] ys = refl
sent-append (sends i ∷ xs) ys = ap (◌∷◌ i) (sent-append xs ys)
sent-append (attempt_failed i e ∷ xs) ys = sent-append xs ys
sent-append (exhausted i e ∷ xs) ys = sent-append xs ys
sent-append (backing_off i e d ∷ xs) ys = sent-append xs ys

-- One to three attempts without a cap, at least three with one, and one with retries disabled.
pub http_attempts_bounds :
    (cfg : HttpConfig)
    → (cfg.disable_retries ≡ true → http_attempts cfg ≡ 1)
      × (cfg.disable_retries ≡ false
          → (3 ≤ http_attempts cfg)
            × ((http_attempts cfg ≡ 3) ⊎ (pos (http_attempts cfg) ≡ cfg.max_retries)))
unfolding http_attempts
http_attempts_bounds cfg = ground arith

module _ (w : HttpWorld) (cfg : HttpConfig) where
  -- Each of `k` attempts from `i` on, but the last, was answered in a way that allows another.
  abbrev pub Resent : ℕ → ℕ → Type 0
  Resent i zero = Unit
  Resent i (suc zero) = Unit
  Resent i (suc (suc k)) = MayResend cfg.non_idempotent (w.send i) × Resent (i + 1) (suc k)

  -- The response that is returned is the answer to the last attempt.
  abbrev pub IsLast : ℕ → ℕ → HttpResponse ⊎ GoError → Type 0
  IsLast i k out = (r : HttpResponse) → out ≡ inl r → (j : ℕ) × (j + 1 ≡ i + k) × (w.send j ≡ inl r)

  abbrev pub Sends : ℕ → ℕ → HttpAnswer w cfg → Type 0
  Sends left i (out, log) =
      (k : ℕ) × (k ≤ left) × (sent log ≡ count_from i k) × Resent i k × IsLast i k out

  -- An attempt records no sending of its own besides the one of the loop, and returns no response
  -- but the one it got.
  abbrev Fits : HttpResponse ⊎ GoError → HttpVerdict × List HttpEvent → Type 0
  Fits a (v, log) = (sent log ≡ []) × ((r : HttpResponse) → v ≡ stops (inl r) → a ≡ inl r)

  on_sent-Fits : (i limit : ℕ) (a : HttpResponse ⊎ GoError) → Fits a (on_sent w cfg i limit a)
  unfolding on_sent on_response on_transport_error
  on_sent-Fits i limit (inl resp) = ground arith
  on_sent-Fits i limit (inr err) = ground arith

  Resent-suc :
      (i k : ℕ) → MayResend cfg.non_idempotent (w.send i) → Resent (i + 1) k → Resent i (suc k)
  Resent-suc i zero m h = tt
  Resent-suc i (suc k) m h = (m, h)

  proceed-Sends :
      (left i : ℕ) (next : GoError → HttpAnswer w cfg) (x : HttpVerdict × List HttpEvent)
      → Fits (w.send i) x
      → ((e : GoError) (d : ℤ) → x.0 ≡ resends e d → MayResend cfg.non_idempotent (w.send i))
      → ((e : GoError) → Sends left (i + 1) (next e))
      → Sends (suc left) i (proceed w cfg i next x)
  unfolding proceed
  proceed-Sends left i next (stops out, log) (q, f) m h =
      (1, omega arith, ap (◌∷◌ i) q, tt, λ r p. (i, omega arith, f r (ap stops p)))
  proceed-Sends left i next (resends err d, log) (q, f) m h = waited (w.interrupted i)
    where
      told : List HttpEvent
      told = sends i ∷ log ++ attempt_failed i err ∷ backing_off i err d ∷ []

      told_sent : sent told ≡ i ∷ []
      told_sent =
          ap (◌∷◌ i) (sent-append log (attempt_failed i err ∷ backing_off i err d ∷ []) ∙ rw q refl)

      waited :
          (o : Option GoError)
          → Sends (suc left) i (elim o as (λ _. HttpAnswer w cfg) [
            | some c ↦ (inr c, told)
            | none ↦ ((next err).0, told ++ (next err).1)
          ])
      waited (some c) = (1, omega arith, told_sent, tt, λ r p. cc)
      waited none =
          let (k, bound, s, safe, last) = h err in
          (
            suc k,
            omega arith,
            sent-append told (next err).1
                ∙ ap (λ xs. xs ++ sent (next err).1) told_sent
                ∙ ap (◌∷◌ i) s,
            Resent-suc i k (m err d refl) safe,
            λ r p. let (j, eq, got) = last r p in (j, omega arith, got),
          )

  http_rounds-Sends :
      (left i limit : ℕ) (last : GoError) → Sends left i (http_rounds w cfg left i limit last)
  unfolding http_rounds
  http_rounds-Sends zero i limit last = (0, omega arith, refl, tt, λ r p. cc)
  http_rounds-Sends (suc left) i limit last = built (w.build i) (
      proceed-Sends left i (http_rounds w cfg left (i + 1) limit) (on_sent w cfg i limit (w.send i))
        (on_sent-Fits i limit (w.send i)) (on_sent-MayResend w cfg i limit (w.send i))
        (λ e. http_rounds-Sends left (i + 1) limit e))
    where
      round : HttpAnswer w cfg
      round =
          proceed w cfg i (http_rounds w cfg left (i + 1) limit) (on_sent w cfg i limit (w.send i))

      built :
          (o : Option GoError)
          → Sends (suc left) i round
          → Sends
              (suc left)
              i
              (elim o as (λ _. HttpAnswer w cfg) [ some e ↦ (inr e, []) | none ↦ round ])
      built (some e) h = (0, omega arith, refl, tt, λ r p. cc)
      built none h = h

-- DoHTTP sends the attempts 0, 1, 2 and so on, at most as many as the configuration allows. Each
-- one after the first follows an answer that allows a resend: a retryable status or transport
-- error, and for a request that is not idempotent only 429, 503 or a connection that was never
-- made. A response that DoHTTP returns is the answer to its last attempt.
pub do_http-Sends :
    (w : HttpWorld) (cfg : HttpConfig) → Sends w cfg (http_attempts cfg) 0 (do_http w cfg)
unfolding do_http
do_http-Sends w cfg =
    http_rounds-Sends w cfg (http_attempts cfg) 0 (http_attempts cfg) (GoError.plain [])
