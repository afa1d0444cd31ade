-- ===== src/Pooled/Origin/Causes.antt =====
-- pool.go: how an attempt of Complete ends once its call is answered.
use rho_llm.Base.{
  ℕ, ◌+◌, ◌≡◌, refl, ap, ◌⊎◌, inl, inr, Bool, true, false, ◌&&◌, not, Option, none, some, List, [],
  ◌∷◌, ◌++◌, ℤ, pos, if◌then◌else◌, Bool-cases, Text, ◌==◌, append_assoc, ◌∙◌,
}
use rho_llm.Errors.{GoError, wrapped, circuit_open, client_closed, is_sentinel}
use rho_llm.Errors.Status.{is_auth_error, is_retryable}
use rho_llm.AuthPool.{healthy_count}
use rho_llm.Retry.{RetryBudget, budget_allows, sleep_outlasts_deadline}
use rho_llm.Pooled.{
  RetryEventType, PoolConfig, Shared, World, Effect, acquires, releases, calls, emits, RetryEvent,
  backing_off, fail, rearm,
}
use rho_llm.Pooled.Calls.{Quiet, Quiet-append}
use rho_llm.Pooled.Rotate.{rotate_client, mark_failed_in, backoff_after_failed_rotation}
use rho_llm.Pooled.Complete.{
  Verdict, returns, fails, again, breaks, on_answer, on_error, judge_error, retry, after_rotation,
  back_off, after_sleep, event, budget_text, Result,
}

module _ (w : World) where
  open w use {Client, Response, call, sleep}

  -- Call i, of this client, was answered with this error, or with this response.
  pub data Raised (i : ℕ) (c : Client) (e : GoError) : Type 0 where
    raised : (s : Shared Client) → (call i c s).0 ≡ inr e → Raised i c e

  pub data Answered (i : ℕ) (c : Client) (r : Response) : Type 0 where
    answered : (s : Shared Client) → (call i c s).0 ≡ inl r → Answered i c r

  -- An error, or that error under one message.
  abbrev pub Wraps : GoError → GoError → Type 0
  Wraps e cause = (e ≡ cause) ⊎ ((t : Text) × (e ≡ wrapped t cause))

  -- What may end Complete after call i: the rotation finds the pool closed, the caller gives up
  -- during the backoff, or the call's own error.
  pub data Cause (i : ℕ) (c : Client) (e : GoError) : Type 0 where
    found_closed : is_sentinel client_closed e ≡ true → Cause i c e
    gave_up : (d : ℤ) (s : Shared Client) → (sleep i d s).0 ≡ some e → Cause i c e
    provider : (cause : GoError) → Raised i c cause → Wraps e cause → Cause i c e

  -- Call i, of this client, is the last that the log has.
  abbrev pub Last : ℕ → Client → List (Effect Client) → Type 0
  Last i c log =
      (earlier : List (Effect Client)) × (later : List (Effect Client)) × (log
        ≡ earlier ++ (acquires c ∷ calls i ∷ releases c ∷ later))
      × Quiet later

  pub Last-append :
      (i : ℕ) (c : Client) (log more : List (Effect Client))
      → Last i c log
      → Quiet more
      → Last i c (log ++ more)
  Last-append i c log more (earlier, later, p, q) h = (
    earlier,
    later ++ more,
    ap (λ l. l ++ more) p ∙ append_assoc earlier (acquires c ∷ calls i ∷ releases c ∷ later) more,
    Quiet-append later more q h,
  )

  -- Why Complete fails with this log: the breaker rejects it before any call, the pool is closed, or
  -- the last call.
  pub data Origin (log : List (Effect Client)) (e : GoError) : Type 0 where
    rejected : Quiet log → is_sentinel circuit_open e ≡ true → Origin log e
    pool_closed : is_sentinel client_closed e ≡ true → Origin log e
    last_call : (i : ℕ) (c : Client) → Last i c log → Cause i c e → Origin log e

  -- What each way to end the attempt of call i stems from.
  abbrev pub Justified : ℕ → Client → Verdict Response → Type 0
  Justified i c (returns r) = Answered i c r
  Justified i c (fails e) = Cause i c e
  Justified i c (again e) = Raised i c e
  Justified i c (breaks e) = Raised i c e

  pub wrapped-Cause :
      (i : ℕ) (c : Client) (t : Text) (e : GoError) → Raised i c e → Cause i c (wrapped t e)
  wrapped-Cause i c t e r = provider e r (inr (t, refl))

  module _ (cfg : PoolConfig) (b : RetryBudget) (prefix : Text) (c : Client) where
    abbrev Sound : ℕ → Result w cfg b prefix → Type 0
    Sound i r = Justified i c r.0

    after_sleep-Sound :
        (i : ℕ) (d : ℤ) (err : GoError) (e : RetryEvent) (s : Shared Client)
        → Raised i c err
        → Sound i (after_sleep w cfg b prefix err d e (sleep i d s))
    unfolding after_sleep
    after_sleep-Sound i d err e s r = slept (sleep i d s) refl
      where
        slept :
            (x : Option GoError × Shared Client)
            → sleep i d s ≡ x
            → Sound i (after_sleep w cfg b prefix err d e x)
        slept (some cancelled, s') p = gave_up d s (ap (λ y. y.0) p)
        slept (none, s') p = r

    back_off-Sound :
        (i : ℕ) (rot err : GoError) (s : Shared Client)
        → Raised i c err
        → Sound i (back_off w cfg b prefix i rot err s)
    unfolding back_off
    back_off-Sound i rot err s r =
        let d : ℤ = backoff_after_failed_rotation w i (healthy_count s.pool.profiles) rot err in
        elim (Bool-cases (budget_allows b s.now d)) [
          | inr p ↦ rw p (wrapped-Cause i c (budget_text w cfg b prefix) err r)
          | inl p ↦ elim (Bool-cases (sleep_outlasts_deadline w.deadline s.now d)) [
            | inl q ↦ rw (p, q) (wrapped-Cause i c _ err r)
            | inr q ↦ rw (p, q) (after_sleep-Sound i d err (event backing_off i (some rot) d) s r)
          ]
        ]

    after_rotation-Sound :
        (i limit : ℕ) (err : GoError) (r : Option GoError × Shared Client × List (Effect Client))
        → Raised i c err
        → Sound i (after_rotation w cfg b prefix i limit err r)
    unfolding after_rotation is_sentinel
    after_rotation-Sound i limit err (some rot, s, log) r =
        elim (Bool-cases (is_sentinel client_closed rot)) [
          | inl p ↦ rw p (found_closed refl)
          | inr p ↦ elim (Bool-cases (is_auth_error err)) [
            | inl q ↦ rw (p, q) (provider err r (inl refl))
            | inr q ↦ elim (Bool-cases (i + 1 == limit)) [
              | inl l ↦ rw (p, q, l) r
              | inr l ↦ rw (p, q, l) (back_off-Sound i rot err s r)
            ]
          ]
        ]
    after_rotation-Sound i limit err (none, s, log) r =
        elim (Bool-cases (budget_allows b s.now (pos 0))) [
          | inl p ↦ rw p r
          | inr p ↦ rw p (wrapped-Cause i c (budget_text w cfg b prefix) err r)
        ]

    retry-Sound :
        (i limit token : ℕ) (used : Text) (err : GoError) (s : Shared Client)
        → Raised i c err
        → Sound i (retry w cfg b prefix i limit token used err s)
    unfolding retry
    retry-Sound i limit token used err s r =
        after_rotation-Sound i limit err
          (rotate_client w i used (
            mark_failed_in w cfg used err
              (if is_auth_error err then s else record s { breaker = fail s.breaker token s.now })))
          r

    judge_error-Sound :
        (i limit token : ℕ) (used : Text) (err : GoError) (s : Shared Client)
        → Raised i c err
        → Sound i (judge_error w cfg b prefix i limit token used err s)
    unfolding judge_error
    judge_error-Sound i limit token used err s r =
        judged cfg.disable_retries (not (is_retryable err) && not (is_auth_error err))
      where
        told : Effect Client
        told = emits (event RetryEventType.attempt_failed i (some err) (pos 0))

        released : Shared Client
        released = record s { breaker = rearm s.breaker token }

        retried : Result w cfg b prefix
        retried = retry w cfg b prefix i limit token used err s

        judged :
            (off hopeless : Bool)
            → Sound i (
                if off
                then (fails err, released, told ∷ [])
                else if hopeless
                then (fails err, released, told ∷ [])
                else (retried.0, retried.1, told ∷ retried.2))
        judged true hopeless = provider err r (inl refl)
        judged false true = provider err r (inl refl)
        judged false false = retry-Sound i limit token used err s r

    on_error-Sound :
        (i limit token : ℕ) (used : Text) (err : GoError) (s : Shared Client)
        → Raised i c err
        → Sound i (on_error w cfg b prefix i limit token used err s)
    unfolding on_error
    on_error-Sound i limit token used err s r = here (w.ctx_err i)
      where
        here :
            (o : Option GoError)
            → Justified i c
                (elim o as (λ _. Result w cfg b prefix) [
                  | some cancelled ↦ (fails err, record s { breaker = rearm s.breaker token }, [])
                  | none ↦ judge_error w cfg b prefix i limit token used err s
                ]).0
        here (some cancelled) = provider err r (inl refl)
        here none = judge_error-Sound i limit token used err s r

    pub on_answer-Sound :
        (i limit token : ℕ) (used : Text) (s : Shared Client)
        → Sound i (on_answer w cfg b prefix i limit token used (call i c s))
    unfolding on_answer
    on_answer-Sound i limit token used s = came (call i c s) refl
      where
        came :
            (x : (Response ⊎ GoError) × Shared Client)
            → call i c s ≡ x
            → Sound i (on_answer w cfg b prefix i limit token used x)
        came (inl resp, s') p = answered s (ap (λ y. y.0) p)
        came (inr err, s') p = on_error-Sound i limit token used err s' (raised s (ap (λ y. y.0) p))
