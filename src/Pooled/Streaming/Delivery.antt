-- ===== src/Pooled/Streaming/Delivery.antt =====
-- pool.go: what PooledClient.Stream yields.
use rho_llm.Base.{
  append_nil, ℕ, zero, suc, ◌+◌, ◌≤◌, ◌≡◌, refl, subst, ap, ◌⊎◌, inl, inr, Bool, true, false,
  Option, none, some, List, [], ◌∷◌, ◌++◌, arith, pos, if◌then◌else◌, Text, text,
}
use rho_llm.Errors.{GoError, sentinel, client_closed}
use rho_llm.AuthPool.{healthy_count}
use rho_llm.Retry.{RetryBudget}
use rho_llm.Pooled.{
  PoolConfig, Shared, World, Effect, acquires, calls, releases, emits, max_retries, gate,
  RetryEventType, exhausted,
}
use rho_llm.Pooled.Complete.{Verdict, returns, fails, again, breaks, open_error, event}
use rho_llm.Pooled.Calls.{call_numbers, call_numbers-append, range_from, on_error-Quiet}
use rho_llm.Pooled.Streaming.{
  Streams, Ending, finished, stopped, broken, unstarted, Outcome, over, undecided, Yield, deliver,
  settle_stream, Attempted, stream_client, stream_attempt, Streamed, stream_give_up, follow,
  stream_conclude, stream_rounds, stream,
}
use rho_llm.Pooled.Streaming.Served.{Failing, Failing-on_error, Served, Delivered, deliver_first}

module _ (w : World) (st : Streams w) where
  open w use {Client, Response}
  open st use {open_stream}

  -- What the attempt `i` of a call that has yielded nothing comes to: its stream is served, or
  -- nothing is yielded and there is an error, of its call or before it.
  abbrev Attempt : ℕ → List (Yield w st) → Outcome Response → List (Effect Client) → Type 0
  Attempt i ys over log =
      (call_numbers log ≡ i ∷ [])
      × ((c : Client) × ((s : Shared Client) × Served w st [] ys (open_stream i c s)))
  Attempt i ys (undecided v) log =
      (ys ≡ [])
      × (Failing v
          × ((call_numbers log ≡ i ∷ [])
              ⊎ ((call_numbers log ≡ []) × ((e : GoError) × (v ≡ fails e)))))

  -- The consumer gets one error, or is served the stream of the call before number `next`.
  abbrev pub Yielded : ℕ → List (Yield w st) → Type 0
  Yielded next ys =
      ((e : GoError) × (ys ≡ (st.no_event, some e) ∷ []))
      ⊎ ((i : ℕ) × ((suc i ≡ next)
            × ((c : Client) × ((s : Shared Client) × Served w st [] ys (open_stream i c s)))))

  module _ (cfg : PoolConfig) (b : RetryBudget) where
    -- The log of an attempt whose client was called, before `log`.
    settled_Attempt :
        (i limit token : ℕ) (used : Text) (ys : List (Yield w st)) (e : Ending) (c : Client)
        (s s' : Shared Client)
        → Delivered w st [] ys e (open_stream i c s)
        → let r = settle_stream w st cfg b i limit token used e s' in
          Attempt i ys r.0 (acquires c ∷ calls i ∷ releases c ∷ r.2)
    unfolding settle_stream
    settled_Attempt i limit token used ys finished c s s' d = (refl, (c, (s, d)))
    settled_Attempt i limit token used ys stopped c s s' d = (refl, (c, (s, d)))
    settled_Attempt i limit token used ys (broken e) c s s' d = (refl, (c, (s, d)))
    settled_Attempt i limit token used ys (unstarted e) c s s' d = (
      d,
      (
        Failing-on_error w cfg b (text "stream: ") i limit token used e s',
        inl (ap (◌∷◌ i) (on_error-Quiet w cfg b (text "stream: ") i limit token used e s')),
      ),
    )

    stream_client-Attempt :
        (i limit token : ℕ) (rc : Option Client) (s : Shared Client)
        → let a = stream_client w st cfg b i limit token [] rc s in Attempt i a.0 a.1 a.3
    unfolding stream_client
    stream_client-Attempt i limit token none s =
        (refl, (tt, inr (refl, (sentinel client_closed, refl))))
    stream_client-Attempt i limit token (some c) s =
        let d = deliver w st true [] (open_stream i c s) in
        settled_Attempt i limit token s.active_name d.0 d.1 c s (st.during i c s d.2)
          (deliver_first w st [] (open_stream i c s))

    stream_attempt-Attempt :
        (i limit : ℕ) (last : Option GoError) (s : Shared Client)
        → let a = stream_attempt w st cfg b i limit [] last s in Attempt i a.0 a.1 a.3
    unfolding stream_attempt
    stream_attempt-Attempt i limit last s = go (gate s.breaker s.now).1
      where
        entered : Shared Client
        entered = record s { breaker = (gate s.breaker s.now).0 }

        go :
            (admitted : Bool)
            → let a : Attempted w st cfg b =
                (if admitted
                  then stream_client w st cfg b i limit
                      (gate s.breaker s.now).2
                      []
                      entered.rc
                      entered
                  else (
                    [],
                    undecided (fails (open_error (text "stream: ") last)),
                    entered,
                    emits (event RetryEventType.circuit_open i none (pos 0)) ∷ [],
                  )) in
              Attempt i a.0 a.1 a.3
        go true = stream_client-Attempt i limit (gate s.breaker s.now).2 entered.rc entered
        go false = (refl, (tt, inr (refl, (open_error (text "stream: ") last, refl))))

    -- `k` calls, at most `left`, from number `i` on.
    abbrev Run : ℕ → ℕ → Streamed w st cfg b → Type 0
    Run left i out =
        (k : ℕ) × ((k ≤ left) × ((call_numbers out.2 ≡ range_from i k) × Yielded (i + k) out.0))

    give_up_Run :
        (left i k : ℕ) (last : Option GoError) (s : Shared Client) (log : List (Effect Client))
        → k ≤ left
        → call_numbers log ≡ range_from i k
        → let out = stream_give_up w st cfg b last s in Run left i (out.0, out.1, log ++ out.2)
    unfolding stream_give_up
    give_up_Run left i k last s log h c = (
      k,
      (
        h,
        (
          rw (call_numbers-append log (emits (event exhausted 0 last (pos 0)) ∷ []), c)
              (append_nil (range_from i k)),
          inl (_, refl),
        ),
      ),
    )

    abbrev Next : Type 0
    Next = List (Yield w st) → GoError → Shared Client → Streamed w st cfg b

    follow-Run :
        (left i : ℕ) (next : Next) (v : Verdict Response) (s : Shared Client)
        (log : List (Effect Client))
        → Failing v
        → (call_numbers log ≡ i ∷ []) ⊎ ((call_numbers log ≡ []) × ((e : GoError) × (v ≡ fails e)))
        → ((e : GoError) (s' : Shared Client) → Run left (i + 1) (next [] e s'))
        → let out = follow w st cfg b (next []) v s in Run (suc left) i (out.0, out.1, log ++ out.2)
    unfolding follow
    follow-Run left i next (returns r) s log f c h = elim f [ ]
    follow-Run left i next (fails e) s log f (inl c) h =
        (1, (omega arith, (rw (append_nil log) c, inl (e, refl))))
    follow-Run left i next (fails e) s log f (inr (c, p)) h =
        (0, (omega arith, (rw (append_nil log) c, inl (e, refl))))
    follow-Run left i next (breaks e) s log f (inl c) h =
        give_up_Run (suc left) i 1 (some e) s log (omega arith) c
    follow-Run left i next (breaks e) s log f (inr (c, (e', p))) h = cc
    follow-Run left i next (again e) s log f (inl c) h =
        let (k, (bound, (more, y))) = h e s in
        (
          suc k,
          (
            omega arith,
            (
              rw (call_numbers-append log (next [] e s).2, c, more),
              subst (λ n. Yielded n (next [] e s).0) (omega arith) y,
            ),
          ),
        )
    follow-Run left i next (again e) s log f (inr (c, (e', p))) h = cc

    conclude_Run :
        (left i : ℕ) (next : Next) (a : Attempted w st cfg b)
        → Attempt i a.0 a.1 a.3
        → ((e : GoError) (s : Shared Client) → Run left (i + 1) (next [] e s))
        → Run (suc left) i (stream_conclude w st cfg b next [] a)
    unfolding stream_conclude
    conclude_Run left i next (ys, over, s, log) (c, d) h =
        (1, (omega arith, (c, inr (i, (omega arith, d)))))
    conclude_Run left i next ([], undecided v, s, log) (p, (f, c)) h =
        follow-Run left i next v s log f c h
    conclude_Run left i next (y ∷ ys, undecided v, s, log) (p, fc) h = cc

    rounds_Run :
        (left i limit : ℕ) (last : Option GoError) (s : Shared Client)
        → Run left i (stream_rounds w st cfg b left i limit [] last s)
    unfolding stream_rounds
    rounds_Run zero i limit last s = give_up_Run zero i zero last s [] (omega arith) refl
    rounds_Run (suc left) i limit last s =
        conclude_Run left i
          (λ now e s'. stream_rounds w st cfg b left (i + 1) limit now (some e) s')
          (stream_attempt w st cfg b i limit [] last s) (stream_attempt-Attempt i limit last s)
          (λ e s'. rounds_Run left (i + 1) limit (some e) s')

-- Stream calls the provider at most as often as the retry cap says, in the order of the attempts.
-- The consumer gets one error and no event, or all that it gets comes from the stream of the last
-- call: each item in order, until the stream ends, an error has been passed on, or the consumer
-- asks for no more. So after a first event there is no other call.
pub stream-Yielded :
    (w : World) (st : Streams w) (cfg : PoolConfig) (s : Shared w.Client)
    → let out = stream w st cfg s in
      (k : ℕ) × ((k ≤ max_retries cfg (healthy_count s.pool.profiles))
        × ((call_numbers out.2 ≡ range_from 0 k) × Yielded w st k out.0))
unfolding stream
stream-Yielded w st cfg s =
    let limit : ℕ = max_retries cfg (healthy_count s.pool.profiles) in
    let (k, (bound, (made, y))) =
      rounds_Run w st cfg (record { start = s.now; budget = cfg.retry_budget }) limit 0 limit none
        s in
    (k, (bound, (made, subst (λ n. Yielded w st n (stream w st cfg s).0) (omega arith) y)))
