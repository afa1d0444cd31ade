-- ===== src/Pooled/Streaming.antt =====
-- pool.go: PooledClient.Stream. A provider's stream is the finite list of what it would yield, and
-- the consumer's answers are a function of all that was yielded to it. The shared state is given
-- after each number of items taken from a stream.
pub mod Served
pub mod Delivery
use rho_llm.Base.{
  ℕ, zero, suc, ◌+◌, Text, text, is_empty, Bool, true, false, ◌&&◌, ◌||◌, Option, none, some, List,
  [], ◌∷◌, ◌++◌, if◌then◌else◌, pos,
}
use rho_llm.Errors.{GoError, sentinel, wrapped, client_closed}
use rho_llm.Errors.Status.{is_auth_error, is_retryable}
use rho_llm.Retry.{RetryBudget}
use rho_llm.AuthPool.{mark_success_by_name, healthy_count}
use rho_llm.Pooled.{
  PoolConfig, Shared, World, Effect, acquires, releases, calls, emits, RetryEventType, exhausted,
  gate, succeed, fail, rearm, max_retries,
}
use rho_llm.Pooled.Rotate.{mark_failed_in}
use rho_llm.Pooled.Complete.{
  Verdict, returns, fails, again, breaks, event, open_error, on_error, Result,
}

pub record Streams (w : World) : Type 1 where
  pub Event : Type 0
  pub no_event : Event
  pub event_type : Event → Text
  pub open_stream : ℕ → w.Client → Shared w.Client → List (Event × Option GoError)
  pub during : ℕ → w.Client → Shared w.Client → ℕ → Shared w.Client
  pub takes : List (Event × Option GoError) → Bool

-- How the loop over a provider's stream ends.
pub data Ending : Type 0 where
  finished stopped : Ending
  broken unstarted : GoError → Ending

-- What an attempt comes to: the stream is over, or there is an error that was not yielded yet.
pub data Outcome (Response : Type 0) : Type 0 where
  over : Outcome Response
  undecided : Verdict Response → Outcome Response

abbrev pub retry_worthy : GoError → Bool
retry_worthy err = is_retryable err || is_auth_error err

module _ (w : World) (st : Streams w) where
  open w use {Client, Response, ctx_err}
  open st use {Event, no_event, event_type, open_stream, during, takes}

  abbrev pub Yield : Type 0
  Yield = Event × Option GoError

  -- The loop over the stream: what is yielded, how it ends, and how many items were taken. `given`
  -- is what the consumer has, and `first` is firstEvent.
  unfoldable pub deliver : Bool → List Yield → List Yield → List Yield × Ending × ℕ
  deliver first given [] = ([], finished, 0)
  deliver first given ((ev, none) ∷ items) =
      let now = given ++ ((ev, none) ∷ []) in
      let rest = deliver false now items in
      if takes now then ((ev, none) ∷ rest.0, rest.1, suc rest.2) else ((ev, none) ∷ [], stopped, 1)
  deliver first given ((ev, some err) ∷ items) =
      if first && (is_empty (event_type ev) && retry_worthy err)
      then ([], unstarted err, 1)
      else ((ev, some err) ∷ [], broken err, 1)

  module _ (cfg : PoolConfig) (budget : RetryBudget) where
    -- A mid-stream error counts against the key and the breaker, unless the caller gave up.
    unfoldable pub on_broken : ℕ → ℕ → Text → GoError → Shared Client → Shared Client
    on_broken i token used err s =
        let released = record s { breaker = rearm s.breaker token } in
        let marked = mark_failed_in w cfg used err s in
        elim (ctx_err i) as (λ _. Shared Client) [
          | some cancelled ↦ released
          | none ↦
              if retry_worthy err
              then (if is_auth_error err
                  then marked
                  else record marked { breaker = fail marked.breaker token marked.now })
              else released
        ]

    unfoldable pub settle_stream :
        ℕ
        → ℕ
        → ℕ
        → Text
        → Ending
        → Shared Client
        → Outcome Response × Shared Client × List (Effect Client)
    settle_stream i limit token used finished s = (
      over,
      record s { pool = mark_success_by_name s.pool used; breaker = succeed s.breaker token },
      [],
    )
    settle_stream i limit token used stopped s = (
      over,
      record s { pool = mark_success_by_name s.pool used; breaker = succeed s.breaker token },
      [],
    )
    settle_stream i limit token used (broken err) s = (over, on_broken i token used err s, [])
    settle_stream i limit token used (unstarted err) s =
        let r = on_error w cfg budget (text "stream: ") i limit token used err s in
        (undecided r.0, r.1, r.2)

    abbrev pub Attempted : Type 0
    Attempted = List Yield × Outcome Response × Shared Client × List (Effect Client)

    unfoldable pub stream_client :
        ℕ → ℕ → ℕ → List Yield → Option Client → Shared Client → Attempted
    stream_client i limit token given none s =
        ([], undecided (fails (sentinel client_closed)), s, [])
    stream_client i limit token given (some c) s =
        let d = deliver true given (open_stream i c s) in
        let r = settle_stream i limit token s.active_name d.1 (during i c s d.2) in
        (d.0, r.0, r.1, acquires c ∷ calls i ∷ releases c ∷ r.2)

    unfoldable pub stream_attempt : ℕ → ℕ → List Yield → Option GoError → Shared Client → Attempted
    stream_attempt i limit given last s =
        let (breaker, admitted, token) = gate s.breaker s.now in
        let entered = record s { breaker = breaker } in
        let rest = stream_client i limit token given entered.rc entered in
        if admitted then rest else (
          [],
          undecided (fails (open_error (text "stream: ") last)),
          entered,
          emits (event RetryEventType.circuit_open i none (pos 0)) ∷ [],
        )

    abbrev pub Streamed : Type 0
    Streamed = List Yield × Shared Client × List (Effect Client)

    abbrev pub yield_error : GoError → Yield
    yield_error e = (no_event, some e)

    unfoldable pub stream_give_up : Option GoError → Shared Client → Streamed
    stream_give_up last s = (
      yield_error (
            wrapped (text "stream: all retries exhausted")
              (elim last [ some e ↦ e | none ↦ GoError.plain [] ]))
          ∷ [],
      s,
      emits (event exhausted 0 last (pos 0)) ∷ [],
    )

    -- What follows an attempt's error: yield it, go on, or leave the loop.
    unfoldable pub follow :
        (GoError → Shared Client → Streamed) → Verdict Response → Shared Client → Streamed
    follow next (returns resp) s = ([], s, [])
    follow next (fails e) s = (yield_error e ∷ [], s, [])
    follow next (breaks e) s = stream_give_up (some e) s
    follow next (again e) s = next e s

    unfoldable pub stream_conclude :
        (List Yield → GoError → Shared Client → Streamed) → List Yield → Attempted → Streamed
    stream_conclude next given (ys, over, s, log) = (ys, s, log)
    stream_conclude next given (ys, undecided v, s, log) =
        let out = follow (next (given ++ ys)) v s in (ys ++ out.0, out.1, log ++ out.2)

    unfoldable pub stream_rounds :
        ℕ → ℕ → ℕ → List Yield → Option GoError → Shared Client → Streamed
    stream_rounds zero i limit given last s = stream_give_up last s
    stream_rounds (suc left) i limit given last s =
        stream_conclude (λ now e s'. stream_rounds left (i + 1) limit now (some e) s') given
          (stream_attempt i limit given last s)

-- What one call of Stream yields, the shared state after it, and what else it does.
unfoldable pub stream :
    (w : World) (st : Streams w) (cfg : PoolConfig)
    → Shared w.Client
    → List (st.Event × Option GoError) × Shared w.Client × List (Effect w.Client)
stream w st cfg s =
    let limit = max_retries cfg (healthy_count s.pool.profiles) in
    stream_rounds w st cfg (record { start = s.now; budget = cfg.retry_budget }) limit 0 limit []
      none s
