-- ===== src/Pooled/Streaming/Served.antt =====
-- pool.go: the loop of PooledClient.Stream over one provider's stream.
use rho_llm.Base.{
  ℕ, ◌≡◌, refl, inl, inr, true, false, Option, none, some, List, [], ◌∷◌, ◌++◌, arith, ℤ,
  if◌then◌else◌, Text, Bool-cases, is_empty, ◌&&◌,
}
use rho_llm.Errors.{GoError}
use rho_llm.Errors.Status.{is_auth_error}
use rho_llm.AuthPool.{healthy_count}
use rho_llm.Retry.{RetryBudget}
use rho_llm.Pooled.{PoolConfig, Shared, World, Effect, fail, RetryEvent, backing_off}
use rho_llm.Pooled.Rotate.{rotate_client, mark_failed_in, backoff_after_failed_rotation}
use rho_llm.Pooled.Complete.{
  Verdict, returns, fails, again, breaks, on_error, judge_error, retry, after_rotation, back_off,
  after_sleep, event,
}
use rho_llm.Pooled.Streaming.{
  Streams, Ending, finished, stopped, broken, unstarted, retry_worthy, Yield, deliver,
}

-- Not a return of a response.
abbrev pub Failing : {R : Type 0} → Verdict R → Type 0
Failing (returns r) = ⊥
Failing (fails e) = Unit
Failing (again e) = Unit
Failing (breaks e) = Unit

module _ (w : World) (cfg : PoolConfig) (b : RetryBudget) (prefix : Text) where
  open w use {Client, Response}

  Failing-after_sleep :
      (err : GoError) (d : ℤ) (e : RetryEvent) (r : Option GoError × Shared Client)
      → Failing (after_sleep w cfg b prefix err d e r).0
  unfolding after_sleep
  Failing-after_sleep err d e (some c, s) = tt
  Failing-after_sleep err d e (none, s) = tt

  Failing-back_off :
      (i : ℕ) (rot err : GoError) (s : Shared Client)
      → Failing (back_off w cfg b prefix i rot err s).0
  unfolding back_off
  Failing-back_off i rot err s =
      let d : ℤ = backoff_after_failed_rotation w i (healthy_count s.pool.profiles) rot err in
      ground (arith, Failing-after_sleep err d (event backing_off i (some rot) d) (w.sleep i d s))

  Failing-after_rotation :
      (i limit : ℕ) (err : GoError) (r : Option GoError × Shared Client × List (Effect Client))
      → Failing (after_rotation w cfg b prefix i limit err r).0
  unfolding after_rotation
  Failing-after_rotation i limit err (some rot, s, log) =
      ground (arith, Failing-back_off i rot err s)
  Failing-after_rotation i limit err (none, s, log) = ground arith

  pub Failing-on_error :
      (i limit token : ℕ) (used : Text) (err : GoError) (s : Shared Client)
      → Failing (on_error w cfg b prefix i limit token used err s).0
  unfolding on_error judge_error retry
  Failing-on_error i limit token used err s = ground (
    arith,
    Failing-after_rotation i limit err (
        rotate_client w i used (
          mark_failed_in w cfg used err
            (if is_auth_error err then s else record s { breaker = fail s.breaker token s.now }))),
  )

module _ (w : World) (st : Streams w) where
  open w use {Client, Response}
  open st use {open_stream, takes}

  -- What a consumer that already has `given` is to get of a stream's items: each item in order, up
  -- to and with the first error, or the first item after which it asks for no more.
  pub data Served : List (Yield w st) → List (Yield w st) → List (Yield w st) → Type 0 where
    served_all : (given : List (Yield w st)) → Served given [] []
    served_more :
        (given : List (Yield w st)) (ev : st.Event) (ys items : List (Yield w st))
        → takes (given ++ ((ev, none) ∷ [])) ≡ true
        → Served (given ++ ((ev, none) ∷ [])) ys items
        → Served given ((ev, none) ∷ ys) ((ev, none) ∷ items)
    served_enough :
        (given : List (Yield w st)) (ev : st.Event) (items : List (Yield w st))
        → takes (given ++ ((ev, none) ∷ [])) ≡ false
        → Served given ((ev, none) ∷ []) ((ev, none) ∷ items)
    served_error :
        (given : List (Yield w st)) (ev : st.Event) (e : GoError) (items : List (Yield w st))
        → Served given ((ev, some e) ∷ []) ((ev, some e) ∷ items)

  -- The loop serves the stream, or it has yielded nothing and its first item is an error.
  abbrev pub Delivered : List (Yield w st) → List (Yield w st) → Ending → List (Yield w st) → Type 0
  Delivered given ys (unstarted e) items = ys ≡ []
  Delivered given ys finished items = Served given ys items
  Delivered given ys stopped items = Served given ys items
  Delivered given ys (broken e) items = Served given ys items

  abbrev Begun : Ending → Type 0
  Begun (unstarted e) = ⊥
  Begun finished = Unit
  Begun stopped = Unit
  Begun (broken e) = Unit

  deliver_later :
      (given items : List (Yield w st))
      → let d = deliver w st false given items in Served given d.0 items × Begun d.1
  unfolding deliver
  deliver_later given [] = (served_all given, tt)
  deliver_later given ((ev, none) ∷ items) =
      elim (Bool-cases (takes (given ++ ((ev, none) ∷ [])))) [
        | inl e ↦
            let rest = deliver_later (given ++ ((ev, none) ∷ [])) items in
            rw e (served_more given ev _ items e rest.0, rest.1)
        | inr e ↦ rw e (served_enough given ev items e, tt)
      ]
  deliver_later given ((ev, some err) ∷ items) = (served_error given ev err items, tt)

  Delivered-Begun :
      (given ys items : List (Yield w st)) (e : Ending)
      → Served given ys items
      → Begun e
      → Delivered given ys e items
  Delivered-Begun given ys items finished s h = s
  Delivered-Begun given ys items stopped s h = s
  Delivered-Begun given ys items (broken e) s h = s
  Delivered-Begun given ys items (unstarted e) s h = elim h [ ]

  pub deliver_first :
      (given items : List (Yield w st))
      → let d = deliver w st true given items in Delivered given d.0 d.1 items
  unfolding deliver
  deliver_first given [] = served_all given
  deliver_first given ((ev, none) ∷ items) =
      elim (Bool-cases (takes (given ++ ((ev, none) ∷ [])))) [
        | inl e ↦
            let rest = deliver_later (given ++ ((ev, none) ∷ [])) items in
            rw e (Delivered-Begun given _ _ _ (served_more given ev _ items e rest.0) rest.1)
        | inr e ↦ rw e (served_enough given ev items e)
      ]
  deliver_first given ((ev, some err) ∷ items) =
      elim (Bool-cases (is_empty (st.event_type ev) && retry_worthy err)) [
        | inl e ↦ rw e refl
        | inr e ↦ rw e (served_error given ev err items)
      ]
