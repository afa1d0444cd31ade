-- ===== src/Pooled/Calls.antt =====
-- pool.go: how many provider calls one Complete makes.
use rho_llm.Base.{
  ℕ, zero, suc, ◌+◌, ◌≤◌, ◌≡◌, refl, ap, ◌⊎◌, inl, inr, Bool, true, false, Option, none, some, List,
  [], ◌∷◌, ◌++◌, arith, ℤ, pos, if◌then◌else◌, Text,
}
use rho_llm.Errors.{GoError, sentinel, client_closed}
use rho_llm.Errors.Status.{is_auth_error}
use rho_llm.AuthPool.{AuthPool, Available, got, failed, healthy_count, get_available}
use rho_llm.Retry.{RetryBudget}
use rho_llm.Pooled.{
  PoolConfig, Shared, World, Effect, acquires, releases, closes, calls, emits, sleeps, max_retries,
  RetryEvent, RetryEventType, exhausted, rotating, backing_off, gate, fail,
}
use rho_llm.Pooled.Rotate.{
  rotate_client, install_result, install, with_profile, mark_failed_in,
  backoff_after_failed_rotation,
}
use rho_llm.Pooled.Complete.{
  Verdict, returns, fails, again, breaks, rounds, attempt, on_answer, on_error, judge_error, retry,
  after_rotation, back_off, complete, conclude, give_up, use_client, after_sleep, open_error, event,
  Answer, Result,
}

-- The provider calls in a log, by attempt.
abbrev pub call_numbers : {C : Type 0} → List (Effect C) → List ℕ
call_numbers [] = []
call_numbers (calls i ∷ log) = i ∷ call_numbers log
call_numbers (acquires c ∷ log) = call_numbers log
call_numbers (releases c ∷ log) = call_numbers log
call_numbers (closes c ∷ log) = call_numbers log
call_numbers (emits e ∷ log) = call_numbers log
call_numbers (sleeps d ∷ log) = call_numbers log

pub call_numbers-append :
    {C : Type 0} (xs ys : List (Effect C))
    → call_numbers (xs ++ ys) ≡ call_numbers xs ++ call_numbers ys
call_numbers-append [] ys = refl
call_numbers-append (calls i ∷ xs) ys = ap (◌∷◌ i) (call_numbers-append xs ys)
call_numbers-append (acquires c ∷ xs) ys = call_numbers-append xs ys
call_numbers-append (releases c ∷ xs) ys = call_numbers-append xs ys
call_numbers-append (closes c ∷ xs) ys = call_numbers-append xs ys
call_numbers-append (emits e ∷ xs) ys = call_numbers-append xs ys
call_numbers-append (sleeps d ∷ xs) ys = call_numbers-append xs ys

-- `k` numbers from `i` on.
abbrev pub range_from : ℕ → ℕ → List ℕ
range_from i zero = []
range_from i (suc k) = i ∷ range_from (i + 1) k

abbrev pub Quiet : {C : Type 0} → List (Effect C) → Type 0
Quiet log = call_numbers log ≡ []

pub Quiet-append : {C : Type 0} (xs ys : List (Effect C)) → Quiet xs → Quiet ys → Quiet (xs ++ ys)
Quiet-append xs ys p q = rw (call_numbers-append xs ys, p, q)

module _ (w : World) where
  open w use {Client, Response}

  install-Quiet :
      (fresh : Client) (name : Text) (s : Shared Client) → Quiet (install w fresh name s).2
  unfolding install
  install-Quiet fresh name s = ground arith

  install_result-Quiet :
      (name : Text) (r : (Client ⊎ GoError) × Shared Client) → Quiet (install_result w name r).2
  unfolding install_result
  install_result-Quiet name (inl fresh, s) = install-Quiet fresh name s
  install_result-Quiet name (inr e, s) = refl

  with_profile-Quiet :
      (i : ℕ) (r : AuthPool × Available) (s : Shared Client) → Quiet (with_profile w i r s).2
  unfolding with_profile
  with_profile-Quiet i (pool, failed e) s = refl
  with_profile-Quiet i (pool, got p) s =
      install_result-Quiet p.name (w.client_func i p (record s { pool = pool }))

  rotate_client-Quiet :
      (i : ℕ) (name : Text) (s : Shared Client) → Quiet (rotate_client w i name s).2
  unfolding rotate_client
  rotate_client-Quiet i name s = ground (arith, with_profile-Quiet i (get_available s.pool s.now) s)

  module _ (cfg : PoolConfig) (b : RetryBudget) (prefix : Text) where
    after_sleep-Quiet :
        (err : GoError) (d : ℤ) (e : RetryEvent) (r : Option GoError × Shared Client)
        → Quiet (after_sleep w cfg b prefix err d e r).2
    unfolding after_sleep
    after_sleep-Quiet err d e (some c, s) = refl
    after_sleep-Quiet err d e (none, s) = refl

    back_off-Quiet :
        (i : ℕ) (rot err : GoError) (s : Shared Client)
        → Quiet (back_off w cfg b prefix i rot err s).2
    unfolding back_off
    back_off-Quiet i rot err s =
        let d : ℤ = backoff_after_failed_rotation w i (healthy_count s.pool.profiles) rot err in
        ground (arith, after_sleep-Quiet err d (event backing_off i (some rot) d) (w.sleep i d s))

    after_rotation-Quiet :
        (i limit : ℕ) (err : GoError) (r : Option GoError × Shared Client × List (Effect Client))
        → Quiet r.2
        → Quiet (after_rotation w cfg b prefix i limit err r).2
    unfolding after_rotation
    after_rotation-Quiet i limit err (some rot, s, log) q = ground (
      arith,
      Quiet-append log (back_off w cfg b prefix i rot err s).2 q (back_off-Quiet i rot err s),
    )
    after_rotation-Quiet i limit err (none, s, log) q = ground (
      arith,
      Quiet-append log (emits (event exhausted i (some err) (pos 0)) ∷ []) q refl,
      Quiet-append log (emits (event rotating i (some err) (pos 0)) ∷ []) q refl,
    )

    retry-Quiet :
        (i limit token : ℕ) (used : Text) (err : GoError) (s : Shared Client)
        → Quiet (retry w cfg b prefix i limit token used err s).2
    unfolding retry
    retry-Quiet i limit token used err s =
        after_rotation-Quiet i limit err
          (rotate_client w i used (
            mark_failed_in w cfg used err
              (if is_auth_error err then s else record s { breaker = fail s.breaker token s.now })))
          (rotate_client-Quiet i used (
            mark_failed_in w cfg used err
              (if is_auth_error err then s else record s { breaker = fail s.breaker token s.now })))

    judge_error-Quiet :
        (i limit token : ℕ) (used : Text) (err : GoError) (s : Shared Client)
        → Quiet (judge_error w cfg b prefix i limit token used err s).2
    unfolding judge_error
    judge_error-Quiet i limit token used err s =
        ground (arith, retry-Quiet i limit token used err s)

    pub on_error-Quiet :
        (i limit token : ℕ) (used : Text) (err : GoError) (s : Shared Client)
        → Quiet (on_error w cfg b prefix i limit token used err s).2
    unfolding on_error
    on_error-Quiet i limit token used err s =
        ground (arith, judge_error-Quiet i limit token used err s)

    pub on_answer-Quiet :
        (i limit token : ℕ) (used : Text) (r : (Response ⊎ GoError) × Shared Client)
        → Quiet (on_answer w cfg b prefix i limit token used r).2
    unfolding on_answer
    on_answer-Quiet i limit token used (inl resp, s) = refl
    on_answer-Quiet i limit token used (inr err, s) = on_error-Quiet i limit token used err s

    -- One call, or none and the loop is over.
    abbrev pub OneCall : ℕ → Verdict Response → List (Effect Client) → Type 0
    OneCall i v log =
        (call_numbers log ≡ i ∷ []) ⊎ ((call_numbers log ≡ []) × ((e : GoError) × (v ≡ fails e)))

    use_client_calls :
        (i limit token : ℕ) (c : Option Client) (s : Shared Client)
        → OneCall i
            (use_client w cfg b prefix i limit token c s).0
            (use_client w cfg b prefix i limit token c s).2
    unfolding use_client
    use_client_calls i limit token none s = inr (refl, (sentinel client_closed, refl))
    use_client_calls i limit token (some c) s =
        inl (ap (◌∷◌ i) (on_answer-Quiet i limit token s.active_name (w.call i c s)))

    attempt_calls :
        (i limit : ℕ) (last : Option GoError) (s : Shared Client)
        → OneCall i
            (attempt w cfg b prefix i limit last s).0
            (attempt w cfg b prefix i limit last s).2
    unfolding attempt
    attempt_calls i limit last s = go (gate s.breaker s.now).1
      where
        entered : Shared Client
        entered = record s { breaker = (gate s.breaker s.now).0 }

        go :
            (admitted : Bool)
            → let r =
                (if admitted
                  then use_client w cfg b prefix i limit (gate s.breaker s.now).2 entered.rc entered
                  else (
                    fails (open_error prefix last),
                    entered,
                    emits (event RetryEventType.circuit_open i none (pos 0)) ∷ [],
                  )) in
              OneCall i r.0 r.2
        go true = use_client_calls i limit (gate s.breaker s.now).2 entered.rc entered
        go false = inr (refl, (open_error prefix last, refl))

    abbrev Counts : ℕ → ℕ → List (Effect Client) → Type 0
    Counts left i log = (k : ℕ) × (k ≤ left) × (call_numbers log ≡ range_from i k)

    conclude_calls :
        (left i : ℕ) (next : GoError → Shared Client → Answer w cfg b prefix)
        (r : Result w cfg b prefix)
        → OneCall i r.0 r.2
        → ((e : GoError) (s : Shared Client) → Counts left (i + 1) (next e s).2)
        → Counts (suc left) i (conclude w cfg b prefix next r).2
    unfolding conclude give_up
    conclude_calls left i next (returns resp, s, log) (inl c) h = (1, omega arith, c)
    conclude_calls left i next (returns resp, s, log) (inr (c, (e, p))) h = cc
    conclude_calls left i next (fails e, s, log) (inl c) h = (1, omega arith, c)
    conclude_calls left i next (fails e, s, log) (inr (c, p)) h = (0, omega arith, c)
    conclude_calls left i next (breaks e, s, log) (inl c) h = (
      1,
      omega arith,
      rw (call_numbers-append log (emits (event exhausted 0 (some e) (pos 0)) ∷ []), c),
    )
    conclude_calls left i next (breaks e, s, log) (inr (c, (e', p))) h = cc
    conclude_calls left i next (again e, s, log) (inl c) h =
        let (k, bound, more) = h e s in
        (suc k, omega arith, rw (call_numbers-append log (next e s).2, c, more))
    conclude_calls left i next (again e, s, log) (inr (c, (e', p))) h = cc

    rounds_calls :
        (left i limit : ℕ) (last : Option GoError) (s : Shared Client)
        → Counts left i (rounds w cfg b prefix left i limit last s).2
    unfolding rounds give_up
    rounds_calls zero i limit last s = (0, omega arith, refl)
    rounds_calls (suc left) i limit last s =
        conclude_calls left i (λ e s'. rounds w cfg b prefix left (i + 1) limit (some e) s')
          (attempt w cfg b prefix i limit last s) (attempt_calls i limit last s)
          (λ e s'. rounds_calls left (i + 1) limit (some e) s')

-- Complete calls the provider at most as often as the retry cap says, and in the order of the
-- attempts: 0, 1, 2 and so on, none left out or repeated.
pub complete_calls :
    (w : World) (cfg : PoolConfig) (s : Shared w.Client)
    → (k : ℕ) × (k ≤ max_retries cfg (healthy_count s.pool.profiles))
      × (call_numbers (complete w cfg s).2 ≡ range_from 0 k)
unfolding complete
complete_calls w cfg s =
    rounds_calls w cfg (record { start = s.now; budget = cfg.retry_budget }) []
      (max_retries cfg (healthy_count s.pool.profiles)) 0
      (max_retries cfg (healthy_count s.pool.profiles)) none s
