-- ===== src/Batch/Waiting.antt =====
-- batch.go: when WaitForBatch returns, and what.
use rho_llm.Base.{
  ℕ, zero, suc, ◌+◌, ◌≡◌, refl, subst, ◌⊎◌, inl, inr, true, false, Option, none, some, arith,
  if◌then◌else◌, Bool-cases, Option-cases,
}
use rho_llm.Errors.{GoError}
use rho_llm.Batch.{BatchHandle, terminal, Waited, wait_for_batch, unless_done}

module _ {State : Type 0} (get : ℕ → BatchHandle State → BatchHandle State ⊎ GoError)
    (interrupted : ℕ → Option GoError) where
  -- The rounds from `i` on, with the handle at hand and the last one observed, and their result.
  pub data Polled
      : ℕ → BatchHandle State → Option (BatchHandle State) → Waited get interrupted → Type 0 where
    finished :
        {i : ℕ} {handle h : BatchHandle State} {last : Option (BatchHandle State)}
        → get i handle ≡ inl h
        → terminal h.status ≡ true
        → Polled i handle last (some h, none)
    broke :
        {i : ℕ} {handle : BatchHandle State} {last : Option (BatchHandle State)} {e : GoError}
        → get i handle ≡ inr e
        → Polled i handle last (last, some e)
    cancelled :
        {i : ℕ} {handle h : BatchHandle State} {last : Option (BatchHandle State)} {e : GoError}
        → get i handle ≡ inl h
        → terminal h.status ≡ false
        → interrupted i ≡ some e
        → Polled i handle last (some h, some e)
    polls :
        {i : ℕ} {handle h : BatchHandle State} {last : Option (BatchHandle State)}
        {out : Waited get interrupted}
        → get i handle ≡ inl h
        → terminal h.status ≡ false
        → interrupted i ≡ none
        → Polled (i + 1) h (some h) out
        → Polled i handle last out

  -- Whatever the handle, round `n` ends the loop.
  abbrev pub Ends : ℕ → Type 0
  Ends n =
      (handle h : BatchHandle State)
      → get n handle ≡ inl h
      → interrupted n ≡ none
      → terminal h.status ≡ true

  abbrev pub Returns : ℕ → ℕ → BatchHandle State → Option (BatchHandle State) → Type 0
  Returns fuel i handle last =
      (out : Waited get interrupted) × (wait_for_batch get interrupted fuel i handle last
        ≡ some out)
      × Polled i handle last out

  abbrev Onward : ℕ → ℕ → BatchHandle State → Type 0
  Onward fuel i handle =
      (h : BatchHandle State)
      → get i handle ≡ inl h
      → terminal h.status ≡ false
      → interrupted i ≡ none
      → Returns fuel (i + 1) h (some h)

  round-Returns :
      (fuel i : ℕ) (handle : BatchHandle State) (last : Option (BatchHandle State))
      → Onward fuel i handle
      → Returns (suc fuel) i handle last
  unfolding wait_for_batch
  round-Returns fuel i handle last onward = asked (get i handle) refl
    where
      later : BatchHandle State → Option (Waited get interrupted)
      later h = wait_for_batch get interrupted fuel (i + 1) h (some h)

      result : BatchHandle State ⊎ GoError → Option (Waited get interrupted)
      result o = elim o [
        | inr e ↦ some (last, some e)
        | inl h ↦
            if terminal h.status
            then some (some h, none)
            else unless_done get interrupted (interrupted i) h (later h)
      ]

      asked :
          (o : BatchHandle State ⊎ GoError)
          → get i handle ≡ o
          → (out : Waited get interrupted) × (result o ≡ some out) × Polled i handle last out
      asked (inr e) p = ((last, some e), refl, broke p)
      asked (inl h) p = elim (Bool-cases (terminal h.status)) [
        | inl t ↦ ((some h, none), rw t refl, finished p t)
        | inr t ↦ elim (Option-cases (interrupted i)) [
          | inr (e, q) ↦ ((some h, some e), rw (t, q) refl, cancelled p t q)
          | inl q ↦ let (out, r, polled) = onward h p t q in (out, rw (t, q) r, polls p t q polled)
        ]
      ]

  wait_for_batch-Returns :
      (k i : ℕ) (handle : BatchHandle State) (last : Option (BatchHandle State))
      → Ends (i + k)
      → Returns (suc k) i handle last
  wait_for_batch-Returns zero i handle last ends =
      round-Returns zero i handle last (λ h p t q. absurd (done h p t q))
    where
      done :
          (h : BatchHandle State)
          → get i handle ≡ inl h
          → terminal h.status ≡ false
          → interrupted i ≡ none
          → ⊥
      done h p t q =
          let last_round : Ends i = subst Ends (omega arith) ends in
          grind (arith, last_round handle h p q)
  wait_for_batch-Returns (suc k) i handle last ends =
      round-Returns (suc k) i handle last
        (λ h p t q. wait_for_batch-Returns k (i + 1) h (some h) (subst Ends (omega arith) ends))

-- If some round ends the loop whatever the handle, because the batch is terminal by then, Get fails
-- or the context is done, WaitForBatch returns within that many rounds. It returns the terminal
-- handle that Get gave; or Get's error, or the context's, with the last handle observed, none if
-- there was none.
pub wait_for_batch_lem :
    {State : Type 0} (get : ℕ → BatchHandle State → BatchHandle State ⊎ GoError)
    (interrupted : ℕ → Option GoError) (n : ℕ) (handle : BatchHandle State)
    → Ends get interrupted n
    → Returns get interrupted (suc n) 0 handle none
wait_for_batch_lem get interrupted n handle ends =
    wait_for_batch-Returns get interrupted n 0 handle none
      (subst (Ends get interrupted) (omega arith) ends)
