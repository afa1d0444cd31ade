-- ===== src/OpenAi/Pending/Deltas.antt =====
-- provider/openaicompat/openaicompat.go: what a tool delta does to pendingBytes and the indexes.
use rho_llm.Base.{
  ◌∙◌, ℕ, ◌+◌, ◌≡◌, ◌≢◌, ◌≤◌, refl, ap, sym, is_empty, true, false, Option, none, some, List, [],
  ◌∷◌, ◌++◌, arith, ℤ, Bool-cases, inl, inr, length, get_elem?, All, length-append, subst,
}
use rho_llm.Anthropic.{int_eq}
use rho_llm.Stream.Keeping.{Keeps, Keeps-behind, Keeps-bind}
use rho_llm.OpenAi.{
  ToolDelta, ChatEmit, StreamingCall, Assembling, exceeds, give_call, emit_at, emit_call, emit_all,
  new_call, start_call, point_index, start_at, find_indexed, find_call, filled, continue_at,
  continue_call, add_delta, add_deltas, reuses,
}
use rho_llm.OpenAi.Pending.{
  Fits, held, all_held, Pending, PendingOption, Filed, Kept, FoundKept, Pending-lt, Pending-append,
  Pending-new, Pending-set, Pending-set_ne, all_held-append, all_held-set, give_call-Fits,
  emit_all-Kept, start_call-Filed,
}

int_eq_trans : (i j k : ℤ) → int_eq i j ≡ true → int_eq i k ≡ true → int_eq j k ≡ true
int_eq_trans i j k p q = ground arith

pointed :
    (i j : ℤ) (k : ℕ) (a : Assembling)
    → int_eq i j ≡ true
    → (point_index i (length a.calls) a).by_index j ≡ some k
    → length a.calls ≡ k
pointed i j k a p e = ground arith

unpointed :
    (i j : ℤ) (k : ℕ) (a : Assembling)
    → int_eq i j ≡ false
    → (point_index i (length a.calls) a).by_index j ≡ some k
    → a.by_index j ≡ some k
unpointed i j k a p e = ground arith

is_new : (k : ℕ) (a : Assembling) → length a.calls ≡ k → Pending a.calls k → ⊥
is_new k a e h = omega (arith, Pending-lt a.calls k h)

-- A call that an index stands for has not been emitted, and no other index stands for it.
is_open :
    {limit : ℕ} (i : ℤ) (k : ℕ) (c : StreamingCall) (a : Assembling)
    → get_elem? a.calls k ≡ some c
    → a.by_index i ≡ some k
    → Filed limit a
    → c.emitted ≡ false
unfolding Pending
is_open i k c a q e h = ground (arith, h.indexed i k e)

other :
    {limit : ℕ} (i j : ℤ) (k k' : ℕ) (a : Assembling)
    → Filed limit a
    → a.by_index i ≡ some k
    → a.by_index j ≡ some k'
    → int_eq i j ≡ false
    → k ≢ k'
other i j k k' a h e f n same = let both = h.distinct i j k e (f ∙ ap some (sym same)) in cc

module _ (limit : ℕ) where
  -- The invariant, but for the call that one index stands for.
  record FiledBut (i : ℤ) (a : Assembling) : Type 0 where
    counted : all_held a.calls ≡ a.pending_bytes
    within : a.pending_bytes ≤ limit
    indexed : (j : ℤ) (k : ℕ) → int_eq i j ≡ false → a.by_index j ≡ some k → Pending a.calls k
    distinct : (i j : ℤ) (k : ℕ) → a.by_index i ≡ some k → a.by_index j ≡ some k → int_eq i j ≡ true

  start_at-FoundKept :
      (emits : List ChatEmit) (i : ℤ) (tc : ToolDelta) (a : Assembling)
      → All (Fits limit) emits
      → FiledBut i a
      → FoundKept limit (start_at emits i tc a)
  unfolding start_at PendingOption
  start_at-FoundKept emits i tc a fits h =
      let new = Pending-new a.calls tc in
      record {
        fits = fits;
        filed = record {
          counted = all_held-append a.calls tc ∙ h.counted;
          within = h.within;
          indexed = λ j k e. elim (Bool-cases (int_eq i j)) [
            | inl p ↦ subst (Pending (a.calls ++ (new_call tc ∷ []))) (pointed i j k a p e) new
            | inr p ↦
                Pending-append a.calls (new_call tc ∷ []) k
                  (h.indexed j k p (unpointed i j k a p e))
          ];
          distinct = λ j1 j2 k e f. elim (Bool-cases (int_eq i j1)) [
            | inl p ↦ elim (Bool-cases (int_eq i j2)) [
              | inl q ↦ int_eq_trans i j1 j2 p q
              | inr q ↦
                  absurd
                    (is_new k a (pointed i j1 k a p e) (h.indexed j2 k q (unpointed i j2 k a q f)))
            ]
            | inr p ↦ elim (Bool-cases (int_eq i j2)) [
              | inl q ↦
                  absurd
                    (is_new k a (pointed i j2 k a q f) (h.indexed j1 k p (unpointed i j1 k a p e)))
              | inr q ↦ h.distinct j1 j2 k (unpointed i j1 k a p e) (unpointed i j2 k a q f)
            ]
          ];
        };
        followed = new;
        idle = λ e. cc;
      }

  emit_at-FiledBut :
      (i : ℤ) (k : ℕ) (o : Option StreamingCall) (a : Assembling)
      → get_elem? a.calls k ≡ o
      → a.by_index i ≡ some k
      → Filed limit a
      → All (Fits limit) (emit_at o k a).0 × FiledBut i (emit_at o k a).1
  unfolding emit_at give_call held
  emit_at-FiledBut i k none a q e h = (
    tt,
    record {
      counted = h.counted;
      within = h.within;
      indexed = λ j k' n f. h.indexed j k' f;
      distinct = h.distinct;
    },
  )
  emit_at-FiledBut i k (some c) a q e h =
      let open_call = is_open i k c a q e h in
      let taken = all_held-set a.calls k c (record c { emitted = true }) q in
      (
        give_call-Fits limit c a (omega (arith, h.counted, taken)) h.within,
        rw open_call (record {
          counted = ground (arith, h.counted, taken, open_call);
          within = omega (arith, h.within);
          indexed = λ j k' n f.
              Pending-set_ne a.calls k k' (record c { emitted = true })
                (λ same. other i j k k' a h e f n same) (h.indexed j k' f);
          distinct = h.distinct;
        }),
      )

  emit_call-FiledBut :
      (i : ℤ) (k : ℕ) (a : Assembling)
      → a.by_index i ≡ some k
      → Filed limit a
      → All (Fits limit) (emit_call k a).0 × FiledBut i (emit_call k a).1
  unfolding emit_call
  emit_call-FiledBut i k a e h = emit_at-FiledBut i k (get_elem? a.calls k) a refl e h

  found-FoundKept :
      (i : ℤ) (k : ℕ) (a : Assembling)
      → a.by_index i ≡ some k
      → Filed limit a
      → FoundKept limit ([], a, some k)
  unfolding PendingOption
  found-FoundKept i k a e h = record {
    fits = tt;
    filed = h;
    followed = h.indexed i k e;
    idle = λ f. cc;
  }

  anew-FoundKept :
      (tc : ToolDelta) (emits : List ChatEmit) (a : Assembling)
      → All (Fits limit) emits
      → Kept limit a
      → FoundKept limit (emits, start_call tc a, some (length a.calls))
  unfolding PendingOption
  anew-FoundKept tc emits a fits h = record {
    fits = fits;
    filed = start_call-Filed limit tc a h.filed;
    followed = Pending-new a.calls tc;
    idle = λ f. cc;
  }

  find_indexed-FoundKept :
      (o : Option ℕ) (i : ℤ) (tc : ToolDelta) (a : Assembling)
      → a.by_index i ≡ o
      → Filed limit a
      → FoundKept limit (find_indexed o i tc a)
  unfolding find_indexed
  find_indexed-FoundKept none i tc a e h = start_at-FoundKept [] i tc a tt (record {
    counted = h.counted;
    within = h.within;
    indexed = λ j k n f. h.indexed j k f;
    distinct = h.distinct;
  })
  find_indexed-FoundKept (some k) i tc a e h = elim (Bool-cases (reuses tc (get_elem? a.calls k))) [
    | inl p ↦
        let given = emit_call-FiledBut i k a e h in
        rw p (start_at-FoundKept (emit_call k a).0 i tc (emit_call k a).1 given.0 given.1)
    | inr p ↦ rw p (found-FoundKept i k a e h)
  ]

  find_call-FoundKept :
      (index : Option ℤ) (tc : ToolDelta) (a : Assembling)
      → Kept limit a
      → FoundKept limit (find_call index tc a)
  unfolding find_call
  find_call-FoundKept (some i) tc a h = find_indexed-FoundKept (a.by_index i) i tc a refl h.filed
  find_call-FoundKept none tc a h = elim (Bool-cases (is_empty tc.id)) [
    | inl p ↦ rw p (record { fits = tt; filed = h.filed; followed = h.followed; idle = λ e. e })
    | inr p ↦
        let given = emit_all-Kept limit a h.filed in
        rw p (anew-FoundKept tc (emit_all a).0 (emit_all a).1 given.0 given.1)
  ]

  continue_at-Kept :
      (k : ℕ) (tc : ToolDelta) (o : Option StreamingCall) (a : Assembling)
      → get_elem? a.calls k ≡ o
      → Filed limit a
      → Pending a.calls k
      → a.pending_bytes + length tc.arguments ≤ limit
      → Kept limit (continue_at k tc o a)
  unfolding held Pending PendingOption
  continue_at-Kept k tc none a q h o w = cc
  continue_at-Kept k tc (some c) a q h o w =
      let open_call : c.emitted ≡ false = ground arith in
      let grown = all_held-set a.calls k c (filled tc c) q in
      let longer = length-append c.args tc.arguments in
      record {
        filed = record {
          counted = ground (arith, h.counted, grown, longer, open_call);
          within = w;
          indexed = λ i k' e. Pending-set a.calls k k' (filled tc c) open_call (h.indexed i k' e);
          distinct = h.distinct;
        };
        followed = Pending-set a.calls k k (filled tc c) open_call o;
      }

  continue_call-Keeps :
      (o : Option ℕ) (tc : ToolDelta) (a : Assembling)
      → Filed limit a
      → PendingOption a.calls o
      → (o ≡ none → a.latest ≡ none)
      → Keeps (Fits limit) (Kept limit) (continue_call limit o tc a)
  unfolding Keeps continue_call PendingOption
  continue_call-Keeps none tc a h f idle = (tt, record { filed = h; followed = rw (idle refl) tt })
  continue_call-Keeps (some k) tc a h f idle = elim (Bool-cases (exceeds limit tc a)) [
    | inl p ↦ rw p ((omega arith), tt)
    | inr p ↦
        rw p (tt, continue_at-Kept k tc (get_elem? a.calls k) a refl h f (ground (arith, h.within)))
  ]

  add_delta-Keeps :
      (tc : ToolDelta) (a : Assembling)
      → Kept limit a
      → Keeps (Fits limit) (Kept limit) (add_delta limit tc a)
  unfolding add_delta
  add_delta-Keeps tc a h =
      let found = find_call-FoundKept tc.index tc a h in
      let f = find_call tc.index tc a in
      Keeps-behind (Fits limit) (Kept limit) f.0 _ found.fits
        (continue_call-Keeps f.2 tc f.1 found.filed found.followed found.idle)

  pub add_deltas-Keeps :
      (tcs : List ToolDelta) (a : Assembling)
      → Kept limit a
      → Keeps (Fits limit) (Kept limit) (add_deltas limit tcs a)
  unfolding add_deltas Keeps
  add_deltas-Keeps [] a h = (tt, h)
  add_deltas-Keeps (tc ∷ tcs) a h =
      Keeps-bind (Fits limit) (Kept limit) (Kept limit) (add_delta limit tc a) _
        (add_delta-Keeps tc a h) (λ s k. add_deltas-Keeps tcs s k)
