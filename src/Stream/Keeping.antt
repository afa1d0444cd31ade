-- ===== src/Stream/Keeping.antt =====
-- Invariants of an adapter's parseStream: what each of its rounds yields, and the state it leaves.
use rho_llm.Base.{Option, none, some, List, [], ◌++◌, ◌≡◌, All, All-append, append_nil}
use rho_llm.Stream.Terminal.{behind, bind}

module _ {A : Type 0} (P : A → Type 0) where
  -- Every yield satisfies P, and the state to go on from, if there is one, satisfies Inv.
  unfoldable pub Keeps : {S : Type 0} → (S → Type 0) → List A × Option S → Type 0
  Keeps Inv (emits, none) = All P emits
  Keeps Inv (emits, some s) = All P emits × Inv s

  pub Keeps-behind :
      {S : Type 0} (Inv : S → Type 0) (xs : List A) (r : List A × Option S)
      → All P xs
      → Keeps Inv r
      → Keeps Inv (behind xs r)
  unfolding Keeps
  Keeps-behind Inv xs (emits, none) h k = All-append P xs emits h k
  Keeps-behind Inv xs (emits, some s) h k = (All-append P xs emits h k.0, k.1)

  pub Keeps-bind :
      {S T : Type 0} (Inv : S → Type 0) (Post : T → Type 0) (r : List A × Option S)
      (next : S → List A × Option T)
      → Keeps Inv r
      → ((s : S) → Inv s → Keeps Post (next s))
      → Keeps Post (bind r next)
  unfolding Keeps
  Keeps-bind Inv Post (emits, none) next h k = h
  Keeps-bind Inv Post (emits, some s) next h k = Keeps-behind Post emits (next s) h.0 (k s h.1)

  -- What a round yields with what follows from the state it leaves.
  pub Keeps-goes_on :
      {S : Type 0} (Inv : S → Type 0) (r : List A × Option S) (go_on : Option S → List A)
      → Keeps Inv r
      → go_on none ≡ []
      → ((s : S) → Inv s → All P (go_on (some s)))
      → All P (r.0 ++ go_on r.1)
  unfolding Keeps
  Keeps-goes_on Inv (emits, none) go_on h e k = rw (e, append_nil emits) h
  Keeps-goes_on Inv (emits, some s) go_on h e k = All-append P emits (go_on (some s)) h.0 (k s h.1)
