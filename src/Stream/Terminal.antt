-- ===== src/Stream/Terminal.antt =====
-- How the stream of an adapter's parseStream ends, for any kind of item: provider/anthropic,
-- provider/openaicompat and provider/gemini share it. `is_final` tells the items that end the turn
-- for whoever reads it, and `is_error` those that are an error.
use rho_llm.Base.{
  ◌≡◌, Bool, true, false, ◌&&◌, ◌||◌, not, Option, none, some, List, [], ◌∷◌, ◌++◌, arith, text, ℕ,
  decimal, append_nil,
}
use rho_llm.Errors.{GoError, plain}

-- The error of a tool call whose input is too long, in the words of every adapter.
abbrev pub too_long : ℕ → GoError
too_long limit = plain (text "tool input exceeded " ++ (decimal limit ++ text " bytes"))

-- What code yields, and the state it goes on from, if it does not return: the sequence of two.
module _ {A : Type 0} where
  abbrev pub behind : {S : Type 0} → List A → List A × Option S → List A × Option S
  behind xs r = (xs ++ r.0, r.1)

  abbrev pub bind : {S T : Type 0} → List A × Option S → (S → List A × Option T) → List A × Option T
  bind (emits, none) next = (emits, none)
  bind (emits, some s) next = behind emits (next s)

module _ {A : Type 0} (is_final is_error : A → Bool) where
  -- The last item is final or an error, and no item before it is final.
  unfoldable pub ends_once : List A → Bool
  ends_once [] = false
  ends_once (e ∷ []) = is_final e || is_error e
  ends_once (e ∷ f ∷ es) = not (is_final e) && ends_once (f ∷ es)

  unfoldable pub none_final : List A → Bool
  none_final [] = true
  none_final (e ∷ es) = not (is_final e) && none_final es

  pub ends_once-append :
      (xs ys : List A) → none_final xs ≡ true → ends_once ys ≡ true → ends_once (xs ++ ys) ≡ true
  unfolding ends_once none_final
  ends_once-append [] ys p q = q
  ends_once-append (x ∷ []) [] p q = ground arith
  ends_once-append (x ∷ []) (y ∷ ys) p q = ground arith
  ends_once-append (x ∷ x' ∷ xs) ys p q =
      ground (arith, ends_once-append (x' ∷ xs) ys (ground arith) q)

  pub none_final-append :
      (xs ys : List A) → none_final xs ≡ true → none_final ys ≡ true → none_final (xs ++ ys) ≡ true
  unfolding none_final
  none_final-append [] ys p q = q
  none_final-append (x ∷ xs) ys p q = ground (arith, none_final-append xs ys (ground arith) q)

  -- A round that leaves the loop yields the last item, and no other round does.
  unfoldable pub Rounded : {S : Type 0} → List A × Option S → Type 0
  Rounded (emits, none) = ends_once emits ≡ true
  Rounded (emits, some s) = none_final emits ≡ true

  -- Such a round behind yields that are not final is such a round.
  pub Rounded-behind :
      {S : Type 0} (xs : List A) (r : List A × Option S)
      → none_final xs ≡ true
      → Rounded r
      → Rounded (behind xs r)
  unfolding Rounded
  Rounded-behind xs (emits, none) p q = ends_once-append xs emits p q
  Rounded-behind xs (emits, some s) p q = none_final-append xs emits p q

  pub Rounded-bind :
      {S T : Type 0} (r : List A × Option S) (next : S → List A × Option T)
      → Rounded r
      → ((s : S) → Rounded (next s))
      → Rounded (bind r next)
  unfolding Rounded
  Rounded-bind (emits, none) next p h = p
  Rounded-bind (emits, some s) next p h = Rounded-behind emits (next s) p (h s)

  -- What a round yields with what follows from the state it leaves.
  pub Rounded-ends_once :
      {S : Type 0} (r : List A × Option S) (go_on : Option S → List A)
      → Rounded r
      → go_on none ≡ []
      → ((s : S) → ends_once (go_on (some s)) ≡ true)
      → ends_once (r.0 ++ go_on r.1) ≡ true
  unfolding Rounded
  Rounded-ends_once (emits, none) go_on p e h = rw (e, append_nil emits) p
  Rounded-ends_once (emits, some s) go_on p e h = ends_once-append emits (go_on (some s)) p (h s)
