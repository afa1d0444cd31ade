-- ===== src/Fallback/Chain.antt =====
-- fallback_modality.go: which deployments tryEach calls, and what it returns.
use rho_llm.Base.{
  ℕ, ◌+◌, Text, ◌≡◌, refl, ◌⊎◌, inl, inr, Bool, true, false, ◌||◌, not, List, [], ◌∷◌, ◌++◌,
  Bool-cases, if◌then◌else◌,
}
use rho_llm.Errors.{GoError, as_api}
use rho_llm.Fallback.{is_provider_failure, chain_error, named, try_from, try_each}

module _ {Client Result : Type 0} (deployment : Client → Text)
    (call : ℕ → Client → Result ⊎ GoError) (ctx_done : ℕ → Bool)
    (policy : Bool → GoError → Bool) where
  -- Call `i`, of this client, failed in a way that hands over to the next deployment.
  abbrev pub HandsOver : ℕ → Client → Type 0
  HandsOver i c =
      (e : GoError) × (call i c ≡ inr e)
      × (is_provider_failure (ctx_done i) e ≡ true)
      × (policy (ctx_done i) e ≡ true)

  -- From call `i`, of the first client of a chain, each deployment hands over to the next, until
  -- call `k`, of a client with the given deployments after it.
  pub data Reaches : ℕ → Client → List Client → ℕ → Client → List Client → Type 0 where
    here : {i : ℕ} {c : Client} {rest : List Client} → Reaches i c rest i c rest
    later :
        {i k : ℕ} {c next d : Client} {rest post : List Client}
        → HandsOver i c
        → Reaches (i + 1) next rest k d post
        → Reaches i c (next ∷ rest) k d post

  -- What is returned when the chain stops at call `k`.
  abbrev pub Returns : ℕ → Client → List Client → Result ⊎ GoError → Type 0
  Returns k d post (inl result) = call k d ≡ inl result
  Returns k d post (inr returned) =
      (e : GoError) × (call k d ≡ inr e)
      × (as_api returned ≡ as_api e)
      × ((post ≡ [])
          ⊎ (is_provider_failure (ctx_done k) e ≡ false)
          ⊎ (policy (ctx_done k) e ≡ false))

  abbrev pub Stops : ℕ → Client → List Client → Result ⊎ GoError → Type 0
  Stops i c rest out =
      (k : ℕ) × (d : Client) × (post : List Client) × Reaches i c rest k d post
      × Returns k d post out

  chain_error-as_api :
      (earlier : List GoError) (c : Client) (e : GoError)
      → as_api (
          chain_error deployment call ctx_done policy earlier
            (named deployment call ctx_done policy c e))
        ≡ as_api e
  unfolding chain_error named as_api
  chain_error-as_api [] c e = refl
  chain_error-as_api (x ∷ earlier) c e = refl

  try_from-Stops :
      (i : ℕ) (c : Client) (rest : List Client) (earlier : List GoError)
      → Stops i c rest (try_from deployment call ctx_done policy i c rest earlier)
  unfolding try_from
  try_from-Stops i c [] earlier = last (call i c) refl
    where
      last :
          (o : Result ⊎ GoError)
          → call i c ≡ o
          → Stops i c [] (elim o as (λ _. Result ⊎ GoError) [
            | inl result ↦ inl result
            | inr err ↦ inr (
                chain_error deployment call ctx_done policy earlier
                  (named deployment call ctx_done policy c err))
          ])
      last (inl result) p = (i, c, [], here, p)
      last (inr e) p = (i, c, [], here, (e, p, chain_error-as_api earlier c e, inl refl))
  try_from-Stops i c (next ∷ rest) earlier = tried (call i c) refl (λ e.
      try_from-Stops (i + 1) next rest (earlier ++ named deployment call ctx_done policy c e ∷ []))
    where
      onward : GoError → Result ⊎ GoError
      onward err =
          try_from deployment call ctx_done policy (i + 1) next rest
            (earlier ++ named deployment call ctx_done policy c err ∷ [])

      tried :
          (o : Result ⊎ GoError)
          → call i c ≡ o
          → ((e : GoError) → Stops (i + 1) next rest (onward e))
          → Stops i c (next ∷ rest) (elim o as (λ _. Result ⊎ GoError) [
            | inl result ↦ inl result
            | inr err ↦
                if not (is_provider_failure (ctx_done i) err) || not (policy (ctx_done i) err)
                then inr (
                    chain_error deployment call ctx_done policy earlier
                      (named deployment call ctx_done policy c err))
                else onward err
          ])
      tried (inl result) p h = (i, c, next ∷ rest, here, p)
      tried (inr e) p h = elim (Bool-cases (is_provider_failure (ctx_done i) e)) [
        | inr q ↦
            rw q (i, c, next ∷ rest, here, (e, p, chain_error-as_api earlier c e, inr (inl q)))
        | inl q ↦ elim (Bool-cases (policy (ctx_done i) e)) [
          | inr r ↦
              rw (q, r)
                (i, c, next ∷ rest, here, (e, p, chain_error-as_api earlier c e, inr (inr r)))
          | inl r ↦
              let (k, d, post, path, out) = h e in
              rw (q, r) (k, d, post, later (e, p, q, r) path, out)
        ]
      ]

-- tryEach calls the deployments in order, the primary first. It goes on to the next one exactly
-- while a call fails, the failure is the provider's, and the policy hands over. Then it returns
-- that call's result, or an error that carries the very APIError of that last call.
pub try_each_lem :
    {Client Result : Type 0} (deployment : Client → Text) (call : ℕ → Client → Result ⊎ GoError)
    (ctx_done : ℕ → Bool) (policy : Bool → GoError → Bool) (primary : Client)
    (fallbacks : List Client)
    → Stops deployment call ctx_done policy 0 primary fallbacks
        (try_each deployment call ctx_done policy primary fallbacks)
unfolding try_each
try_each_lem deployment call ctx_done policy primary fallbacks =
    try_from-Stops deployment call ctx_done policy 0 primary fallbacks []
