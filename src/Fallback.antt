-- ===== src/Fallback.antt =====
-- fallback_modality.go: a chain of deployments, tried in order.
-- The modality call, the deployments' names and the caller's context are parameters. The context
-- may be cancelled at any time: `ctx_done i` is what ctx.Err() says after call `i`.
pub mod Chain
pub mod Policy
use rho_llm.Base.{
  ℕ, ◌+◌, Text, text, Bool, true, false, ◌&&◌, ◌||◌, not, Option, none, some, List, [], ◌∷◌, ◌++◌,
  ◌⊎◌, inl, inr, map, leb, ◌==◌, if◌then◌else◌,
}
use rho_llm.Errors.{
  ApiError, GoError, sentinel, api, cooldown_error, url_error, op_error, wrapped, suffixed,
  canceled, deadline_exceeded, as_api, is_sentinel, as_net,
}
use rho_llm.Errors.Render.{error_text}

-- errors.As(err, &urlErr).
unfoldable pub as_url : GoError → Bool
as_url (url_error op e) = true
as_url (op_error op place e) = as_url e
as_url (wrapped t e) = as_url e
as_url (suffixed e t) = as_url e
as_url _ = false

-- isProviderFailure, and the FailoverPolicy values, given ctx.Err() != nil.
unfoldable pub is_provider_failure : Bool → GoError → Bool
is_provider_failure ctx_err err =
    if ctx_err || (is_sentinel canceled err || is_sentinel deadline_exceeded err)
    then false
    else elim (as_api err) [ some a ↦ true | none ↦ as_net err || as_url err ]

unfoldable pub transient_status : ℕ → Bool
transient_status code =
    if (code == 408) || ((code == 429) || leb 500 code)
    then true
    else if (code == 401) || ((code == 403) || (code == 404))
    then true
    else false

unfoldable pub failover_transient_only : Bool → GoError → Bool
failover_transient_only ctx_err err =
    let status : Bool = elim (as_api err) [
      | none ↦ true
      | some a ↦ transient_status a.status_code
    ] in
    if not (is_provider_failure ctx_err err) then false else status

abbrev join : Text → List Text → Text
join sep [] = []
join sep (t ∷ []) = t
join sep (t ∷ u ∷ ts) = t ++ (sep ++ join sep (u ∷ ts))

module _ {Client Result : Type 0} (deployment : Client → Text)
    (call : ℕ → Client → Result ⊎ GoError) (ctx_done : ℕ → Bool)
    (policy : Bool → GoError → Bool) where
  -- What is returned after the last call: its error, and the texts of the earlier ones.
  unfoldable pub chain_error : List GoError → GoError → GoError
  chain_error [] last = last
  chain_error (e ∷ earlier) last =
      suffixed (wrapped (text "llm: all fallback deployments failed; last") last)
        (text " (earlier: " ++ (join (text "; ") (map error_text (e ∷ earlier)) ++ text ")"))

  unfoldable pub named : Client → GoError → GoError
  named client err = wrapped (deployment client) err

  -- The loop of tryEach from call `i` on: the client to call, those after it, the errors so far.
  unfoldable pub try_from : ℕ → Client → List Client → List GoError → Result ⊎ GoError
  try_from i client [] earlier = elim (call i client) [
    | inl result ↦ inl result
    | inr err ↦ inr (chain_error earlier (named client err))
  ]
  try_from i client (next ∷ rest) earlier = elim (call i client) [
    | inl result ↦ inl result
    | inr err ↦
        let later = try_from (i + 1) next rest (earlier ++ named client err ∷ []) in
        if not (is_provider_failure (ctx_done i) err) || not (policy (ctx_done i) err)
        then inr (chain_error earlier (named client err))
        else later
  ]

  -- A chain has a primary deployment, and any number of fallbacks.
  unfoldable pub try_each : Client → List Client → Result ⊎ GoError
  try_each primary fallbacks = try_from 0 primary fallbacks []
