-- ===== src/Tests/Keys.antt =====
-- pool.go's AuthPool and errors.go: runs at concrete inputs.
use rho_llm.Base.{
  ℕ, ◌≡◌, ◌≢◌, refl, ap, zero, suc, Text, text, text_eq, true, false, some, List, [], ◌∷◌, arith,
  pos,
}
use rho_llm.Clock.{never, at}
use rho_llm.Errors.{GoError, ApiError, api, wrapped, as_api}
use rho_llm.Errors.Status.{is_auth_error, new_api_error_from_status_with_limit, new_auth_error}
use rho_llm.AuthPool.Profile.{mark_used, AuthProfile, is_available}
use rho_llm.AuthPool.{
  AuthPool, Cooldowns, update_named, punish, rotate, take_profile, available_at, got, get_available,
  mark_failed_by_name,
}
use rho_llm.AuthPool.Rotation.{HandsOut, get_available_lem}
use rho_llm.AuthPool.Marking.{names, Distinct, PoolCall, gets, fails, call, calls, auth_error_bars}

abbrev profile : Text → AuthProfile
profile name = record {
  name = name;
  api_key = text "k";
  base_url = [];
  is_healthy = true;
  last_used = never;
  last_error = [];
  cooldown = never;
}

abbrev cooling : Text → AuthProfile
cooling name = record (profile name) { cooldown = at 100 }

abbrev two_keys : AuthPool
two_keys = record {
  provider = text "p";
  profiles = cooling (text "a") ∷ profile (text "b") ∷ [];
  current = 0;
}

get_available_lem_example : HandsOut two_keys 5
get_available_lem_example = get_available_lem two_keys 5 (omega arith)

cooling_blocked : (i : ℕ) → available_at 5 (cooling (text "a") ∷ []) i ≡ false
unfolding is_available
cooling_blocked zero = refl
cooling_blocked (suc i) = refl

abbrev rejected : GoError
rejected = wrapped (text "call") (api (new_auth_error (text "p") (text "bad key") 401))

abbrev cooldowns : Cooldowns
cooldowns = record { rate_limit = pos 60; overload = pos 30; default = pos 10 }

abbrev first : Text → ℕ
first [] = 0
first (c ∷ cs) = c

keys-Distinct : Distinct (names two_keys.profiles)
keys-Distinct = ((λ e. ab e, tt), (tt, tt))
  where
    ab : text "b" ≡ text "a" → ⊥
    ab e = let n : ◌≡◌ {A = ℕ} 98 97 = ap first e in omega arith

rejected-auth : is_auth_error rejected ≡ true
unfolding is_auth_error new_auth_error
rejected-auth = refl

abbrev later_calls : List (ℕ × PoolCall)
later_calls = (6, gets) ∷ (7, fails (text "b") rejected cooldowns) ∷ []

abbrev no_redaction : Text → Text → Text → Text
no_redaction t key url = t

still_used :
    (get_available
      (calls no_redaction
        (mark_failed_by_name no_redaction two_keys (text "a") rejected cooldowns 5)
        ((6, gets) ∷ []))
      7).1
    ≡ got (record (profile (text "b")) { last_used = at 7 })
unfolding call get_available mark_failed_by_name update_named punish text_eq is_auth_error
    new_auth_error as_api is_available take_profile mark_used rotate
still_used = refl

auth_error_bars_example : (record (profile (text "b")) { last_used = at 7 }).name ≢ text "a"
auth_error_bars_example =
    auth_error_bars no_redaction two_keys (text "a") rejected cooldowns 5 7 ((6, gets) ∷ [])
      (record (profile (text "b")) { last_used = at 7 }) (omega arith) keys-Distinct rejected-auth
      (tt, tt) still_used

abbrev too_many : ApiError
too_many = new_api_error_from_status_with_limit (text "p") 429 (text "slow down") (pos 100)

too_many-as_api : as_api (wrapped (text "call") (api too_many)) ≡ some too_many
unfolding as_api
too_many-as_api = refl
