-- ===== src/AuthPool.antt =====
-- pool.go, types.go: the pool of API keys. `redact` is redactProfileSecrets of config.go, which
-- scrubs a profile's secrets from an error's text; it parses URLs, and is a parameter here.
pub mod Profile
pub mod Rotation
pub mod Waiting
pub mod Marking
pub mod Names
use rho_llm.Base.{
  ℕ, zero, suc, ◌+◌, ◌-◌, ◌%◌, Text, text, text_eq, decimal, Bool, true, false, ◌&&◌, Option, none,
  some, List, [], ◌∷◌, ◌++◌, ◌==◌, ltb, if◌then◌else◌, ℤ, pos, sub_ℕ, length, get_elem?, set,
}
use rho_llm.Clock.{Stamp, never, at}
use rho_llm.Errors.{GoError, sentinel, cooldown_error, suffixed, no_available_profiles}
use rho_llm.Errors.Status.{is_auth_error, is_rate_limited, is_overloaded}
use rho_llm.Errors.Render.{error_text}
use Profile.{AuthProfile, is_available, mark_used, mark_failed, mark_healthy}

pub record AuthPool : Type 0 where
  pub provider : Text
  pub profiles : List AuthProfile
  pub current : ℕ

-- strings.Index(key, "|") splits a key from its base URL.
split_key : Text → Text × Text
split_key [] = ([], [])
split_key (c ∷ cs) =
    let (api, base) = split_key cs in if c == 124 then ([], cs) else (c ∷ api, base)

unfoldable pub profile_name : Text → ℕ → Text
profile_name provider i = provider ++ (text "-" ++ decimal (i + 1))

new_profiles : Text → ℕ → List Text → List AuthProfile
unfolding split_key profile_name
new_profiles provider i [] = []
new_profiles provider i (key ∷ keys) =
    record {
      name = profile_name provider i;
      api_key = (split_key key).0;
      base_url = (split_key key).1;
      is_healthy = true;
      last_used = never;
      last_error = [];
      cooldown = never;
    }
    ∷ new_profiles provider (i + 1) keys

unfoldable pub new_auth_pool : Text → List Text → AuthPool
unfolding new_profiles
new_auth_pool provider keys = record {
  provider = provider;
  profiles = new_profiles provider 0 keys;
  current = 0;
}

abbrev pub available_at : ℕ → List AuthProfile → ℕ → Bool
available_at now ps i = elim (get_elem? ps i) [ none ↦ false | some p ↦ is_available p now ]

-- The rotation of GetAvailable, on fuel: the index it stops at, or none when it is back at `start`.
unfoldable pub rotate : ℕ → ℕ → List AuthProfile → ℕ → ℕ → Option ℕ
rotate zero now ps start i = none
rotate (suc fuel) now ps start i =
    let next = (i + 1) % length ps in
    let rest = rotate fuel now ps start next in
    if available_at now ps next then some next else if next == start then none else rest

-- The profile's Cooldown is before the soonest one so far, or there is none so far.
abbrev pub sooner : Stamp → Stamp → Bool
sooner c never = true
sooner never (at s) = true
sooner (at c) (at s) = ltb c s

-- One round of the loop; permanently disabled profiles are skipped.
abbrev pub pick : AuthProfile → Stamp → Stamp
pick p s = if p.is_healthy then (if sooner p.cooldown s then p.cooldown else s) else s

unfoldable pub soonest : List AuthProfile → Stamp → Stamp
soonest [] s = s
soonest (p ∷ ps) s = soonest ps (pick p s)

-- The error of GetAvailable when no profile is available.
unfoldable pub unavailable_error : List AuthProfile → ℕ → GoError
unavailable_error ps now = elim (soonest ps never) [
  | never ↦ suffixed (sentinel no_available_profiles) (text ": all keys permanently disabled")
  | at t ↦ cooldown_error (sub_ℕ t now)
]

pub data Available : Type 0 where
  got : AuthProfile → Available
  failed : GoError → Available

unfoldable pub take_profile : AuthPool → ℕ → ℕ → AuthPool × Available
take_profile pool now i = elim (get_elem? pool.profiles i) [
  | none ↦ (pool, failed (sentinel no_available_profiles))
  | some p ↦ (
    record pool { current = i; profiles = set pool.profiles i (mark_used p now) },
    got (mark_used p now),
  )
]

unfoldable pub get_available : AuthPool → ℕ → AuthPool × Available
get_available pool now =
    if length pool.profiles == 0
    then (pool, failed (sentinel no_available_profiles))
    else if available_at now pool.profiles pool.current
    then take_profile pool now pool.current
    else elim (rotate (length pool.profiles) now pool.profiles pool.current pool.current) [
      | some i ↦ take_profile pool now i
      | none ↦ (pool, failed (unavailable_error pool.profiles now))
    ]

-- Change the first profile of that name.
unfoldable pub update_named :
    Text → (AuthProfile → AuthProfile) → List AuthProfile → List AuthProfile
update_named name f [] = []
update_named name f (p ∷ ps) = if text_eq p.name name then f p ∷ ps else p ∷ update_named name f ps

-- The cooldowns for a rate limit, an overload, and any other failure.
pub record Cooldowns : Type 0 where
  pub rate_limit : ℤ
  pub overload : ℤ
  pub default : ℤ

abbrev pub Redactor : Type 0
Redactor = Text → Text → Text → Text

unfoldable pub punish : Redactor → GoError → Cooldowns → ℕ → AuthProfile → AuthProfile
punish redact err cds now p =
    if is_auth_error err
    then record p { is_healthy = false; last_error = redact (error_text err) p.api_key p.base_url }
    else mark_failed redact p (some err)
        (if is_rate_limited err
          then cds.rate_limit
          else if is_overloaded err
          then cds.overload
          else cds.default)
        now

unfoldable pub mark_failed_by_name : Redactor → AuthPool → Text → GoError → Cooldowns → ℕ → AuthPool
mark_failed_by_name redact pool name err cds now = record pool {
  profiles = update_named name (punish redact err cds now) pool.profiles;
}

unfoldable pub mark_success_by_name : AuthPool → Text → AuthPool
mark_success_by_name pool name = record pool {
  profiles = update_named name mark_healthy pool.profiles;
}

unfoldable pub healthy_count : List AuthProfile → ℕ
healthy_count [] = 0
healthy_count (p ∷ ps) = if p.is_healthy then suc (healthy_count ps) else healthy_count ps
