-- ===== src/AuthPool/Names.antt =====
-- pool.go: the profiles of a new pool.
use rho_llm.Base.{
  ℕ, suc, ◌+◌, ◌<◌, ◌≡◌, refl, ap, ◌≢◌, true, List, [], ◌∷◌, ◌++◌, arith, All, Text, text, decimal,
  decimal_injective, length,
}
use rho_llm.AuthPool.Profile.{is_available}
use rho_llm.AuthPool.{new_auth_pool, new_profiles, profile_name}
use rho_llm.AuthPool.Marking.{names, Distinct}

append_cancel : (p s t : Text) → p ++ s ≡ p ++ t → s ≡ t
append_cancel [] s t e = e
append_cancel (c ∷ p) s t e = append_cancel p s t (ap tail e)
  where
    tail : Text → Text
    tail [] = []
    tail (x ∷ xs) = xs

profile_name_injective :
    (provider : Text) (i j : ℕ) → profile_name provider i ≡ profile_name provider j → i ≡ j
unfolding profile_name
profile_name_injective provider i j e = omega (
  arith,
  decimal_injective (i + 1) (j + 1) (
      append_cancel (text "-") (decimal (i + 1)) (decimal (j + 1))
        (append_cancel provider (text "-" ++ decimal (i + 1)) (text "-" ++ decimal (j + 1)) e)),
)

later_names :
    (provider : Text) (i j : ℕ) (keys : List Text)
    → i < j
    → All (λ m. m ≢ profile_name provider i) (names (new_profiles provider j keys))
unfolding new_profiles
later_names provider i j [] h = tt
later_names provider i j (key ∷ keys) h = (
  λ e. absurd (omega (arith, profile_name_injective provider j i e)),
  later_names provider i (j + 1) keys (omega arith),
)

names-Distinct :
    (provider : Text) (i : ℕ) (keys : List Text) → Distinct (names (new_profiles provider i keys))
unfolding new_profiles
names-Distinct provider i [] = tt
names-Distinct provider i (key ∷ keys) =
    (later_names provider i (i + 1) keys (omega arith), names-Distinct provider (i + 1) keys)

new_available :
    (provider : Text) (i : ℕ) (keys : List Text) (now : ℕ)
    → All (λ p. is_available p now ≡ true) (new_profiles provider i keys)
unfolding new_profiles is_available
new_available provider i [] now = tt
new_available provider i (key ∷ keys) now = (refl, new_available provider (i + 1) keys now)

length-new :
    (provider : Text) (i : ℕ) (keys : List Text)
    → length (new_profiles provider i keys) ≡ length keys
unfolding new_profiles
length-new provider i [] = refl
length-new provider i (key ∷ keys) = ap suc (length-new provider (i + 1) keys)

-- A new pool has one profile for each key, under distinct names, each usable at any time.
pub new_auth_pool_lem :
    (provider : Text) (keys : List Text) (now : ℕ)
    → let pool = new_auth_pool provider keys in
      (length pool.profiles ≡ length keys)
      × Distinct (names pool.profiles)
      × All (λ p. is_available p now ≡ true) pool.profiles
unfolding new_auth_pool
new_auth_pool_lem provider keys now =
    (length-new provider 0 keys, names-Distinct provider 0 keys, new_available provider 0 keys now)
