-- ===== src/AuthPool/Waiting.antt =====
-- pool.go: what GetAvailable says when no key is usable.
use rho_llm.Base.{
  ℕ, zero, suc, ◌≤◌, ◌<◌, ◌≡◌, refl, subst, ◌⊎◌, inl, inr, true, false, List, [], ◌∷◌, arith, All,
  sub_ℕ, text,
}
use rho_llm.Clock.{Stamp, never, at}
use rho_llm.Errors.{cooldown_error, suffixed, sentinel, no_available_profiles}
use rho_llm.AuthPool.Profile.{AuthProfile, is_available}
use rho_llm.AuthPool.{soonest, pick, healthy_count, unavailable_error, available_at}

abbrev AllBlocked : ℕ → List AuthProfile → Type 0
AllBlocked now = All (λ p. is_available p now ≡ false)

AllBlocked-of :
    (now : ℕ) (ps : List AuthProfile)
    → ((i : ℕ) → available_at now ps i ≡ false)
    → AllBlocked now ps
AllBlocked-of now [] h = tt
AllBlocked-of now (p ∷ ps) h = (h 0, AllBlocked-of now ps (λ i. h (suc i)))

Stamp-cases : (s : Stamp) → (s ≡ never) ⊎ ((t : ℕ) × (s ≡ at t))
Stamp-cases never = inl refl
Stamp-cases (at t) = inr (t, refl)

-- A stamp that is set, and not after `c`.
abbrev AtMost : Stamp → ℕ → Type 0
AtMost never c = ⊥
AtMost (at t) c = t ≤ c

pick-AtMost :
    (now : ℕ) (p : AuthProfile) (s : Stamp) (c : ℕ)
    → is_available p now ≡ false
    → AtMost s c
    → AtMost (pick p s) c
unfolding is_available
pick-AtMost now p s c b h = ground arith

soonest-AtMost :
    (now : ℕ) (ps : List AuthProfile) (s : Stamp) (c : ℕ)
    → AllBlocked now ps
    → AtMost s c
    → AtMost (soonest ps s) c
unfolding soonest
soonest-AtMost now [] s c b h = h
soonest-AtMost now (p ∷ ps) s c b h =
    soonest-AtMost now ps (pick p s) c b.1 (pick-AtMost now p s c b.0 h)

pick_own :
    (now : ℕ) (p : AuthProfile) (s : Stamp) (later : ℕ)
    → is_available p now ≡ false
    → is_available p later ≡ true
    → AtMost (pick p s) later
unfolding is_available
pick_own now p s later b h = ground arith

-- Whoever is usable later waits at least for the soonest cooldown.
soonest-bounds :
    (now later : ℕ) (ps : List AuthProfile) (s : Stamp) (i : ℕ)
    → AllBlocked now ps
    → available_at later ps i ≡ true
    → AtMost (soonest ps s) later
unfolding soonest
soonest-bounds now later [] s i b h = cc
soonest-bounds now later (p ∷ ps) s zero b h =
    soonest-AtMost now ps (pick p s) later b.1 (pick_own now p s later b.0 h)
soonest-bounds now later (p ∷ ps) s (suc i) b h = soonest-bounds now later ps (pick p s) i b.1 h

pick-from :
    (now t : ℕ) (p : AuthProfile) (s : Stamp)
    → is_available p now ≡ false
    → pick p s ≡ at t
    → (s ≡ at t) ⊎ ((is_available p t ≡ true) × (now < t))
unfolding is_available
pick-from now t p s b e = ground arith

soonest-from :
    (now t : ℕ) (ps : List AuthProfile) (s : Stamp)
    → AllBlocked now ps
    → soonest ps s ≡ at t
    → (s ≡ at t) ⊎ ((i : ℕ) × (available_at t ps i ≡ true) × (now < t))
unfolding soonest
soonest-from now t [] s b e = inl e
soonest-from now t (p ∷ ps) s b e = elim (soonest-from now t ps (pick p s) b.1 e) [
  | inl own ↦ elim (pick-from now t p s b.0 own) [
    | inl old ↦ inl old
    | inr (usable, later) ↦ inr (0, usable, later)
  ]
  | inr (i, usable, later) ↦ inr (suc i, usable, later)
]

pick_never :
    (now : ℕ) (p : AuthProfile) (s : Stamp)
    → is_available p now ≡ false
    → pick p s ≡ never
    → (s ≡ never) × (p.is_healthy ≡ false)
unfolding is_available
pick_never now p s b e = ground arith

soonest-never :
    (now : ℕ) (ps : List AuthProfile) (s : Stamp)
    → AllBlocked now ps
    → soonest ps s ≡ never
    → (s ≡ never) × (healthy_count ps ≡ 0)
unfolding soonest healthy_count
soonest-never now [] s b e = (e, refl)
soonest-never now (p ∷ ps) s b e =
    let (rest, none_left) = soonest-never now ps (pick p s) b.1 e in
    ground (arith, pick_never now p s b.0 rest)

abbrev pub AllDisabled : List AuthProfile → ℕ → Type 0
AllDisabled ps now =
    (healthy_count ps ≡ 0)
    × (unavailable_error ps now
        ≡ suffixed (sentinel no_available_profiles) (text ": all keys permanently disabled"))

abbrev pub WaitsUntil : List AuthProfile → ℕ → ℕ → Type 0
WaitsUntil ps now t =
    (now < t)
    × (unavailable_error ps now ≡ cooldown_error (sub_ℕ t now))
    × ((i : ℕ) × (available_at t ps i ≡ true))
    × ((later i : ℕ) → available_at later ps i ≡ true → t ≤ later)

waits_until :
    (ps : List AuthProfile) (now t : ℕ)
    → AllBlocked now ps
    → soonest ps never ≡ at t
    → WaitsUntil ps now t
unfolding unavailable_error
waits_until ps now t b e = elim (soonest-from now t ps never b e) [
  | inl none_before ↦ absurd (ground arith)
  | inr (i, usable, later) ↦ (
    later,
    rw (e, unavailable_error),
    (i, usable),
    λ other j free. subst (λ s. AtMost s other) e (soonest-bounds now other ps never j b free),
  )
]

-- When no key is usable, GetAvailable reports either that every key is permanently disabled, or how
-- long to wait: after that wait, and no earlier, some key is usable again.
pub unavailable_error_lem :
    (ps : List AuthProfile) (now : ℕ)
    → ((i : ℕ) → available_at now ps i ≡ false)
    → AllDisabled ps now ⊎ ((t : ℕ) × WaitsUntil ps now t)
unfolding unavailable_error
unavailable_error_lem ps now h =
    let b = AllBlocked-of now ps h in
    elim (Stamp-cases (soonest ps never)) [
      | inl e ↦ inl ((soonest-never now ps never b e).1, rw (e, unavailable_error))
      | inr (t, e) ↦ inr (t, waits_until ps now t b e)
    ]
