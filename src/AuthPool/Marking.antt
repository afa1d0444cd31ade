-- ===== src/AuthPool/Marking.antt =====
-- pool.go: MarkFailedByName and MarkSuccessByName, and how they decide what GetAvailable hands out.
use rho_llm.Base.{
  ℕ, zero, suc, ◌<◌, ◌≡◌, refl, sym, ap, subst, ◌∙◌, ◌≢◌, inl, inr, true, false, some, List, [],
  ◌∷◌, map, arith, get_elem?, set, All, Text, text_eq, text_eq_iff, length, length-set, Bool-cases,
  if◌then◌else◌,
}
use rho_llm.Errors.{GoError}
use rho_llm.Errors.Status.{is_auth_error}
use rho_llm.AuthPool.Profile.{AuthProfile, is_available, mark_used, mark_failed, mark_healthy}
use rho_llm.AuthPool.{
  AuthPool, update_named, punish, Redactor, Cooldowns, mark_failed_by_name, mark_success_by_name,
  get_available, got,
}
use rho_llm.AuthPool.Rotation.{get_available_lem}

abbrev pub names : List AuthProfile → List Text
names = map (λ p. p.name)

-- No name stands twice.
abbrev pub Distinct : List Text → Type 0
Distinct [] = Unit
Distinct (n ∷ ns) = All (λ m. m ≢ n) ns × Distinct ns

-- What the other goroutines, and this one, do to the pool.
pub data PoolCall : Type 0 where
  gets : PoolCall
  fails : Text → GoError → Cooldowns → PoolCall
  succeeds : Text → PoolCall

module _ (redact : Redactor) where
  unfoldable pub call : AuthPool → ℕ × PoolCall → AuthPool
  call pool (now, gets) = (get_available pool now).0
  call pool (now, fails name err cds) = mark_failed_by_name redact pool name err cds now
  call pool (now, succeeds name) = mark_success_by_name pool name

  abbrev pub calls : AuthPool → List (ℕ × PoolCall) → AuthPool
  calls pool [] = pool
  calls pool (c ∷ cs) = calls (call pool c) cs

names-update :
    (name : Text) (f : AuthProfile → AuthProfile) (ps : List AuthProfile)
    → ((p : AuthProfile) → (f p).name ≡ p.name)
    → names (update_named name f ps) ≡ names ps
unfolding update_named
names-update name f [] h = refl
names-update name f (p ∷ ps) h = ground (arith, h p, names-update name f ps h)

names-set :
    (ps : List AuthProfile) (i : ℕ) (q q' : AuthProfile)
    → get_elem? ps i ≡ some q
    → q'.name ≡ q.name
    → names (set ps i q') ≡ names ps
names-set [] i q q' e n = refl
names-set (p ∷ ps) zero q q' e n = ground arith
names-set (p ∷ ps) (suc i) q q' e n = ap (◌∷◌ p.name) (names-set ps i q q' e n)

-- Every profile of that name is permanently disabled.
abbrev pub Disabled : Text → List AuthProfile → Type 0
Disabled name = All (λ p. p.name ≡ name → p.is_healthy ≡ false)

Disabled-update :
    (name m : Text) (f : AuthProfile → AuthProfile) (ps : List AuthProfile)
    → ((p : AuthProfile)
        → p.name ≡ m
        → (p.name ≡ name → p.is_healthy ≡ false)
        → (f p).name ≡ name
        → (f p).is_healthy ≡ false)
    → Disabled name ps
    → Disabled name (update_named m f ps)
unfolding update_named
Disabled-update name m f [] h d = tt
Disabled-update name m f (p ∷ ps) h d = elim (Bool-cases (text_eq p.name m)) [
  | inl hit ↦ rw hit (h p ((text_eq_iff p.name m).0 hit) d.0, d.1)
  | inr miss ↦ rw miss (d.0, Disabled-update name m f ps h d.1)
]

Disabled-set :
    (name : Text) (ps : List AuthProfile) (i : ℕ) (q q' : AuthProfile)
    → get_elem? ps i ≡ some q
    → q'.name ≡ q.name
    → q'.is_healthy ≡ q.is_healthy
    → Disabled name ps
    → Disabled name (set ps i q')
Disabled-set name [] i q q' e n k d = tt
Disabled-set name (p ∷ ps) zero q q' e n k d =
    let same : p ≡ q = cc in
    (λ m. k ∙ ap (λ x. x.is_healthy) (sym same) ∙ d.0 (ap (λ x. x.name) same ∙ sym n ∙ m), d.1)
Disabled-set name (p ∷ ps) (suc i) q q' e n k d = (d.0, Disabled-set name ps i q q' e n k d.1)

-- What holds between two calls, once `name` is disabled.
pub record Barred (name : Text) (pool : AuthPool) : Type 0 where
  pub in_range : pool.current < length pool.profiles
  pub disabled : Disabled name pool.profiles

length-update :
    (name : Text) (f : AuthProfile → AuthProfile) (ps : List AuthProfile)
    → length (update_named name f ps) ≡ length ps
unfolding update_named
length-update name f [] = refl
length-update name f (p ∷ ps) = ground (arith, length-update name f ps)

range_of :
    (ps : List AuthProfile) (i : ℕ) {q : AuthProfile} → get_elem? ps i ≡ some q → i < length ps
range_of [] i e = cc
range_of (p ∷ ps) zero e = omega arith
range_of (p ∷ ps) (suc i) e = omega (arith, range_of ps i e)

get_available-Barred :
    (name : Text) (pool : AuthPool) (now : ℕ)
    → Barred name pool
    → Barred name (get_available pool now).0
unfolding mark_used
get_available-Barred name pool now b = elim (get_available_lem pool now b.in_range) [
  | inl (i, q, there, usable, e) ↦
      subst (λ r. Barred name r.0) (sym e)
        (record {
          in_range =
              omega (
                arith,
                range_of pool.profiles i there,
                length-set pool.profiles i (mark_used q now),
              );
          disabled =
              Disabled-set name pool.profiles i q (mark_used q now) there refl refl b.disabled;
        })
  | inr (blocked, e) ↦ subst (λ r. Barred name r.0) (sym e) b
]

Disabled-at :
    (name : Text) (ps : List AuthProfile) (i : ℕ) {q : AuthProfile}
    → Disabled name ps
    → get_elem? ps i ≡ some q
    → q.name ≡ name
    → q.is_healthy ≡ false
Disabled-at name [] i d e n = cc
Disabled-at name (p ∷ ps) zero {q} d e n =
    let same : p ≡ q = cc in ap (λ x. x.is_healthy) (sym same) ∙ d.0 (ap (λ x. x.name) same ∙ n)
Disabled-at name (p ∷ ps) (suc i) d e n = Disabled-at name ps i d.1 e n

Barred-not_got :
    (name : Text) (pool : AuthPool) (now : ℕ) {q : AuthProfile}
    → Barred name pool
    → (get_available pool now).1 ≡ got q
    → q.name ≢ name
unfolding mark_used is_available
Barred-not_got name pool now {q} b e same = elim (get_available_lem pool now b.in_range) [
  | inl (i, r, there, usable, eq) ↦
      let used : mark_used r now ≡ q = cc in
      absurd (
        ground
          (arith, Disabled-at name pool.profiles i b.disabled there (ap (λ x. x.name) used ∙ same)))
  | inr (blocked, eq) ↦ cc
]

others :
    (n name : Text) (ps : List AuthProfile)
    → All (λ m. m ≢ n) (names ps)
    → n ≡ name
    → Disabled name ps
others n name [] d e = tt
others n name (p ∷ ps) d e = (λ same. absurd (d.0 (same ∙ sym e)), others n name ps d.1 e)

-- A call that does not report a success of `name`.
abbrev pub Spares : Text → ℕ × PoolCall → Type 0
Spares name (now, succeeds m) = m ≢ name
Spares name (now, _) = Unit

module _ (redact : Redactor) where
  punish_keeps :
      (err : GoError) (cds : Cooldowns) (now : ℕ) (p : AuthProfile)
      → ((punish redact err cds now p).name ≡ p.name)
        × ((punish redact err cds now p).is_healthy
            ≡ (if is_auth_error err then false else p.is_healthy))
  unfolding punish mark_failed
  punish_keeps err cds now p = ground arith

  call-Barred :
      (name : Text) (pool : AuthPool) (c : ℕ × PoolCall)
      → Spares name c
      → Barred name pool
      → Barred name (call redact pool c)
  unfolding call mark_failed_by_name mark_success_by_name mark_healthy
  call-Barred name pool (now, gets) s b = get_available-Barred name pool now b
  call-Barred name pool (now, fails m err cds) s b =
      let f : AuthProfile → AuthProfile = punish redact err cds now in
      record {
        in_range = omega (arith, length-update m f pool.profiles, b.in_range);
        disabled =
            Disabled-update name m f pool.profiles
              (λ p here off named.
                let kept = punish_keeps err cds now p in
                ground (arith, kept, off (sym kept.0 ∙ named)))
              b.disabled;
      }
  call-Barred name pool (now, succeeds m) s b = record {
    in_range = omega (arith, length-update m mark_healthy pool.profiles, b.in_range);
    disabled =
        Disabled-update name m mark_healthy pool.profiles
          (λ p here off named. absurd (s (sym here ∙ named))) b.disabled;
  }

  calls-Barred :
      (name : Text) (pool : AuthPool) (cs : List (ℕ × PoolCall))
      → All (Spares name) cs
      → Barred name pool
      → Barred name (calls redact pool cs)
  calls-Barred name pool [] s b = b
  calls-Barred name pool (c ∷ cs) s b =
      calls-Barred name (call redact pool c) cs s.1 (call-Barred name pool c s.0 b)

  auth-Disabled :
      (name : Text) (err : GoError) (cds : Cooldowns) (now : ℕ) (ps : List AuthProfile)
      → Distinct (names ps)
      → is_auth_error err ≡ true
      → Disabled name (update_named name (punish redact err cds now) ps)
  unfolding update_named
  auth-Disabled name err cds now [] d a = tt
  auth-Disabled name err cds now (p ∷ ps) d a = elim (Bool-cases (text_eq p.name name)) [
    | inl hit ↦ rw hit (
      λ same. let kept = punish_keeps err cds now p in ground (arith, kept),
      others p.name name ps d.0 ((text_eq_iff p.name name).0 hit),
    )
    | inr miss ↦ rw miss (
      λ same. absurd (ground (arith, text_eq_iff p.name name)),
      auth-Disabled name err cds now ps d.1 a,
    )
  ]

  -- A key that an authentication error has disabled, in a pool whose names are distinct and whose
  -- current index is in range, is never handed out again, whatever other calls follow, unless one
  -- of them reports a success of it.
  pub auth_error_bars :
      (pool : AuthPool) (name : Text) (err : GoError) (cds : Cooldowns) (now later : ℕ)
      (cs : List (ℕ × PoolCall)) (q : AuthProfile)
      → pool.current < length pool.profiles
      → Distinct (names pool.profiles)
      → is_auth_error err ≡ true
      → All (Spares name) cs
      → (get_available (calls redact (mark_failed_by_name redact pool name err cds now) cs) later).1
        ≡ got q
      → q.name ≢ name
  unfolding mark_failed_by_name
  auth_error_bars pool name err cds now later cs q r d a s =
      Barred-not_got name (calls redact marked cs) later (
        calls-Barred name marked cs s (record {
          in_range = omega (arith, length-update name (punish redact err cds now) pool.profiles);
          disabled = auth-Disabled name err cds now pool.profiles d a;
        }))
    where
      marked : AuthPool
      marked = mark_failed_by_name redact pool name err cds now
