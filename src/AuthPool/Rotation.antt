-- ===== src/AuthPool/Rotation.antt =====
-- pool.go: which key GetAvailable finds.
use rho_llm.Base.{
  ℕ, zero, suc, ◌+◌, ◌-◌, ◌%◌, ◌≤◌, ◌<◌, ◌≡◌, refl, sym, subst, ◌⊎◌, inl, inr, true, false, none,
  some, List, [], ◌∷◌, arith, ◌==◌, ltb, if◌then◌else◌, Bool-cases, length, get_elem?, set,
  Option-cases, ℕ_discrete, dec_lt,
}
use rho_llm.AuthPool.Profile.{AuthProfile, is_available, mark_used}
use rho_llm.AuthPool.{
  AuthPool, rotate, take_profile, available_at, get_available, got, failed, unavailable_error,
}

-- The index k places after `start`, going round.
abbrev place : ℕ → ℕ → ℕ → ℕ
place n start k = if ltb (start + k) n then start + k else start + k - n

wrap_suc : (n x : ℕ) → x < n → (x + 1) % n ≡ (if x + 1 == n then 0 else x + 1)
wrap_suc n x h = grind arith

place-suc : (n start k : ℕ) → start < n → k < n → (place n start k + 1) % n ≡ place n start (suc k)
place-suc n start k h l = ground (arith, wrap_suc n (place n start k))

rotate-suc :
    (f now start i next : ℕ) (ps : List AuthProfile)
    → (i + 1) % length ps ≡ next
    → rotate (suc f) now ps start i ≡ none
    → (available_at now ps next ≡ false) × ((next ≡ start) ⊎ (rotate f now ps start next ≡ none))
unfolding rotate
rotate-suc f now start i next ps e h = ground arith

place_home : (n start k : ℕ) → start < n → k < n → place n start (suc k) ≡ start → suc k ≡ n
place_home n start k h l e = ground arith

-- A rotation that comes back empty has seen every place.
rotate-none :
    (f now start k j : ℕ) (ps : List AuthProfile)
    → start < length ps
    → f + k ≡ length ps
    → rotate f now ps start (place (length ps) start k) ≡ none
    → k < j
    → j ≤ length ps
    → available_at now ps (place (length ps) start j) ≡ false
rotate-none zero now start k j ps s fk e kj jn = absurd (omega arith)
rotate-none (suc f) now start k j ps s fk e kj jn =
    let n : ℕ = length ps in
    let (seen, more) =
      rotate-suc f now start (place n start k) (place n start (suc k)) ps
        (place-suc n start k s (omega arith)) e in
    elim (ℕ_discrete j (suc k)) [
      | yes q ↦ rw q seen
      | no q ↦ elim more [
        | inl home ↦ absurd (omega (arith, place_home n start k s (omega arith) home))
        | inr rest ↦ rotate-none f now start (suc k) j ps s (omega arith) rest (omega arith) jn
      ]
    ]

rotate-some :
    (f now start i j : ℕ) (ps : List AuthProfile)
    → rotate f now ps start i ≡ some j
    → available_at now ps j ≡ true
unfolding rotate
rotate-some zero now start i j ps e = cc
rotate-some (suc f) now start i j ps e =
    ground (arith, rotate-some f now start ((i + 1) % length ps) j ps)

available_beyond :
    (now i : ℕ) (ps : List AuthProfile) → length ps ≤ i → available_at now ps i ≡ false
available_beyond now i [] h = refl
available_beyond now zero (p ∷ ps) h = absurd (omega arith)
available_beyond now (suc i) (p ∷ ps) h = available_beyond now i ps (omega arith)

-- How far round from `start` an index lies.
abbrev lap : ℕ → ℕ → ℕ → ℕ
lap n start i = if ltb start i then i - start else i + n - start

lap_bounds : (n start i : ℕ) → start < n → i < n → (0 < lap n start i) × (lap n start i ≤ n)
lap_bounds n start i h k = ground arith

place-lap : (n start i : ℕ) → start < n → i < n → place n start (lap n start i) ≡ i
place-lap n start i h k = ground arith

place_zero : (n start : ℕ) → start < n → place n start 0 ≡ start
place_zero n start h = ground arith

all_seen :
    (now start i : ℕ) (ps : List AuthProfile)
    → start < length ps
    → rotate (length ps) now ps start start ≡ none
    → available_at now ps i ≡ false
all_seen now start i ps s e = elim (dec_lt i (length ps)) [
  | no far ↦ available_beyond now i ps (omega arith)
  | yes near ↦
      let (fwd, back) = lap_bounds (length ps) start i s near in
      subst (λ x. available_at now ps x ≡ false) (place-lap (length ps) start i s near)
        (rotate-none (length ps) now start 0 (lap (length ps) start i) ps s (omega arith)
          (subst (λ x. rotate (length ps) now ps start x ≡ none)
            (sym (place_zero (length ps) start s)) e)
          fwd back)
]

taken :
    (pool : AuthPool) (now i : ℕ)
    → available_at now pool.profiles i ≡ true
    → (q : AuthProfile) × (get_elem? pool.profiles i ≡ some q)
      × (is_available q now ≡ true)
      × (take_profile pool now i ≡ (
        record pool { current = i; profiles = set pool.profiles i (mark_used q now) },
        got (mark_used q now),
      ))
unfolding take_profile
taken pool now i h = elim (Option-cases (get_elem? pool.profiles i)) [
  | inl none_there ↦ absurd (ground arith)
  | inr (q, there) ↦ (q, there, ground arith, ground arith)
]

-- The two answers of GetAvailable: the profile that is handed out, marked as used, with the rotation
-- left at its index, or the error, with the pool as it was.
abbrev pub HandsOut : AuthPool → ℕ → Type 0
HandsOut pool now =
    ((i : ℕ) × (q : AuthProfile) × (get_elem? pool.profiles i ≡ some q)
      × (is_available q now ≡ true)
      × (get_available pool now ≡ (
        record pool { current = i; profiles = set pool.profiles i (mark_used q now) },
        got (mark_used q now),
      )))
    ⊎ (((i : ℕ) → available_at now pool.profiles i ≡ false)
        × (get_available pool now ≡ (pool, failed (unavailable_error pool.profiles now))))

-- What GetAvailable does, on a pool whose current index is in range: if any key is usable at that
-- moment, it picks one that is, makes it current and stamps its use, and changes nothing else; and
-- only if none is usable it fails, leaving the pool as it was.
pub get_available_lem :
    (pool : AuthPool) (now : ℕ) → pool.current < length pool.profiles → HandsOut pool now
unfolding get_available
get_available_lem pool now h = elim (Bool-cases (available_at now pool.profiles pool.current)) [
  | inl here ↦
      let (q, there, usable, eq) = taken pool now pool.current here in
      inl (pool.current, q, there, usable, ground arith)
  | inr gone ↦
      elim (Option-cases
        (rotate (length pool.profiles) now pool.profiles pool.current pool.current)) [
          | inl empty ↦ inr (λ i. all_seen now pool.current i pool.profiles h empty, ground arith)
          | inr (i, found) ↦
              let (q, there, usable, eq) =
                taken pool now i (rotate-some _ now _ _ i pool.profiles found) in
              inl (i, q, there, usable, ground arith)
        ]
]
