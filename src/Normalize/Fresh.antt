-- ===== src/Normalize/Fresh.antt =====
-- normalize.go: uniqueToolID.
use rho_llm.Base.{
  ℕ, zero, suc, ◌+◌, ◌<◌, ◌≡◌, refl, ap, ◌⊎◌, inl, inr, Text, text_eq, text_eq_iff, is_empty,
  decimal_injective, member, Unique, Unique-length, All, true, false, List, [], ◌∷◌, ◌++◌, arith,
  length, Bool-cases,
}
use rho_llm.Normalize.{candidate, search_id, unique_tool_id, fresh_id}

tail_of : Text → Text
tail_of [] = []
tail_of (x ∷ xs) = xs

append_cancel : (xs : Text) {ys zs : Text} → xs ++ ys ≡ xs ++ zs → ys ≡ zs
unfolding tail_of
append_cancel [] e = e
append_cancel (x ∷ xs) e = append_cancel xs (ap tail_of e)

candidate_injective : (base : Text) (m n : ℕ) → candidate base m ≡ candidate base n → m ≡ n
unfolding candidate tail_of
candidate_injective base m n e = decimal_injective m n (ap tail_of (append_cancel base e))

-- `k` candidates from `n` on.
abbrev candidates : Text → ℕ → ℕ → List Text
candidates base n zero = []
candidates base n (suc k) = candidate base n ∷ candidates base (n + 1) k

not_later :
    (base : Text) (m n k : ℕ) → m < n → member (candidate base m) (candidates base n k) ≡ false
unfolding member
not_later base m n zero h = refl
not_later base m n (suc k) h = elim (Bool-cases (text_eq (candidate base m) (candidate base n))) [
  | inl p ↦ absurd (omega (arith, candidate_injective base m n ((text_eq_iff _ _).0 p)))
  | inr p ↦ rw p (not_later base m (n + 1) k (omega arith))
]

candidates-Unique : (base : Text) (n k : ℕ) → Unique (candidates base n k)
candidates-Unique base n zero = tt
candidates-Unique base n (suc k) =
    (not_later base n (n + 1) k (omega arith), candidates-Unique base (n + 1) k)

length-candidates : (base : Text) (n k : ℕ) → length (candidates base n k) ≡ k
length-candidates base n zero = refl
length-candidates base n (suc k) = ap suc (length-candidates base (n + 1) k)

-- The search returns a free candidate, or every candidate that it was to try is taken.
search_id-free :
    (k : ℕ) (base : Text) (used : List Text) (n : ℕ)
    → (member (search_id k base used n) used ≡ false)
      ⊎ All (λ u. member u used ≡ true) (candidates base n (suc k))
unfolding search_id
search_id-free zero base used n = elim (Bool-cases (member (candidate base n) used)) [
  | inl p ↦ inr (p, tt)
  | inr p ↦ inl p
]
search_id-free (suc k) base used n = elim (Bool-cases (member (candidate base n) used)) [
  | inr p ↦ inl (rw p p)
  | inl p ↦ elim (search_id-free k base used (n + 1)) [
    | inl free ↦ inl (rw p free)
    | inr taken ↦ inr (p, taken)
  ]
]

-- The search of uniqueToolID, given one candidate more than there are IDs in use, finds a free one:
-- so the ID that a tool call gets is never one that is in use.
pub fresh_id-free : (id : Text) (used : List Text) → member (fresh_id id used) used ≡ false
unfolding fresh_id unique_tool_id
fresh_id-free id used = elim (Bool-cases (member id used)) [
  | inr p ↦ rw p p
  | inl p ↦ rw p (elim (search_id-free (length used) id used 1) [
    | inl free ↦ free
    | inr taken ↦ absurd (
        omega (
          arith,
          length-candidates id 1 (suc (length used)),
          Unique-length (candidates id 1 (suc (length used))) used
              (candidates-Unique id 1 (suc (length used))) taken,
        ))
  ])
]

is_empty-candidate : (base : Text) (n : ℕ) → is_empty (candidate base n) ≡ false
unfolding candidate
is_empty-candidate [] n = refl
is_empty-candidate (x ∷ xs) n = refl

is_empty-search_id :
    (k : ℕ) (base : Text) (used : List Text) (n : ℕ) → is_empty (search_id k base used n) ≡ false
unfolding search_id
is_empty-search_id zero base used n = is_empty-candidate base n
is_empty-search_id (suc k) base used n =
    ground (arith, is_empty-search_id k base used (n + 1), is_empty-candidate base n)

pub is_empty-fresh_id :
    (id : Text) (used : List Text) → is_empty id ≡ false → is_empty (fresh_id id used) ≡ false
unfolding fresh_id unique_tool_id
is_empty-fresh_id id used e = ground (arith, is_empty-search_id (length used) id used 1)
