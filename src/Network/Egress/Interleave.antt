-- ===== src/Network/Egress/Interleave.antt =====
-- egress.go: interleave.
use rho_llm.Base.{
  ◌≡◌, refl, Bool, true, false, not, List, [], ◌∷◌, All, arith, Bool-cases, inl, inr,
}
use rho_llm.Network.{Addr}
use rho_llm.Network.Egress.{is_v4, same_bool, family, alternate, interleave}

Only : Bool → List Addr → Type 0
Only b addrs = All (λ a. same_bool (is_v4 a) b ≡ true) addrs

family-Only : (b : Bool) (addrs : List Addr) → Only b (family b addrs)
unfolding Only
family-Only b [] = tt
family-Only b (a ∷ others) = elim (Bool-cases (same_bool (is_v4 a) b)) [
  | inl e ↦ rw e (e, family-Only b others)
  | inr e ↦ rw e (family-Only b others)
]

same_bool-not : (x b : Bool) → same_bool x (not b) ≡ not (same_bool x b)
same_bool-not true b = refl
same_bool-not false true = refl
same_bool-not false false = refl

family-same : (b : Bool) (addrs : List Addr) → Only b addrs → family b addrs ≡ addrs
unfolding Only
family-same b [] h = refl
family-same b (a ∷ others) h = rw (h.0, family-same b others h.1) refl

family-other : (b : Bool) (addrs : List Addr) → Only (not b) addrs → family b addrs ≡ []
unfolding Only
family-other b [] h = refl
family-other b (a ∷ others) h =
    ground (arith, same_bool-not (is_v4 a) b, h.0, family-other b others h.1)

family-other_not : (b : Bool) (addrs : List Addr) → Only b addrs → family (not b) addrs ≡ []
family-other_not true addrs h = family-other false addrs h
family-other_not false addrs h = family-other true addrs h

family-alternate_first :
    (b : Bool) (xs ys : List Addr) → Only b xs → Only (not b) ys → family b (alternate xs ys) ≡ xs
unfolding Only alternate
family-alternate_first b [] ys p q = family-other b ys q
family-alternate_first b (x ∷ xs) [] p q = family-same b (x ∷ xs) p
family-alternate_first b (x ∷ xs) (y ∷ ys) p q =
    ground (arith, same_bool-not (is_v4 y) b, p.0, q.0, family-alternate_first b xs ys p.1 q.1)

family-alternate_second :
    (b : Bool) (xs ys : List Addr)
    → Only b xs
    → Only (not b) ys
    → family (not b) (alternate xs ys) ≡ ys
unfolding Only alternate
family-alternate_second b [] ys p q = family-same (not b) ys q
family-alternate_second b (x ∷ xs) [] p q = ground (arith, family-other_not b (x ∷ xs) p)
family-alternate_second b (x ∷ xs) (y ∷ ys) p q =
    ground (arith, same_bool-not (is_v4 x) b, p.0, q.0, family-alternate_second b xs ys p.1 q.1)

-- Either family is the first address's or the other one.
by_family : (P : Bool → Type 0) (f : Bool) → P f → P (not f) → (b : Bool) → P b
by_family P true p q true = p
by_family P true p q false = q
by_family P false p q true = q
by_family P false p q false = p

-- Interleaving keeps the addresses of each family, with their order and their number, so it neither
-- drops nor repeats an address.
pub family-interleave :
    (addrs : List Addr) (b : Bool) → family b (interleave addrs) ≡ family b addrs
unfolding interleave
family-interleave [] b = refl
family-interleave (a ∷ others) b =
    let f = is_v4 a in
    let xs = family f (a ∷ others) in
    let ys = family (not f) (a ∷ others) in
    by_family (λ c. family c (alternate xs ys) ≡ family c (a ∷ others)) f
      (family-alternate_first f xs ys (family-Only f (a ∷ others))
        (family-Only (not f) (a ∷ others)))
      (family-alternate_second f xs ys (family-Only f (a ∷ others))
        (family-Only (not f) (a ∷ others)))
      b
