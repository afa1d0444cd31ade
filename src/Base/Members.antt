-- ===== src/Base/Members.antt =====
-- Sets of strings as lists: a Go map[string]bool whose entries are only ever set to true.
use Prim.Native.Nat.{suc, ◌≤◌}
use mathlib.Core.Path.{◌≡◌, refl}
use mathlib.Core.Bool.{Bool, true, false, ◌||◌}
use mathlib.Core.List.{List, [], ◌∷◌, ◌++◌}
use native.Mathlib.Omega.{arith}
use rho_llm.Base.Tests.{if◌then◌else◌}
use rho_llm.Base.Strings.{Text, text_eq, text_eq_iff, text_eq_refl}
use rho_llm.Base.Lists.{length, All}

unfoldable pub member : Text → List Text → Bool
member t [] = false
member t (s ∷ ss) = text_eq t s || member t ss

pub member-cons_self : (t : Text) (ss : List Text) → member t (t ∷ ss) ≡ true
unfolding member
member-cons_self t ss = ground (arith, text_eq_refl t)

pub member-cons : (t s : Text) (ss : List Text) → member t ss ≡ true → member t (s ∷ ss) ≡ true
unfolding member
member-cons t s ss h = ground arith

pub member-append :
    (t : Text) (xs ys : List Text) → member t (xs ++ ys) ≡ (member t xs || member t ys)
unfolding member
member-append t [] ys = refl
member-append t (x ∷ xs) ys = ground (arith, member-append t xs ys)

-- No string stands twice.
abbrev pub Unique : List Text → Type 0
Unique [] = Unit
Unique (t ∷ ts) = (member t ts ≡ false) × Unique ts

-- Without the first occurrence.
remove : Text → List Text → List Text
remove t [] = []
remove t (s ∷ ss) = if text_eq t s then ss else s ∷ remove t ss

length-remove :
    (t : Text) (ss : List Text) → member t ss ≡ true → suc (length (remove t ss)) ≡ length ss
unfolding remove member
length-remove t [] h = cc
length-remove t (s ∷ ss) h = ground (arith, length-remove t ss)

member-remove :
    (t u : Text) (ss : List Text)
    → text_eq u t ≡ false
    → member u ss ≡ true
    → member u (remove t ss) ≡ true
unfolding remove member
member-remove t u [] n h = h
member-remove t u (s ∷ ss) n h =
    ground (arith, member-remove t u ss, text_eq_iff t s, text_eq_iff u s, text_eq_iff u t)

All-remove :
    (t : Text) (ts ss : List Text)
    → member t ts ≡ false
    → All (λ u. member u ss ≡ true) ts
    → All (λ u. member u (remove t ss) ≡ true) ts
unfolding member
All-remove t [] ss n h = tt
All-remove t (u ∷ ts) ss n h = (
  member-remove t u ss (ground (arith, text_eq_iff t u, text_eq_iff u t)) h.0,
  All-remove t ts ss (ground arith) h.1,
)

-- Pigeons and holes: distinct members of a list are at most as many as its entries.
pub Unique-length :
    (ts ss : List Text) → Unique ts → All (λ u. member u ss ≡ true) ts → length ts ≤ length ss
Unique-length [] ss u h = omega arith
Unique-length (t ∷ ts) ss u h =
    omega (
      arith,
      length-remove t ss h.0,
      Unique-length ts (remove t ss) u.1 (All-remove t ts ss u.0 h.1),
    )
