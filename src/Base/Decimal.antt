-- ===== src/Base/Decimal.antt =====
-- Decimal digits, as %d and strconv.Itoa print them.
use Prim.Native.Nat.{ℕ, zero, suc, ◌+◌, ◌-◌, ◌*◌, ◌/◌, ◌%◌, ◌≤◌, ◌<◌}
use mathlib.Core.Path.{◌≡◌, refl, ap, sym, ◌∙◌}
use mathlib.Core.List.{[], ◌∷◌, ◌++◌}
use native.Mathlib.Omega.{arith}
use rho_llm.Base.Tests.{ltb, leb, if◌then◌else◌, Bool-cases}
use rho_llm.Base.Lists.{All, All-append}
use rho_llm.Base.Strings.{Text}
use mathlib.Core.Logic.{inl, inr, ◌≢◌}
use mathlib.Core.Bool.{Bool, true, false, ◌&&◌}

digits_fuel : ℕ → ℕ → Text
digits_fuel zero n = []
digits_fuel (suc f) n =
    let front = digits_fuel f (n / 10) in
    if ltb n 10 then (48 + n) ∷ [] else front ++ (48 + n % 10) ∷ []

unfoldable pub decimal : ℕ → Text
unfolding digits_fuel
decimal n = digits_fuel (suc n) n

-- The number that a run of digits stands for.
value : ℕ → Text → ℕ
value acc [] = acc
value acc (d ∷ ds) = value (acc * 10 + (d - 48)) ds

value-append :
    (acc : ℕ) (xs : Text) (d : ℕ) → value acc (xs ++ d ∷ []) ≡ value acc xs * 10 + (d - 48)
unfolding value
value-append acc [] d = refl
value-append acc (x ∷ xs) d = value-append (acc * 10 + (x - 48)) xs d

below : (n : ℕ) → ltb n 10 ≡ false → 10 ≤ n
below n h = ground arith

value-digits_fuel : (f n : ℕ) → n < f → value 0 (digits_fuel f n) ≡ n
unfolding digits_fuel value
value-digits_fuel zero n h = absurd (omega arith)
value-digits_fuel (suc f) n h = elim (Bool-cases (ltb n 10)) [
  | inl p ↦ rw p (omega arith)
  | inr p ↦ rw p (
      omega (
        arith,
        value-append 0 (digits_fuel f (n / 10)) (48 + n % 10),
        value-digits_fuel f (n / 10) (omega (arith, below n p)),
      ))
]

pub decimal_injective : (m n : ℕ) → decimal m ≡ decimal n → m ≡ n
unfolding decimal
decimal_injective m n e =
    sym (value-digits_fuel (suc m) m (omega arith))
    ∙ ap (value 0) e
    ∙ value-digits_fuel (suc n) n (omega arith)

abbrev pub is_decimal_byte : ℕ → Bool
is_decimal_byte c = leb 48 c && leb c 57

digits_fuel-digits : (f n : ℕ) → All (λ c. is_decimal_byte c ≡ true) (digits_fuel f n)
unfolding digits_fuel
digits_fuel-digits zero n = tt
digits_fuel-digits (suc f) n = elim (Bool-cases (ltb n 10)) [
  | inl p ↦ rw p (ground arith, tt)
  | inr p ↦ rw p (
      All-append (λ c. is_decimal_byte c ≡ true) (digits_fuel f (n / 10)) _
        (digits_fuel-digits f (n / 10)) (ground arith, tt))
]

pub decimal-digits : (n : ℕ) → All (λ c. is_decimal_byte c ≡ true) (decimal n)
unfolding decimal
decimal-digits n = digits_fuel-digits (suc n) n

append_cons : (xs : Text) (d : ℕ) → xs ++ (d ∷ []) ≢ []
append_cons [] d e = cc
append_cons (x ∷ xs) d e = cc

pub decimal-ne : (n : ℕ) → decimal n ≢ []
unfolding decimal digits_fuel
decimal-ne n = elim (Bool-cases (ltb n 10)) [
  | inl p ↦ rw p (λ e. cc)
  | inr p ↦ rw p (append_cons (digits_fuel n (n / 10)) (48 + n % 10))
]
