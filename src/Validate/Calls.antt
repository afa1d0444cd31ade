-- ===== src/Validate/Calls.antt =====
-- validate.go: whether ValidateToolCall accepts a call.
use mathlib.Core.List.{Permᴰ}
use mathlib.Core.List.Permᴰ.{nil, cons, swap, trans}
use rho_llm.Base.{
  ◌≡◌, refl, ap, Text, text_eq, Bool, true, false, ◌&&◌, ◌||◌, not, Option, none, some, List, [],
  ◌∷◌, arith, inl, ◌∙◌,
}
use rho_llm.Errors.{GoError}
use rho_llm.Validate.{
  Value, Values, Schema, Args, find, missing_argument, argument_error, bad_argument, or_error,
  validate_args,
}

abbrev pub is_none : {A : Type 0} → Option A → Bool
is_none none = true
is_none (some a) = false

has_key : {A : Type 0} → Text → List (Text × A) → Bool
has_key k [] = false
has_key k ((j, v) ∷ m) = text_eq j k || has_key k m

is_none-find :
    {A : Type 0} (k : Text) (m : List (Text × A)) → is_none (find k m) ≡ not (has_key k m)
unfolding has_key
is_none-find k [] = refl
is_none-find k ((j, v) ∷ m) = ground (arith, is_none-find k m)

is_none-or_error : (x y : Option GoError) → is_none (or_error x y) ≡ (is_none x && is_none y)
is_none-or_error none y = refl
is_none-or_error (some e) y = refl

has_key-Perm :
    {A : Type 0} {xs ys : List (Text × A)} (k : Text) → Permᴰ xs ys → has_key k xs ≡ has_key k ys
unfolding has_key
has_key-Perm k nil = refl
has_key-Perm k (cons e p) = cc (ap (λ a. text_eq a.0 k) e, has_key-Perm k p)
has_key-Perm k (swap e f) = ground (arith, ap (λ a. text_eq a.0 k) e, ap (λ a. text_eq a.0 k) f)
has_key-Perm k (trans p q) = has_key-Perm k p ∙ has_key-Perm k q

module _ (j : Values) (tool : Text) (schema : Schema j.Body) where
  -- Whether one argument passes.
  passes : Text × Value j.Body → Bool
  passes (arg, v) = is_none (argument_error j tool arg v (find arg schema.properties))

  missing_argument-Perm :
      {xs ys : Args j.Body} (rs : List Text)
      → Permᴰ xs ys
      → is_none (missing_argument j tool xs rs) ≡ is_none (missing_argument j tool ys rs)
  unfolding missing_argument
  missing_argument-Perm [] p = refl
  missing_argument-Perm {xs} {ys} (r ∷ rs) p =
      ground
        (arith, is_none-find r xs, is_none-find r ys, has_key-Perm r p, missing_argument-Perm rs p)

  bad_argument-cons :
      (a : Text × Value j.Body) (xs : Args j.Body)
      → is_none (bad_argument j tool schema (a ∷ xs))
        ≡ (passes a && is_none (bad_argument j tool schema xs))
  unfolding bad_argument passes
  bad_argument-cons (arg, v) xs = is_none-or_error _ _

  bad_argument-Perm :
      {xs ys : Args j.Body}
      → Permᴰ xs ys
      → is_none (bad_argument j tool schema xs) ≡ is_none (bad_argument j tool schema ys)
  bad_argument-Perm nil = refl
  bad_argument-Perm (cons {a} {b} {l₁} {l₂} e p) =
      cc (bad_argument-cons a l₁, bad_argument-cons b l₂, ap passes e, bad_argument-Perm p)
  bad_argument-Perm (swap {a} {b} {a'} {b'} {l} e f) = ground (
    arith,
    bad_argument-cons a (b ∷ l),
    bad_argument-cons b l,
    bad_argument-cons a' (b' ∷ l),
    bad_argument-cons b' l,
    ap passes e,
    ap passes f,
  )
  bad_argument-Perm (trans p q) = bad_argument-Perm p ∙ bad_argument-Perm q

  -- Whether ValidateToolCall accepts the arguments does not depend on the order in which Go
  -- iterates over their map.
  pub validate_args-Perm :
      (xs ys : Args j.Body)
      → Permᴰ xs ys
      → is_none (validate_args j tool schema (inl xs))
        ≡ is_none (validate_args j tool schema (inl ys))
  unfolding validate_args
  validate_args-Perm xs ys p = ground (
    arith,
    is_none-or_error (missing_argument j tool xs schema.required) (bad_argument j tool schema xs),
    is_none-or_error (missing_argument j tool ys schema.required) (bad_argument j tool schema ys),
    missing_argument-Perm schema.required p,
    bad_argument-Perm p,
  )
