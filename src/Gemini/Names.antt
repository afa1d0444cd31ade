-- ===== src/Gemini/Names.antt =====
-- provider/gemini/gemini.go: the names in tool-call IDs.
use rho_llm.Base.{
  ℕ, ◌≡◌, ◌≢◌, refl, ap, Text, has_prefix, is_empty, decimal, is_decimal_byte, decimal-digits,
  decimal-ne, decimal_injective, true, false, Option, none, some, [], ◌∷◌, ◌++◌, arith, All, drop,
  ◌==◌,
}
use rho_llm.Gemini.{make_tool_call_id, cut_underscore, all_digits, name_after, resolve_tool_name}

cut_underscore-append :
    (ds n : Text)
    → All (λ c. is_decimal_byte c ≡ true) ds
    → cut_underscore (ds ++ (b'_' ∷ n)) ≡ some (ds, n)
unfolding cut_underscore
cut_underscore-append [] n h = refl
cut_underscore-append (d ∷ ds) n h =
    let other : d == b'_' ≡ false = ground (arith, h.0) in
    rw (other, cut_underscore-append ds n h.1) refl

all_digits_lem : (ds : Text) → All (λ c. is_decimal_byte c ≡ true) ds → all_digits ds ≡ true
unfolding all_digits
all_digits_lem [] h = refl
all_digits_lem (d ∷ ds) h = ground (arith, h.0, all_digits_lem ds h.1)

is_empty-ne : (ds : Text) → ds ≢ [] → is_empty ds ≡ false
is_empty-ne [] h = absurd (h refl)
is_empty-ne (d ∷ ds) h = refl

name_after-some :
    (ds n id : Text) → is_empty ds ≡ false → all_digits ds ≡ true → name_after (some (ds, n)) id ≡ n
name_after-some ds n id p q = ground arith

-- resolveToolName gives back the name of any ID that makeToolCallID makes, whatever bytes the name
-- has.
pub resolve_tool_name-make_tool_call_id :
    (index : ℕ) (name : Text) → resolve_tool_name (make_tool_call_id index name) ≡ name
unfolding resolve_tool_name make_tool_call_id has_prefix
resolve_tool_name-make_tool_call_id index name =
    rw (cut_underscore-append (decimal index) name (decimal-digits index)) (
      name_after-some (decimal index) name _ (is_empty-ne (decimal index) (decimal-ne index))
        (all_digits_lem (decimal index) (decimal-digits index)))

front_of : Option (Text × Text) → Text
front_of none = []
front_of (some (front, back)) = front

-- IDs of different indexes differ.
pub make_tool_call_id_injective :
    (i j : ℕ) (m n : Text) → make_tool_call_id i m ≡ make_tool_call_id j n → i ≡ j
unfolding make_tool_call_id front_of
make_tool_call_id_injective i j m n e =
    let fronts = ap (λ id. front_of (cut_underscore (drop 5 id))) e in
    decimal_injective i j (
      rw
        (
          cut_underscore-append (decimal i) m (decimal-digits i),
          cut_underscore-append (decimal j) n (decimal-digits j),
        )
        at fronts)
