-- ===== src/Transport/Events.antt =====
-- transport.go: SSEData, which every streaming adapter reads its lines with.
use rho_llm.Base.{
  ◌≡◌, refl, ◌↔◌, Text, text, has_prefix, is_empty, true, false, Option, none, some, [], ◌∷◌, ◌++◌,
  arith, if◌then◌else◌, drop, length,
}

abbrev pub data_prefix : Text
data_prefix = text "data: "

unfoldable pub sse_data : Text → Option Text
sse_data line =
    let payload = drop 6 line in
    if has_prefix line data_prefix then (if is_empty payload then none else some payload) else none

has_prefix-split : (s p : Text) → has_prefix s p ≡ true → s ≡ p ++ drop (length p) s
unfolding has_prefix
has_prefix-split s [] h = refl
has_prefix-split [] (b ∷ p) h = cc
has_prefix-split (a ∷ s) (b ∷ p) h = ground (arith, has_prefix-split s p)

has_prefix-append : (p d : Text) → has_prefix (p ++ d) p ≡ true
unfolding has_prefix
has_prefix-append [] d = refl
has_prefix-append (b ∷ p) d = ground (arith, has_prefix-append p d)

drop-append : (p d : Text) → drop (length p) (p ++ d) ≡ d
drop-append [] d = refl
drop-append (b ∷ p) d = drop-append p d

-- A line carries the payload `d` exactly if it is "data: " followed by `d`, and `d` is not empty:
-- the payload comes back unchanged, also when it starts with "data: " itself.
pub sse_data_lem :
    (line d : Text) → (sse_data line ≡ some d) ↔ ((line ≡ data_prefix ++ d) × (is_empty d ≡ false))
unfolding sse_data
sse_data_lem line d = (read, written)
  where
    read : sse_data line ≡ some d → (line ≡ data_prefix ++ d) × (is_empty d ≡ false)
    read p = ground (arith, has_prefix-split line data_prefix)

    written : (line ≡ data_prefix ++ d) × (is_empty d ≡ false) → sse_data line ≡ some d
    written (e, full) =
        rw (e, sse_data, has_prefix-append data_prefix d, drop-append data_prefix d, full) refl
