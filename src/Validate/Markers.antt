-- ===== src/Validate/Markers.antt =====
-- validate.go: what ValidateCacheMarkers accepts.
use rho_llm.Base.{
  ◌≡◌, ◌↔◌, refl, Text, is_empty, Bool, true, false, ◌||◌, none, List, [], ◌∷◌, All, arith,
}
use rho_llm.Validate.{
  Marker, MarkedRequest, markers_of, is_hour, is_minutes, check_marker, check_markers,
  validate_cache_markers,
}

-- A lifetime is set on markers only, and no marker of an hour follows one of five minutes.
abbrev pub Marks : Marker → Type 0
Marks m = (m.marked ≡ false) → is_empty m.ttl ≡ true

abbrev pub Ordered : List Marker → Type 0
Ordered [] = Unit
Ordered (m ∷ ms) = (is_minutes m ≡ true → All (λ n. is_hour n ≡ false) ms) × Ordered ms

-- What check_markers accepts, once a marker of five minutes was seen or not.
abbrev Accepts : Bool → List Marker → Type 0
Accepts seen ms = All Marks ms × (Ordered ms × (seen ≡ true → All (λ n. is_hour n ≡ false) ms))

or_left : (x y : Bool) → x ≡ true → (x || y) ≡ true
or_left x y e = ground arith

or_right : (x y : Bool) → y ≡ true → (x || y) ≡ true
or_right x y e = ground arith

or_case : {P : Type 0} (x y : Bool) → (x ≡ true → P) → (y ≡ true → P) → (x || y) ≡ true → P
or_case true y f g e = f refl
or_case false y f g e = g e

module _ (quoted : Text → Text) where
  check_marker-none :
      (seen : Bool) (m : Marker)
      → check_marker quoted seen m ≡ none
      → Marks m × (seen ≡ true → is_hour m ≡ false)
  unfolding check_marker
  check_marker-none seen m h = (λ e. ground arith, λ e. ground arith)

  none-check_marker :
      (seen : Bool) (m : Marker)
      → Marks m
      → (seen ≡ true → is_hour m ≡ false)
      → check_marker quoted seen m ≡ none
  unfolding check_marker
  none-check_marker seen m k h = ground (arith, k, h)

  check_markers-Accepts :
      (seen : Bool) (ms : List Marker) → check_markers quoted seen ms ≡ none → Accepts seen ms
  unfolding check_markers
  check_markers-Accepts seen [] h = (tt, (tt, λ _. tt))
  check_markers-Accepts seen (m ∷ ms) h =
      let here = check_marker-none seen m (ground arith) in
      let (marks, (ordered, later)) =
        check_markers-Accepts (seen || is_minutes m) ms (ground arith) in
      (
        (here.0, marks),
        (
          (λ e. later (or_right seen (is_minutes m) e), ordered),
          λ e. (here.1 e, later (or_left seen (is_minutes m) e)),
        ),
      )

  Accepts-check_markers :
      (seen : Bool) (ms : List Marker) → Accepts seen ms → check_markers quoted seen ms ≡ none
  unfolding check_markers
  Accepts-check_markers seen [] h = refl
  Accepts-check_markers seen (m ∷ ms) ((k, marks), ((now, ordered), later)) =
      rw (check_markers, none-check_marker seen m k (λ e. (later e).0))
        (Accepts-check_markers (seen || is_minutes m) ms
          (marks, (ordered, or_case seen (is_minutes m) (λ e. (later e).1) now)))

  -- ValidateCacheMarkers accepts a request exactly if only marked places have a lifetime, and no
  -- marker of an hour comes after a marker of five minutes, in the order of the tools, the server
  -- tools, the system prompt, and the messages with their parts and tool results.
  pub validate_cache_markers_lem :
      (r : MarkedRequest)
      → (validate_cache_markers quoted r ≡ none)
        ↔ (All Marks (markers_of r) × Ordered (markers_of r))
  unfolding validate_cache_markers
  validate_cache_markers_lem r = (
    λ h.
        let (marks, (ordered, more)) = check_markers-Accepts false (markers_of r) h in
        (marks, ordered),
    λ (marks, ordered). Accepts-check_markers false (markers_of r) (marks, (ordered, λ e. cc)),
  )
