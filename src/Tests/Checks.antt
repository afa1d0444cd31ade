-- ===== src/Tests/Checks.antt =====
-- validate.go: a call with two arguments in two orders, and a request with two markers.
use mathlib.Core.List.Permᴰ.{swap}
use rho_llm.Base.{◌≡◌, refl, ◌↔◌, Text, text, true, false, none, some, [], ◌∷◌, inl, All}
use rho_llm.Validate.{
  Values, string_value, int_value, Schema, Args, Marker, MarkedRequest, validate_args,
  validate_cache_markers, markers_of,
}
use rho_llm.Validate.Calls.{is_none, validate_args-Perm}
use rho_llm.Validate.Markers.{Marks, Ordered, validate_cache_markers_lem}

abbrev values : Values
values = record {
  Body = Text;
  integral = λ b. true;
  number_integral = λ b. true;
  deep_equal = λ v w. false;
  show = λ v. text "value";
  type_text = λ b. b;
  quoted = λ t. t;
}

abbrev schema : Schema Text
schema = record {
  empty = false;
  required = text "city" ∷ [];
  properties = (text "days", record { declared = some (text "integer"); enum = none }) ∷ [];
}

abbrev city_first : Args Text
city_first = (text "city", string_value (text "Oslo")) ∷ (text "days", int_value (text "3")) ∷ []

abbrev days_first : Args Text
days_first = (text "days", int_value (text "3")) ∷ (text "city", string_value (text "Oslo")) ∷ []

validate_args-Perm_example :
    is_none (validate_args values (text "weather") schema (inl city_first))
    ≡ is_none (validate_args values (text "weather") schema (inl days_first))
validate_args-Perm_example =
    validate_args-Perm values (text "weather") schema city_first days_first (swap refl refl)

abbrev marked_place : Text → Text → Marker
marked_place place ttl = record { place = place; marked = true; ttl = ttl }

abbrev unmarked : Marker
unmarked = record { place = text "the system prompt"; marked = false; ttl = [] }

abbrev request : MarkedRequest
request = record {
  tools = marked_place (text "tool a") (text "1h") ∷ [];
  server_tools = [];
  system = unmarked;
  messages = ((marked_place (text "message 0") [], []) ∷ []) ∷ [];
}

validate_cache_markers_lem_example :
    (validate_cache_markers (λ t. t) request ≡ none)
    ↔ (All Marks (markers_of request) × Ordered (markers_of request))
validate_cache_markers_lem_example = validate_cache_markers_lem (λ t. t) request
