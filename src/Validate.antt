-- ===== src/Validate.antt =====
-- validate.go: ValidateToolCall and ValidateCacheMarkers. A JSON value is its Go type and its
-- contents, which are any type: the test for an integral number, reflect.DeepEqual, and printing are
-- the standard library's.
pub mod Calls
pub mod Markers
use rho_llm.Base.{
  ℕ, Text, text, text_eq, is_empty, Bool, true, false, ◌&&◌, ◌||◌, not, Option, none, some, List,
  [], ◌∷◌, ◌++◌, if◌then◌else◌, ◌⊎◌, inl, inr, decimal,
}
use rho_llm.Errors.{GoError, plain, wrapped}

-- The types that the code tells apart in a value: nil, string, bool, float64, float32, int or int64,
-- json.Number, []any, map[string]any, and any other.
pub data Value (Body : Type 0) : Type 0 where
  null_value : Value Body
  string_value bool_value float64_value float32_value int_value : Body → Value Body
  number_value array_value object_value other_value : Body → Value Body

-- `integral` is the test of a float64, and `number_integral` that of a json.Number; `type_text` is
-- %T, `show` is %v, and `quoted` is %q.
pub record Values : Type 1 where
  pub Body : Type 0
  pub integral : Body → Bool
  pub number_integral : Body → Bool
  pub deep_equal : Value Body → Value Body → Bool
  pub show : Value Body → Text
  pub type_text : Body → Text
  pub quoted : Text → Text

-- A property's schema: its declared type and its enum, where they have the expected Go type.
pub record PropertySchema (Body : Type 0) : Type 0 where
  pub declared : Option Text
  pub enum : Option (List (Value Body))

-- `empty` is len(schema) == 0; the entries of `required` that are no strings are "". `properties`
-- has the properties whose schema is an object.
pub record Schema (Body : Type 0) : Type 0 where
  pub empty : Bool
  pub required : List Text
  pub properties : List (Text × PropertySchema Body)

-- The Input of a tool call. `Args` lists the entries of a map in the order of the iteration.
abbrev pub Args : Type 0 → Type 0
Args Body = List (Text × Value Body)

pub data Input (Body : Type 0) : Type 0 where
  no_input : Input Body
  map_input : Args Body → Input Body
  json_input : Text → Input Body
  other_input : Value Body → Input Body

abbrev pub find {ℓ} : {A : Type ℓ} → Text → List (Text × A) → Option A
find k [] = none
find k ((j, v) ∷ m) = if text_eq j k then some v else find k m

abbrev pub or_error : Option GoError → Option GoError → Option GoError
or_error (some e) later = some e
or_error none later = later

module _ (j : Values) where
  open j use {Body, integral, number_integral, deep_equal, show, type_text, quoted}

  abbrev pub is_number : Value Body → Bool
  is_number (float64_value b) = true
  is_number (float32_value b) = true
  is_number (int_value b) = true
  is_number (number_value b) = true
  is_number null_value = false
  is_number (string_value b) = false
  is_number (bool_value b) = false
  is_number (array_value b) = false
  is_number (object_value b) = false
  is_number (other_value b) = false

  abbrev pub is_integer : Value Body → Bool
  is_integer (float64_value b) = integral b
  is_integer (int_value b) = true
  is_integer (number_value b) = number_integral b
  is_integer (float32_value b) = false
  is_integer null_value = false
  is_integer (string_value b) = false
  is_integer (bool_value b) = false
  is_integer (array_value b) = false
  is_integer (object_value b) = false
  is_integer (other_value b) = false

  -- jsonTypeName.
  unfoldable pub json_type_name : Value Body → Text
  json_type_name null_value = text "null"
  json_type_name (string_value b) = text "string"
  json_type_name (bool_value b) = text "boolean"
  json_type_name (float64_value b) = text "number"
  json_type_name (float32_value b) = text "number"
  json_type_name (int_value b) = text "number"
  json_type_name (number_value b) = text "number"
  json_type_name (array_value b) = text "array"
  json_type_name (object_value b) = text "object"
  json_type_name (other_value b) = type_text b

  -- The type assertions v.(string), v.(bool), v.([]any) and v.(map[string]any), and v == nil.
  abbrev is_kind : Text → Value Body → Bool
  is_kind kind (other_value b) = false
  is_kind kind null_value = text_eq kind (text "null")
  is_kind kind (string_value b) = text_eq kind (text "string")
  is_kind kind (bool_value b) = text_eq kind (text "boolean")
  is_kind kind (array_value b) = text_eq kind (text "array")
  is_kind kind (object_value b) = text_eq kind (text "object")
  is_kind kind (float64_value b) = false
  is_kind kind (float32_value b) = false
  is_kind kind (int_value b) = false
  is_kind kind (number_value b) = false

  abbrev known_kind : Text → Bool
  known_kind kind =
      text_eq kind (text "string")
      || (text_eq kind (text "boolean")
          || (text_eq kind (text "array")
              || (text_eq kind (text "object") || text_eq kind (text "null"))))

  unfoldable pub matches_json_type : Text → Value Body → Bool
  matches_json_type kind v =
      if text_eq kind (text "number")
      then is_number v
      else if text_eq kind (text "integer")
      then is_integer v
      else if known_kind kind
      then is_kind kind v
      else true

  unfoldable pub enum_contains : List (Value Body) → Value Body → Bool
  enum_contains [] v = false
  enum_contains (e ∷ es) v = deep_equal e v || enum_contains es v

  abbrev pub tool_prefix : Text → Text
  tool_prefix tool = text "tool " ++ quoted tool

  -- The first required argument that is missing.
  unfoldable pub missing_argument : Text → Args Body → List Text → Option GoError
  missing_argument tool args [] = none
  missing_argument tool args (r ∷ rs) =
      let rest = missing_argument tool args rs in
      if is_empty r then rest else elim (find r args) [
        | some v ↦ rest
        | none ↦
            some (plain (tool_prefix tool ++ (text ": missing required argument " ++ quoted r)))
      ]

  unfoldable pub type_error : Text → Text → Value Body → Option Text → Option GoError
  type_error tool arg v none = none
  type_error tool arg v (some kind) =
      if matches_json_type kind v
      then none
      else some (
          plain (
            tool_prefix tool
            ++ (text ": argument "
                ++ (quoted arg
                    ++ (text " should be " ++ (kind ++ (text ", got " ++ json_type_name v)))))))

  unfoldable pub enum_error : Text → Text → Value Body → Option (List (Value Body)) → Option GoError
  enum_error tool arg v none = none
  enum_error tool arg v (some es) =
      if enum_contains es v
      then none
      else some (
          plain (
            tool_prefix tool
            ++ (text ": argument "
                ++ (quoted arg
                    ++ (text " = " ++ (show v ++ text " is not one of the allowed enum values"))))))

  -- One argument against its property.
  unfoldable pub argument_error :
      Text → Text → Value Body → Option (PropertySchema Body) → Option GoError
  argument_error tool arg v none = none
  argument_error tool arg v (some p) =
      or_error (type_error tool arg v p.declared) (enum_error tool arg v p.enum)

  unfoldable pub bad_argument : Text → Schema Body → Args Body → Option GoError
  bad_argument tool schema [] = none
  bad_argument tool schema ((arg, v) ∷ args) =
      or_error (argument_error tool arg v (find arg schema.properties))
        (bad_argument tool schema args)

  -- toArgsMap, with json.Unmarshal.
  unfoldable pub to_args_map : (Text → Args Body ⊎ GoError) → Input Body → Args Body ⊎ GoError
  to_args_map unmarshal no_input = inl []
  to_args_map unmarshal (map_input args) = inl args
  to_args_map unmarshal (json_input s) = elim (unmarshal s) [
    | inl args ↦ inl args
    | inr e ↦ inr (wrapped (text "arguments are not a valid JSON object") e)
  ]
  to_args_map unmarshal (other_input v) =
      inr (plain (text "arguments must be a JSON object, got " ++ json_type_name v))

  unfoldable pub validate_args : Text → Schema Body → Args Body ⊎ GoError → Option GoError
  validate_args tool schema (inr e) = some (wrapped (tool_prefix tool) e)
  validate_args tool schema (inl args) =
      or_error (missing_argument tool args schema.required) (bad_argument tool schema args)

  unfoldable pub validate_tool_call :
      (Text → Args Body ⊎ GoError) → Text → Schema Body → Input Body → Option GoError
  validate_tool_call unmarshal tool schema input =
      if schema.empty then none else validate_args tool schema (to_args_map unmarshal input)

-- A place that can carry a cache marker: its name in an error, CacheControl and CacheTTL.
pub record Marker : Type 0 where
  pub place : Text
  pub marked : Bool
  pub ttl : Text

-- The places of a request that can be marked. A message's parts carry those of their tool result.
pub record MarkedRequest : Type 0 where
  pub tools : List Marker
  pub server_tools : List Marker
  pub system : Marker
  pub messages : List (List (Marker × List Marker))

abbrev pub part_markers : List (Marker × List Marker) → List Marker
part_markers [] = []
part_markers ((part, subs) ∷ parts) = part ∷ (subs ++ part_markers parts)

abbrev pub message_markers : List (List (Marker × List Marker)) → List Marker
message_markers [] = []
message_markers (parts ∷ msgs) = part_markers parts ++ message_markers msgs

-- The order of the loops.
unfoldable pub markers_of : MarkedRequest → List Marker
markers_of r = r.tools ++ (r.server_tools ++ (r.system ∷ message_markers r.messages))

abbrev pub is_hour : Marker → Bool
is_hour m = m.marked && text_eq m.ttl (text "1h")

abbrev pub is_minutes : Marker → Bool
is_minutes m = m.marked && (is_empty m.ttl || text_eq m.ttl (text "5m"))

module _ (quoted : Text → Text) where
  -- `check`, with seen5m.
  unfoldable pub check_marker : Bool → Marker → Option GoError
  check_marker seen m =
      if not m.marked
      then (if is_empty m.ttl
          then none
          else some (
              plain (
                text "llm: "
                ++ (m.place
                    ++ (text " sets CacheTTL "
                        ++ (quoted m.ttl ++ text " without CacheControl"))))))
      else if text_eq m.ttl (text "1h") && seen
      then some (
          plain (
            text "llm: "
            ++ (m.place
                ++ (text " has a 1h cache marker after a 5m one; "
                    ++ text "1h entries must come first (tools, system, messages)"))))
      else none

  unfoldable pub check_markers : Bool → List Marker → Option GoError
  check_markers seen [] = none
  check_markers seen (m ∷ ms) =
      let rest = check_markers (seen || is_minutes m) ms in
      elim (check_marker seen m) [ some e ↦ some e | none ↦ rest ]

  unfoldable pub validate_cache_markers : MarkedRequest → Option GoError
  validate_cache_markers r = check_markers false (markers_of r)
