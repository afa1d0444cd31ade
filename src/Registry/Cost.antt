-- ===== src/Registry/Cost.antt =====
-- registry.go: EstimateCost. What the code does in float64 is a parameter.
use rho_llm.Base.{
  ℕ, ◌-◌, Text, is_empty, Bool, true, false, ◌&&◌, ◌||◌, not, Option, none, some, List, [], ◌∷◌,
  leb, ltb, if◌then◌else◌, ℤ, pos_part,
}
use rho_llm.Capability.{ModelInfo}
use rho_llm.Registry.{Registry, pricing_for}
pub mod Bounds

-- float64: `count` is the conversion of an int that is not negative, and the divisions are those by
-- 60, 1000 and 1,000,000.
pub record FloatOps : Type 1 where
  pub Float64 : Type 0
  pub zero : Float64
  pub max_float : Float64
  pub count : ℕ → Float64
  pub add : Float64 → Float64 → Float64
  pub mul : Float64 → Float64 → Float64
  pub over_60 : Float64 → Float64
  pub over_1000 : Float64 → Float64
  pub over_1000000 : Float64 → Float64
  pub half : Float64 → Float64
  pub double : Float64 → Float64
  pub le : Float64 → Float64 → Bool
  pub lt : Float64 → Float64 → Bool
  pub is_nan : Float64 → Bool
  pub is_inf : Float64 → Bool
  pub is_zero : Float64 → Bool

module _ (F : FloatOps) where
  open F use {
    Float64, zero, max_float, count, add, mul, over_60, over_1000, over_1000000, half, double, le,
    lt, is_nan, is_inf, is_zero,
  }

  -- The prices of ModelInfo.
  pub record Prices : Type 0 where
    pub input : Float64
    pub output : Float64
    pub cache_write : Float64
    pub cache_write_1h : Float64
    pub cache_read : Float64
    pub audio_input : Float64
    pub audio_minute : Float64
    pub web_search : Float64

  -- The token fields of CostInput.
  pub record TokenCounts : Type 0 where
    pub input_tokens : ℤ
    pub output_tokens : ℤ
    pub thinking_tokens : ℤ
    pub cache_create : ℤ
    pub cache_read : ℤ
    pub cache_create_1h : ℤ
    pub audio_tokens : ℤ
    pub audio_seconds : Float64
    pub batch : Bool

  -- CostInput. An iteration has a model and token fields, and the batch flag of its request.
  pub record CostInput : Type 0 where
    pub model : Text
    pub usage : TokenCounts
    pub web_searches : ℤ
    pub iterations : List (Text × TokenCounts)

  -- sanitizePrice. An infinity that is below 0 is not above it.
  abbrev pub is_price : Float64 → Bool
  is_price p = lt zero p && not (is_inf p)

  unfoldable pub sanitize_price : Float64 → Float64
  sanitize_price p = if is_price p then p else zero

  -- saturateCost.
  unfoldable pub saturate_cost : Float64 → Float64
  saturate_cost c = if is_nan c || le c zero then zero else if lt max_float c then max_float else c

  abbrev pub share : ℤ → ℤ → ℕ
  share part whole = if ltb (pos_part whole) (pos_part part) then pos_part whole else pos_part part

  unfoldable pub sane_seconds : Float64 → Float64
  sane_seconds s = if is_nan s || (is_inf s || lt s zero) then zero else s

  unfoldable pub per_token : ℕ → Float64 → Float64
  per_token tokens price = over_1000000 (mul (count tokens) (sanitize_price price))

  abbrev pub cache_read_price : Prices → Float64
  cache_read_price p =
      if is_zero (sanitize_price p.cache_read) then p.input else sanitize_price p.cache_read

  abbrev pub write_1h_price : Prices → Float64
  write_1h_price p =
      if is_zero (sanitize_price p.cache_write_1h)
      then double (sanitize_price p.input)
      else sanitize_price p.cache_write_1h

  unfoldable pub input_cost : Prices → TokenCounts → Float64
  input_cost p u =
      let audio = share u.audio_tokens u.input_tokens in
      add
        (add (per_token (pos_part u.input_tokens - audio) p.input) (per_token audio p.audio_input))
        (mul (over_60 (sane_seconds u.audio_seconds)) (sanitize_price p.audio_minute))

  unfoldable pub output_cost : Prices → TokenCounts → Float64
  output_cost p u =
      add (per_token (pos_part u.output_tokens) p.output)
        (per_token (pos_part u.thinking_tokens) p.output)

  unfoldable pub cache_cost : Prices → TokenCounts → Float64
  cache_cost p u =
      let hour = share u.cache_create_1h u.cache_create in
      add
        (add (per_token (pos_part u.cache_create - hour) p.cache_write)
          (per_token hour (write_1h_price p)))
        (per_token (pos_part u.cache_read) (cache_read_price p))

  -- tokenCost.
  unfoldable pub token_cost : Prices → TokenCounts → Float64
  token_cost p u =
      let total = add (add (input_cost p u) (output_cost p u)) (cache_cost p u) in
      if u.batch then half total else total

  abbrev pub prices_of : Option (ModelInfo Prices) → Option Prices
  prices_of none = none
  prices_of (some info) = some info.rest

  abbrev pub add_iteration :
      Option Prices → TokenCounts → Float64 × Option Prices → Float64 × Option Prices
  add_iteration none u (total, searched) = (total, searched)
  add_iteration (some p) u (total, none) = (add total (token_cost p u), some p)
  add_iteration (some p) u (total, some q) = (add total (token_cost p u), some q)

  -- The loop over the iterations, with the prices that the searches are billed at.
  unfoldable pub add_iterations :
      Registry Prices
      → Text
      → List (Text × TokenCounts)
      → Float64 × Option Prices
      → Float64 × Option Prices
  add_iterations r model [] acc = acc
  add_iterations r model ((own, u) ∷ rest) acc =
      let name = if is_empty own then model else own in
      add_iterations r model rest (add_iteration (prices_of (pricing_for name r)) u acc)

  abbrev pub total_of : Option Prices → TokenCounts → Float64
  total_of none u = zero
  total_of (some p) u = token_cost p u

  unfoldable pub tokens_total : Registry Prices → CostInput → Float64 × Option Prices
  tokens_total r i =
      let prices = prices_of (pricing_for i.model r) in
      elim i.iterations [
        | [] ↦ (total_of prices i.usage, prices)
        | it ∷ its ↦ add_iterations r i.model (it ∷ its) (zero, prices)
      ]

  unfoldable pub add_searches : Option Prices → ℤ → Float64 → Float64
  add_searches none n total = total
  add_searches (some p) n total =
      if ltb 0 (pos_part n)
      then add total (over_1000 (mul (count (pos_part n)) (sanitize_price p.web_search)))
      else total

  -- EstimateCost.
  unfoldable pub estimate_cost : Registry Prices → CostInput → Float64
  estimate_cost r i =
      let (total, searched) = tokens_total r i in
      saturate_cost (add_searches searched i.web_searches total)
