-- ===== src/Tests/Costs.antt =====
-- registry.go: EstimateCost with whole numbers in place of float64.
use rho_llm.Base.{
  ℕ, ◌+◌, ◌*◌, ◌/◌, ◌≤◌, ◌≡◌, refl, text, true, false, [], ◌∷◌, leb, ltb, ◌==◌, ℤ, pos, negsuc,
  arith,
}
use native.Mathlib.Nat.{mul-le-mul_right}
use rho_llm.Capability.{no_capabilities}
use rho_llm.Registry.{Registry}
use rho_llm.Registry.Cost.{FloatOps, Prices, TokenCounts, CostInput, estimate_cost, sane_seconds}
use rho_llm.Registry.Cost.Bounds.{
  Compares, Rounds, Below, Fewer, estimate_cost-bounds, estimate_cost-Below,
}

abbrev whole : FloatOps
whole = record {
  Float64 = ℕ;
  zero = 0;
  max_float = 1000000000;
  count = λ n. n;
  add = λ a b. a + b;
  mul = λ a b. a * b;
  over_60 = λ a. a / 60;
  over_1000 = λ a. a / 1000;
  over_1000000 = λ a. a / 1000000;
  half = λ a. a / 2;
  double = λ a. a * 2;
  le = leb;
  lt = ltb;
  is_nan = λ a. false;
  is_inf = λ a. false;
  is_zero = λ a. a == 0;
}

whole-Compares : Compares whole
whole-Compares = record {
  zero-zero = refl;
  zero-max = refl;
  max-max = refl;
  trans = λ a b c p q. ground arith;
  sane = λ a b p. refl;
  total = λ a p q. ground arith;
  below_max = λ a p q. ground arith;
  over_max = λ a b p q. ground arith;
}

le-leb : (a b : ℕ) → a ≤ b → (leb 0 a ≡ true) × (leb a b ≡ true)
le-leb a b h = (ground arith, ground arith)

leb-le : (a b : ℕ) → leb a b ≡ true → a ≤ b
leb-le a b h = ground arith

whole-Rounds : Rounds whole
whole-Rounds = record {
  zero_finite = refl;
  sums = λ a a' b b' p q. (ground arith, ground (arith, p.1, q.1));
  longer = λ a b c p q. (ground arith, ground (arith, p.1));
  tokens = λ m n p l u. le-leb _ _ (omega (arith, mul-le-mul_right p l));
  searches = λ m n p l u. le-leb _ _ (omega (arith, mul-le-mul_right p l));
  minutes = λ s t p b i u.
      let l : s / 60 ≤ t / 60 = omega (arith, leb-le s t b.1) in le-leb _ _ (mul-le-mul_right p l);
  halves = λ a b p. le-leb _ _ (omega (arith, leb-le a b p.1));
}

abbrev prices : Prices whole
prices = record {
  input = 4;
  output = 20;
  cache_write = 5;
  cache_write_1h = 0;
  cache_read = 0;
  audio_input = 0;
  audio_minute = 0;
  web_search = 10;
}

abbrev models : Registry (Prices whole)
models = record {
  models =
      (
        text "m",
        record {
          id = text "m";
          provider = text "p";
          supports_thinking = false;
          thinking = false;
          responses_api = false;
          no_tool_support = false;
          capabilities = no_capabilities;
          rest = prices;
        },
      )
      ∷ [];
  available = [];
  aliases = [];
}

abbrev tokens : ℕ → TokenCounts whole
tokens n = record {
  input_tokens = pos n;
  output_tokens = pos 9000000;
  thinking_tokens = negsuc 0;
  cache_create = pos n;
  cache_read = pos 5000000;
  cache_create_1h = pos 1000000;
  audio_tokens = pos 0;
  audio_seconds = 30;
  batch = true;
}

abbrev request : ℕ → ℤ → CostInput whole
request n searches = record {
  model = text "m";
  usage = tokens n;
  web_searches = searches;
  iterations = [];
}

tokens-Fewer : Fewer whole (tokens 3000000) (tokens 4000000)
unfolding sane_seconds
tokens-Fewer = record {
  plain_input = omega arith;
  audio_input = omega arith;
  output = omega arith;
  thinking = omega arith;
  write = omega arith;
  write_1h = omega arith;
  read = omega arith;
  seconds = (refl, refl);
  batch = refl;
}

estimate_cost-bounds_example :
    (leb 0 (estimate_cost whole models (request 3000000 (pos 500))) ≡ true)
    × (leb (estimate_cost whole models (request 3000000 (pos 500))) 1000000000 ≡ true)
estimate_cost-bounds_example =
    estimate_cost-bounds whole whole-Compares models (request 3000000 (pos 500))

estimate_cost-Below_example :
    Below whole
      (estimate_cost whole models (request 3000000 (negsuc 0)))
      (estimate_cost whole models (request 4000000 (pos 500)))
estimate_cost-Below_example =
    estimate_cost-Below whole whole-Compares whole-Rounds models (request 3000000 (negsuc 0))
      (request 4000000 (pos 500)) refl refl refl tokens-Fewer (omega arith)
