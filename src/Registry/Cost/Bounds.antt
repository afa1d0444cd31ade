-- ===== src/Registry/Cost/Bounds.antt =====
-- registry.go: the bounds of EstimateCost.
use rho_llm.Base.{
  ℕ, ◌-◌, ◌≤◌, ◌≡◌, refl, Bool, true, false, Option, none, some, [], ltb, if◌then◌else◌, ℤ,
  pos_part, arith, Bool-cases, ◌⊎◌, inl, inr,
}
use rho_llm.Registry.{Registry, pricing_for}
use rho_llm.Registry.Cost.{
  FloatOps, Prices, TokenCounts, CostInput, is_price, sanitize_price, saturate_cost, share,
  sane_seconds, per_token, cache_read_price, write_1h_price, input_cost, output_cost, cache_cost,
  token_cost, prices_of, total_of, tokens_total, add_searches, estimate_cost,
}

module _ (F : FloatOps) where
  open F use {
    Float64, zero, max_float, count, add, mul, over_60, over_1000, over_1000000, half, le, lt,
    is_nan, is_inf,
  }

  -- What IEEE 754 says of comparisons: those with a NaN are false, and others are total.
  pub record Compares : Type 0 where
    pub zero-zero : le zero zero ≡ true
    pub zero-max : le zero max_float ≡ true
    pub max-max : le max_float max_float ≡ true
    pub trans : (a b c : Float64) → le a b ≡ true → le b c ≡ true → le a c ≡ true
    pub sane : (a b : Float64) → le a b ≡ true → is_nan b ≡ false
    pub total : (a : Float64) → is_nan a ≡ false → le a zero ≡ false → le zero a ≡ true
    pub below_max :
        (a : Float64) → is_nan a ≡ false → lt max_float a ≡ false → le a max_float ≡ true
    pub over_max : (a b : Float64) → lt max_float a ≡ true → le a b ≡ true → lt max_float b ≡ true

  -- a ≤ b, and neither is negative or a NaN.
  abbrev pub Below : Float64 → Float64 → Type 0
  Below a b = (le zero a ≡ true) × (le a b ≡ true)

  -- A price that is a finite positive number, or 0.
  abbrev pub Usable : Float64 → Type 0
  Usable p = (is_price F p ≡ true) ⊎ (p ≡ zero)

  -- What it says of rounded arithmetic on numbers that are not negative: it is monotone.
  pub record Rounds : Type 0 where
    pub zero_finite : is_inf zero ≡ false
    pub sums : (a a' b b' : Float64) → Below a a' → Below b b' → Below (add a b) (add a' b')
    pub longer : (a b c : Float64) → Below a b → le zero c ≡ true → Below a (add b c)
    pub tokens :
        (m n : ℕ) (p : Float64)
        → m ≤ n
        → Usable p
        → Below (over_1000000 (mul (count m) p)) (over_1000000 (mul (count n) p))
    pub searches :
        (m n : ℕ) (p : Float64)
        → m ≤ n
        → Usable p
        → Below (over_1000 (mul (count m) p)) (over_1000 (mul (count n) p))
    pub minutes :
        (s t p : Float64)
        → Below s t
        → is_inf t ≡ false
        → Usable p
        → Below (mul (over_60 s) p) (mul (over_60 t) p)
    pub halves : (a b : Float64) → Below a b → Below (half a) (half b)

  -- EstimateCost is a number from 0 to the largest float64, whatever prices are registered, whatever
  -- the counts are, and whatever float64 arithmetic gives for them.
  pub estimate_cost-bounds :
      (h : Compares) (r : Registry (Prices F)) (i : CostInput F)
      → (le zero (estimate_cost F r i) ≡ true) × (le (estimate_cost F r i) max_float ≡ true)
  unfolding estimate_cost saturate_cost
  estimate_cost-bounds h r i =
      let out = tokens_total F r i in
      let c = add_searches F out.1 i.web_searches out.0 in
      (
        ground (arith, h.zero-zero, h.zero-max, h.total c),
        ground (arith, h.zero-max, h.max-max, h.below_max c),
      )

  saturate_cost-Below :
      (h : Compares) (a b : Float64) → Below a b → Below (saturate_cost F a) (saturate_cost F b)
  unfolding saturate_cost
  saturate_cost-Below h a b p = ground (
    arith,
    p.0,
    p.1,
    h.zero-zero,
    h.zero-max,
    h.max-max,
    h.sane a b p.1,
    h.sane zero a p.0,
    h.trans a b zero p.1,
    h.trans zero a b p.0 p.1,
    h.over_max a b,
    h.below_max a,
    h.total b,
    h.below_max b,
  )

  sanitize_price-Usable : (p : Float64) → Usable (sanitize_price F p)
  unfolding sanitize_price
  sanitize_price-Usable p = elim (Bool-cases (is_price F p)) [
    | inl e ↦ rw e (inl e)
    | inr e ↦ rw e (inr refl)
  ]

  -- Of each count that has a price of its own, no less: audio input tokens and the other input tokens,
  -- 1-hour cache writes and the other cache writes, and so on; both in a batch, or neither.
  pub record Fewer (a b : TokenCounts F) : Type 0 where
    pub plain_input :
        pos_part a.input_tokens - share F a.audio_tokens a.input_tokens
        ≤ pos_part b.input_tokens - share F b.audio_tokens b.input_tokens
    pub audio_input : share F a.audio_tokens a.input_tokens ≤ share F b.audio_tokens b.input_tokens
    pub output : pos_part a.output_tokens ≤ pos_part b.output_tokens
    pub thinking : pos_part a.thinking_tokens ≤ pos_part b.thinking_tokens
    pub write :
        pos_part a.cache_create - share F a.cache_create_1h a.cache_create
        ≤ pos_part b.cache_create - share F b.cache_create_1h b.cache_create
    pub write_1h :
        share F a.cache_create_1h a.cache_create ≤ share F b.cache_create_1h b.cache_create
    pub read : pos_part a.cache_read ≤ pos_part b.cache_read
    pub seconds : Below (sane_seconds F a.audio_seconds) (sane_seconds F b.audio_seconds)
    pub batch : a.batch ≡ b.batch

  module _ (w : Rounds) where
    per_token-Below : (m n : ℕ) (p : Float64) → m ≤ n → Below (per_token F m p) (per_token F n p)
    unfolding per_token
    per_token-Below m n p l = w.tokens m n (sanitize_price F p) l (sanitize_price-Usable p)

    sane_seconds-finite : (s : Float64) → is_inf (sane_seconds F s) ≡ false
    unfolding sane_seconds
    sane_seconds-finite s = ground (arith, w.zero_finite)

    token_cost-Below :
        (p : Prices F) (a b : TokenCounts F)
        → Fewer a b
        → Below (token_cost F p a) (token_cost F p b)
    unfolding token_cost input_cost output_cost cache_cost
    token_cost-Below p a b l =
        let seconds =
          w.minutes (sane_seconds F a.audio_seconds) (sane_seconds F b.audio_seconds)
            (sanitize_price F p.audio_minute) l.seconds (sane_seconds-finite b.audio_seconds)
            (sanitize_price-Usable p.audio_minute) in
        let input =
          w.sums _ _ _ _
            (w.sums _ _ _ _ (per_token-Below _ _ p.input l.plain_input)
              (per_token-Below _ _ p.audio_input l.audio_input))
            seconds in
        let output =
          w.sums _ _ _ _ (per_token-Below _ _ p.output l.output)
            (per_token-Below _ _ p.output l.thinking) in
        let cache =
          w.sums _ _ _ _
            (w.sums _ _ _ _ (per_token-Below _ _ p.cache_write l.write)
              (per_token-Below _ _ (write_1h_price F p) l.write_1h))
            (per_token-Below _ _ (cache_read_price F p) l.read) in
        let total = w.sums _ _ _ _ (w.sums _ _ _ _ input output) cache in
        rw l.batch (batched b.batch _ _ total)
      where
        batched :
            (c : Bool) (x y : Float64)
            → Below x y
            → Below (if c then half x else x) (if c then half y else y)
        batched true x y q = w.halves x y q
        batched false x y q = q

  module _ (h : Compares) (w : Rounds) where
    total_of-Below :
        (o : Option (Prices F)) (a b : TokenCounts F)
        → Fewer a b
        → Below (total_of F o a) (total_of F o b)
    total_of-Below none a b l = (h.zero-zero, h.zero-zero)
    total_of-Below (some p) a b l = token_cost-Below w p a b l

    add_searches-Below :
        (o : Option (Prices F)) (m n : ℤ) (x y : Float64)
        → pos_part m ≤ pos_part n
        → Below x y
        → Below (add_searches F o m x) (add_searches F o n y)
    unfolding add_searches
    add_searches-Below none m n x y l q = q
    add_searches-Below (some p) m n x y l q =
        let good = sanitize_price-Usable p.web_search in
        let more = w.searches (pos_part m) (pos_part n) (sanitize_price F p.web_search) l good in
        let own =
          w.searches (pos_part n) (pos_part n) (sanitize_price F p.web_search) (omega arith) good in
        elim (Bool-cases (ltb 0 (pos_part n))) [
          | inl e ↦ elim (Bool-cases (ltb 0 (pos_part m))) [
            | inl f ↦ rw (e, f) (w.sums _ _ _ _ q more)
            | inr f ↦ rw (e, f) (w.longer _ _ _ q own.0)
          ]
          | inr e ↦ let f : ltb 0 (pos_part m) ≡ false = ground (arith, e, l) in rw (e, f) q
        ]

    -- Two requests of one model without iterations, both in a batch or neither. The second has no fewer
    -- audio input tokens and no fewer other input tokens, no fewer 1-hour cache writes and no fewer
    -- other cache writes, and no fewer output tokens, thinking tokens, cache reads, audio seconds and
    -- web searches. Then it is estimated to cost at least as much. Comparisons and rounding are those
    -- of IEEE 754.
    pub estimate_cost-Below :
        (r : Registry (Prices F)) (a b : CostInput F)
        → a.iterations ≡ []
        → b.iterations ≡ []
        → a.model ≡ b.model
        → Fewer a.usage b.usage
        → pos_part a.web_searches ≤ pos_part b.web_searches
        → Below (estimate_cost F r a) (estimate_cost F r b)
    unfolding estimate_cost tokens_total
    estimate_cost-Below r a b ea eb em l s =
        let prices = prices_of F (pricing_for b.model r) in
        rw (ea, eb, em)
          (saturate_cost-Below h _ _ (
            add_searches-Below prices a.web_searches b.web_searches _ _ s
              (total_of-Below prices a.usage b.usage l)))
