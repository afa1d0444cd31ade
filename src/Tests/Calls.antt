-- ===== src/Tests/Calls.antt =====
-- pool.go's PooledClient, fallback_modality.go and transport.go: runs at concrete inputs.
use rho_llm.Base.{
  ℕ, zero, suc, ltb, ◌*◌, ◌/◌, ◌≤◌, ◌≡◌, ◌⊎◌, inl, inr, Text, text, Bool, true, false, Option, List,
  none, some, [], ◌∷◌, ℤ, pos,
}
use rho_llm.Clock.{never}
use rho_llm.Errors.{GoError, api}
use rho_llm.Retry.{Floats, RetryPolicy}
use rho_llm.AuthPool.{healthy_count}
use rho_llm.AuthPool.Profile.{AuthProfile}
use rho_llm.Pooled.{PoolConfig, Shared, World, max_retries}
use rho_llm.Pooled.Complete.{complete}
use rho_llm.Pooled.Streaming.{Streams, stream}
use rho_llm.Pooled.Streaming.Delivery.{Yielded, stream-Yielded}
use rho_llm.Pooled.Calls.{call_numbers, range_from, complete_calls}
use rho_llm.Fallback.{try_each, failover_transient_only}
use rho_llm.Fallback.Chain.{Stops, try_each_lem}
use rho_llm.Transport.{HttpConfig, HttpWorld, HttpResponse, do_http, http_attempts}
use rho_llm.Transport.Loop.{Sends, do_http-Sends}

-- Floating-point numbers as percentages.
abbrev scaled : ℤ → ℕ → ℤ
scaled (pos d) f = pos (d * f / 100)
scaled d f = d

abbrev percent : Floats
percent = record { Float64 = ℕ; scale = scaled; is_positive = λ f. ltb 0 f }

abbrev doubling : RetryPolicy percent
doubling = record { base_delay = pos 1000; max_delay = pos 8000; factor = 200; jitter = 0 }

abbrev overloaded : GoError
overloaded = api (record {
  status_code = 503;
  message = [];
  provider = text "p";
  retryable = true;
  retry_after = pos 0;
})

-- A provider that is overloaded at its first call, and a clock that a sleep does not move.
abbrev answers : ℕ → ℕ → Shared ℕ → (Text ⊎ GoError) × Shared ℕ
answers zero c s = (inr overloaded, s)
answers (suc i) c s = (inl (text "hello"), s)

abbrev world : World
world = record {
  Client = ℕ;
  Response = Text;
  floats = percent;
  policy = doubling;
  draw = λ i d. pos 0;
  call = answers;
  client_func = λ i p s. (inl (suc i), s);
  ctx_err = λ i. none;
  sleep = λ i d s. (none, s);
  deadline = none;
  redact = λ t k u. t;
  duration_string = λ d. text "1s";
}

abbrev config : PoolConfig
config = record {
  circuit_threshold = pos 0;
  circuit_cooldown = pos 0;
  cooldown_rate_limit = pos 0;
  cooldown_overload = pos 0;
  cooldown_default = pos 0;
  max_retries = pos 4;
  retry_budget = pos 0;
  disable_retries = false;
}

abbrev key : Text → AuthProfile
key name = record {
  name = name;
  api_key = text "k";
  base_url = [];
  is_healthy = true;
  last_used = never;
  last_error = [];
  cooldown = never;
}

abbrev shared : Shared ℕ
shared = record {
  pool = record {
    provider = text "p";
    profiles = key (text "a") ∷ key (text "b") ∷ [];
    current = 0;
  };
  breaker = none;
  rc = some 0;
  active_name = text "a";
  now = 7;
}

complete_calls_example :
    (k : ℕ) × (k ≤ max_retries config (healthy_count shared.pool.profiles))
    × (call_numbers (complete world config shared).2 ≡ range_from 0 k)
complete_calls_example = complete_calls world config shared

-- The first of two deployments is overloaded.
abbrev deployed : ℕ → ℕ → Text ⊎ GoError
deployed i zero = inr overloaded
deployed i (suc c) = inl (text "hello")

abbrev live : ℕ → Bool
live i = false

try_each_lem_example :
    Stops
      (λ c. text "p")
      deployed
      live
      failover_transient_only
      0
      0
      (1 ∷ [])
      (try_each (λ c. text "p") deployed live failover_transient_only 0 (1 ∷ []))
try_each_lem_example = try_each_lem (λ c. text "p") deployed live failover_transient_only 0 (1 ∷ [])

abbrev http_config : HttpConfig
http_config = record {
  disable_retries = false;
  max_retries = pos 0;
  retry_budget = pos 0;
  provider = text "p";
  non_idempotent = true;
}

abbrev busy : HttpResponse
busy = record { status_code = 503; status = text "503"; retry_after = none }

abbrev fine : HttpResponse
fine = record { status_code = 200; status = text "200"; retry_after = none }

abbrev served : ℕ → HttpResponse ⊎ GoError
served zero = inl busy
served (suc i) = inl fine

abbrev http_world : HttpWorld
http_world = record {
  floats = percent;
  policy = doubling;
  draw = λ i d. pos 0;
  build = λ i. none;
  send = served;
  ctx_err = λ i. none;
  interrupted = λ i. none;
  start = 0;
  now = λ i. i;
  deadline = none;
}

do_http-Sends_example :
    Sends http_world http_config (http_attempts http_config) 0 (do_http http_world http_config)
do_http-Sends_example = do_http-Sends http_world http_config

-- A first attempt that fails before any event, and a second one that yields two; the consumer stops
-- at the first.
abbrev streams_of : ℕ → List (Text × Option GoError)
streams_of zero = ([], some overloaded) ∷ []
streams_of (suc i) = (text "content", none) ∷ (text "done", none) ∷ []

abbrev streams : Streams world
streams = record {
  Event = Text;
  no_event = [];
  event_type = λ t. t;
  open_stream = λ i c s. streams_of i;
  during = λ i c s n. s;
  takes = λ given. false;
}

stream-Yielded_example :
    let out = stream world streams config shared in
    (k : ℕ) × ((k ≤ max_retries config (healthy_count shared.pool.profiles))
      × ((call_numbers out.2 ≡ range_from 0 k) × Yielded world streams k out.0))
stream-Yielded_example = stream-Yielded world streams config shared
