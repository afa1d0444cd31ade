-- ===== src/Lib.antt =====
-- Verification library of rho-llm, a Go library that talks to many LLM providers.
--
-- A chat call goes through a PooledClient (pool.go). It asks a circuit breaker
-- (circuitbreaker.go) for admission, takes a reference on the current client, calls the provider,
-- and on failure classifies the error (errors.go), marks the API key in the AuthPool, rotates to
-- another key or waits for a backoff (retrypolicy.go, retrybudget.go), and tries again. Other
-- operations (images, speech, embeddings, batches) go through DoHTTP (transport.go), which has its
-- own retry loop, and through chains of deployments (fallback_modality.go); they report their token
-- counts to a recorder (usage.go). What a stream yields is bracketed by StreamWithBoundaries
-- (streamevents.go) and folded into a response by CollectStream (streamfold.go). A Session
-- (session.go) keeps a transcript and has it normalized (normalize.go) before each turn. With
-- BlockPrivateBaseURL set, connections go only to checked addresses (privateaddr.go, egress.go,
-- proxytunnel.go). A RealtimeSession (realtime.go) is used by several goroutines at once.
--
-- Which file models which part:
--   Base        numbers, integers, lists and ASCII texts that all files share
--   Clock       instants and durations
--   Errors      errors.go: APIError, the wrappers as a data type, the constructors from an HTTP
--               status (Status), the texts (Render), and their classes (Classes)
--   Retry       retrypolicy.go, retrybudget.go: RetryPolicy.Delay, backoffFor, the retry budget,
--               parseRetryAfter (Hint)
--   Circuit     circuitbreaker.go: each locked method as a function, `step` over any of them, and
--               Execute; the callbacks that run after the mutex is released are steps of their own
--               (Transitions/Callbacks)
--   AuthPool    pool.go and AuthProfile of types.go: NewAuthPool, GetAvailable,
--               MarkFailedByNameWithCooldown, MarkSuccessByName, HealthyCount
--   RefCount    pool.go: refCountedClient, and the slot it lives in, as a step relation
--   Pooled      pool.go: rotateClient (Rotate), Complete (Complete) and Stream (Streaming), one helper
--               per branch; what follows an error is shared, with the prefix of its message
--   Stream      streamevents.go, and streamfold.go with SetParts of parts.go (Fold)
--   Fallback    fallback_modality.go: tryEach, isProviderFailure, FailoverTransientOnly
--   Transport   transport.go: DoHTTPWithOptions, SSEData (Events)
--   Usage       usage.go: ReportModalityUsage, saturatingAdd
--   Normalize   normalize.go: both passes of normalize, the fresh tool IDs, the comparison of models
--   Session     session.go, pauseturn.go: Send, Continue, Append, SwitchProvider, over the transcript
--   Validate    validate.go: ValidateToolCall (Calls), ValidateCacheMarkers (Markers)
--   Anthropic   provider/anthropic: streamblocks.go, and parseStream of anthropic.go (Parse)
--   OpenAi      provider/openaicompat/openaicompat.go: parseStream (Parse) with the tool calls that it
--               assembles by index
--   Gemini      provider/gemini/gemini.go: parseStream and the tool-call IDs. Stream/Terminal and
--               Stream/Keeping hold what the three adapters' streams share
--   Capability  capability_metadata.go: capability sets and the defaults of a model (Defaults)
--   Registry    registry.go: the built-in tables (Models, Tables), RegisterModel, RegisterModelAlias
--               and the lookups, over maps as lists of keys with their values; EstimateCost (Cost)
--   Network     privateaddr.go: the table of non-public ranges, checkHost; in Network/Egress egress.go
--               and proxytunnel.go: resolvePublic, interleave, race, refuseSelf, dial
--   Realtime    realtime.go: the codec, and the session as steps of its goroutines
--   Batch       batch.go: statuses, the checks of items and counts, WaitForBatch
--   Tests       the theorems at concrete inputs
--
-- State and effects. A method under a lock is a function from the state to the state. Where a
-- goroutine blocks (a provider call, the making of a client, a sleep), a parameter gives the answer
-- together with what the other goroutines have left: any shared state at all. What a call does
-- besides is a list of effects in order. Providers, the caller's context, the clock, the random
-- source, floating-point arithmetic, name lookup, the parsing of addresses and of JSON, and the
-- redaction of secrets are parameters. Where several goroutines run at once (the slot of a client, the
-- race of connections, a realtime session), a relation has a step for each section of code that runs
-- undisturbed, and the theorems are about every sequence of steps.
--
-- Bounds and fuel. An int is 64 bits wide where its overflow is in question (probe tokens, token
-- counts), and unbounded for failure counts and durations, which do not come near the limit. The
-- loops of Complete and DoHTTP count down the attempts that the code itself allows, so their fuel is
-- the code's own bound. The rotation of GetAvailable gets one unit for each key: it is back at its
-- start by then. The polling of WaitForBatch has no bound of its own: it runs on fuel, for as many
-- rounds as the world lets it go on. The loop of uniqueToolID gets a round for each ID in use: with one
-- candidate more than there are such IDs, one is free.
--
-- The lines of an adapter's stream are given, and its loop is recursion on them.
--
-- Not modelled: the provider adapters but for parseStream of provider/anthropic, provider/openaicompat
-- and provider/gemini, their requests and wire formats, Session.Stream, the checks of a batch handle's
-- strings, configuration, the limits, prices and labels of the built-in models, capability profiles, OAuth,
-- the CONNECT exchange and TLS, logging. In Session the normalization is any function,
-- and in Session/Replay the modelled one.
mod Base
pub mod Clock
pub mod Errors
pub mod Retry
pub mod AuthPool
pub mod RefCount
pub mod Pooled
pub mod Stream
pub mod Fallback
pub mod Usage
pub mod Transport
pub mod Session
pub mod Batch
pub mod Validate
pub mod Anthropic
pub mod OpenAi
pub mod Gemini
pub mod Capability
pub mod Registry
pub mod Network
pub mod Realtime
pub mod Normalize
pub mod Tests
pub mod Circuit
