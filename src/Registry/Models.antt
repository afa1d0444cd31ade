-- ===== src/Registry/Models.antt =====
-- registry.go: the built-in tables. Of a model, its provider, the flags and its capabilities are
-- listed; limits, prices and labels are not.
use Prim.Native.String.{String}
use rho_llm.Base.{Text, text, Bool, true, false, List, [], ◌∷◌}
use rho_llm.Capability.{
  Capability, ModelInfo, embeddings, batch, image_generation, speech_synthesis, transcription,
  capabilities, no_capabilities, CapabilitySet,
}

abbrev Row : Type 0
Row = Text × ModelInfo Unit

abbrev row : Bool → Bool → Bool → Bool → CapabilitySet → String → String → Row
row supports_thinking thinking responses_api no_tool_support set id provider = (
  text id,
  record {
    id = text id;
    provider = text provider;
    supports_thinking = supports_thinking;
    thinking = thinking;
    responses_api = responses_api;
    no_tool_support = no_tool_support;
    capabilities = set;
    rest = tt;
  },
)

abbrev plain : String → String → Row
plain = row false false false false no_capabilities

abbrev levelled : String → String → Row
levelled = row true false false false no_capabilities

abbrev thinker : String → String → Row
thinker = row false true false false no_capabilities

abbrev responder : String → String → Row
responder = row false true true false no_capabilities

abbrev toolless : String → String → Row
toolless = row false false false true no_capabilities

abbrev toolless_thinker : String → String → Row
toolless_thinker = row false true false true no_capabilities

abbrev only : List Capability → String → String → Row
only set = row false false false false (capabilities set)

-- modelRegistry.
abbrev pub built_in_models : List (Text × ModelInfo Unit)
built_in_models =
    levelled "claude-fable-5-1" "anthropic"
    ∷ levelled "claude-opus-5-5" "anthropic"
    ∷ levelled "claude-sonnet-5-5" "anthropic"
    ∷ levelled "claude-haiku-5-5" "anthropic"
    ∷ levelled "claude-fable-5" "anthropic"
    ∷ levelled "claude-opus-5" "anthropic"
    ∷ levelled "claude-sonnet-5" "anthropic"
    ∷ levelled "claude-opus-4-8" "anthropic"
    ∷ levelled "claude-opus-4-7" "anthropic"
    ∷ levelled "claude-opus-4-6" "anthropic"
    ∷ levelled "claude-opus-4-5" "anthropic"
    ∷ levelled "claude-opus-4-5-20251101" "anthropic"
    ∷ levelled "claude-sonnet-4-6" "anthropic"
    ∷ levelled "claude-sonnet-4-5" "anthropic"
    ∷ levelled "claude-sonnet-4-5-20250929" "anthropic"
    ∷ levelled "claude-haiku-4-5-20251001" "anthropic"
    ∷ levelled "claude-haiku-4-5" "anthropic"
    ∷ thinker "grok-4.7" "xai"
    ∷ thinker "grok-4.6" "xai"
    ∷ thinker "grok-4.5" "xai"
    ∷ thinker "grok-4.3" "xai"
    ∷ thinker "grok-4.20-0309-reasoning" "xai"
    ∷ plain "grok-4.20-0309-non-reasoning" "xai"
    ∷ thinker "grok-4.20-multi-agent-0309" "xai"
    ∷ thinker "grok-build-0.1" "xai"
    ∷ thinker "grok-4.20-beta" "xai"
    ∷ thinker "grok-4.20-beta-0309-reasoning" "xai"
    ∷ plain "grok-4.20-beta-0309-non-reasoning" "xai"
    ∷ thinker "grok-4.20-multi-agent-beta-0309" "xai"
    ∷ thinker "grok-4-1-fast-reasoning" "xai"
    ∷ plain "grok-4-1-fast-non-reasoning" "xai"
    ∷ thinker "grok-4-fast-reasoning" "xai"
    ∷ plain "grok-4-fast-non-reasoning" "xai"
    ∷ thinker "grok-4-0709" "xai"
    ∷ thinker "grok-code-fast-1" "xai"
    ∷ plain "grok-3" "xai"
    ∷ thinker "grok-3-mini" "xai"
    ∷ levelled "gemini-4-argon" "gemini"
    ∷ levelled "gemini-3.8-flash" "gemini"
    ∷ levelled "gemini-3.7-flash" "gemini"
    ∷ levelled "gemini-3.6-flash" "gemini"
    ∷ levelled "gemini-3.5-flash" "gemini"
    ∷ levelled "gemini-3.5-flash-lite" "gemini"
    ∷ levelled "gemini-3.1-pro-preview" "gemini"
    ∷ levelled "gemini-3.1-pro-preview-customtools" "gemini"
    ∷ levelled "gemini-3.1-flash-lite" "gemini"
    ∷ levelled "gemini-3-flash-preview" "gemini"
    ∷ thinker "gemini-2.5-pro" "gemini"
    ∷ thinker "gemini-2.5-flash" "gemini"
    ∷ thinker "gemini-2.5-flash-lite" "gemini"
    ∷ only (embeddings ∷ batch ∷ []) "gemini-embedding-001" "gemini"
    ∷ only (embeddings ∷ batch ∷ []) "gemini-embedding-2" "gemini"
    ∷ only (image_generation ∷ batch ∷ []) "gemini-2.5-flash-image" "gemini"
    ∷ only (image_generation ∷ batch ∷ []) "gemini-3-pro-image" "gemini"
    ∷ only (image_generation ∷ batch ∷ []) "gemini-3.1-flash-image" "gemini"
    ∷ only (image_generation ∷ batch ∷ []) "gemini-3.1-flash-lite-image" "gemini"
    ∷ only (image_generation ∷ batch ∷ []) "gemini-nano-banana-2.1" "gemini"
    ∷ only (image_generation ∷ batch ∷ []) "gemini-3-pro-image-preview" "gemini"
    ∷ only (transcription ∷ []) "gemini-3.5-transcribe" "gemini"
    ∷ responder "gpt-6-astra" "openai"
    ∷ responder "gpt-6.1-sol" "openai"
    ∷ responder "gpt-6.1-terra" "openai"
    ∷ responder "gpt-6-sol" "openai"
    ∷ responder "gpt-6-luna" "openai"
    ∷ responder "gpt-5.6-sol" "openai"
    ∷ responder "gpt-5.6-terra" "openai"
    ∷ responder "gpt-5.6-luna" "openai"
    ∷ responder "gpt-5.5-pro" "openai"
    ∷ responder "gpt-5.5" "openai"
    ∷ responder "gpt-5.4-pro" "openai"
    ∷ responder "gpt-5.4" "openai"
    ∷ responder "gpt-5.4-mini" "openai"
    ∷ responder "gpt-5.4-nano" "openai"
    ∷ responder "gpt-5.3-codex" "openai"
    ∷ responder "gpt-5.2" "openai"
    ∷ responder "gpt-5.2-pro" "openai"
    ∷ responder "gpt-5.1" "openai"
    ∷ responder "gpt-5" "openai"
    ∷ responder "gpt-5-pro" "openai"
    ∷ responder "gpt-5-mini" "openai"
    ∷ responder "gpt-5-nano" "openai"
    ∷ plain "gpt-4.1" "openai"
    ∷ plain "gpt-4.1-mini" "openai"
    ∷ thinker "o3" "openai"
    ∷ thinker "o3-pro" "openai"
    ∷ plain "llama-3.3-70b-versatile" "groq"
    ∷ plain "llama-3.1-8b-instant" "groq"
    ∷ plain "openai/gpt-oss-120b" "groq"
    ∷ plain "openai/gpt-oss-20b" "groq"
    ∷ plain "mistral-large-2512" "mistral"
    ∷ plain "mistral-medium-latest" "mistral"
    ∷ thinker "mistral-small-2603" "mistral"
    ∷ plain "codestral-2508" "mistral"
    ∷ plain "ministral-8b-2512" "mistral"
    ∷ plain "ministral-14b-2512" "mistral"
    ∷ only (embeddings ∷ []) "mistral-embed" "mistral"
    ∷ plain "mistral-large-latest" "mistral"
    ∷ plain "codestral-latest" "mistral"
    ∷ thinker "deepseek-flash" "deepseek"
    ∷ thinker "deepseek-v4-flash" "deepseek"
    ∷ thinker "deepseek-v4-pro" "deepseek"
    ∷ plain "command-a-03-2025" "cohere"
    ∷ thinker "glm-5.3" "zai"
    ∷ thinker "glm-5.3-flash" "zai"
    ∷ thinker "glm-5.2" "zai"
    ∷ thinker "glm-4.7" "zai"
    ∷ plain "glm-4.6" "zai"
    ∷ plain "MiniMax-M3" "minimax"
    ∷ thinker "MiniMax-M3.1-Flash" "minimax"
    ∷ plain "MiniMax-M2.5" "minimax"
    ∷ thinker "kimi-k2.7-code" "moonshot"
    ∷ thinker "kimi-k2.5" "moonshot"
    ∷ plain "moonshot-v1-128k" "moonshot"
    ∷ plain "sonar" "perplexity"
    ∷ plain "sonar-pro" "perplexity"
    ∷ thinker "sonar-reasoning-pro" "perplexity"
    ∷ thinker "sonar-deep-research" "perplexity"
    ∷ thinker "accounts/fireworks/models/kimi-k3" "fireworks"
    ∷ thinker "accounts/fireworks/models/glm-5p3" "fireworks"
    ∷ thinker "accounts/fireworks/models/glm-5p3-flash" "fireworks"
    ∷ plain "accounts/fireworks/models/minimax-m3" "fireworks"
    ∷ thinker "accounts/fireworks/models/deepseek-v4p1-flash" "fireworks"
    ∷ thinker "accounts/fireworks/models/qwen3p8-max" "fireworks"
    ∷ thinker "moonshotai/Kimi-K3" "together"
    ∷ thinker "zai-org/GLM-5.3" "together"
    ∷ thinker "zai-org/GLM-5.3-Flash" "together"
    ∷ thinker "deepseek-ai/DeepSeek-V4.1-Flash" "together"
    ∷ thinker "Qwen/Qwen3.8-Flash" "together"
    ∷ thinker "Qwen/Qwen3-32B" "deepinfra"
    ∷ plain "meta-llama/Meta-Llama-3.1-8B-Instruct" "deepinfra"
    ∷ thinker "deepseek-ai/DeepSeek-V4-Flash" "deepinfra"
    ∷ thinker "muse-spark-1.2" "meta"
    ∷ thinker "muse-spark-1.1" "meta"
    ∷ thinker "muse-spark-1.2-contributor" "meta"
    ∷ plain "nvidia/nemotron-3-ultra-550b-a55b" "nvidia"
    ∷ plain "nvidia/llama-3.1-nemotron-70b-instruct" "nvidia"
    ∷ thinker "qwen3.8-max" "dashscope"
    ∷ thinker "qwen3.8-flash" "dashscope"
    ∷ thinker "qwen3.6-plus" "dashscope"
    ∷ thinker "qwen3.6-flash" "dashscope"
    ∷ thinker "qwen3-max" "dashscope"
    ∷ thinker "qwen3.5-omni-plus" "dashscope"
    ∷ thinker "qwen3.5-omni-flash" "dashscope"
    ∷ thinker "qwen3.5-omni-light" "dashscope"
    ∷ only (embeddings ∷ []) "text-embedding-v3" "dashscope"
    ∷ only (embeddings ∷ []) "text-embedding-v2" "dashscope"
    ∷ toolless_thinker "deepseek-r1:14b" "ollama"
    ∷ plain "mistral-small3.2:24b" "ollama"
    ∷ plain "qwen3-coder:30b" "ollama"
    ∷ thinker "qwen3.5:latest" "ollama"
    ∷ thinker "qwen3.5:27b" "ollama"
    ∷ thinker "qwen3:8b" "ollama"
    ∷ thinker "qwen3:4b" "ollama"
    ∷ thinker "gemma4:31b" "ollama"
    ∷ thinker "gemma4:26b" "ollama"
    ∷ thinker "gemma4:e4b" "ollama"
    ∷ toolless "gemma3:12b" "ollama"
    ∷ toolless "gemma3:4b" "ollama"
    ∷ toolless "gemma2:2b" "ollama"
    ∷ only (embeddings ∷ batch ∷ []) "text-embedding-3-small" "openai"
    ∷ only (embeddings ∷ batch ∷ []) "text-embedding-3-large" "openai"
    ∷ only (image_generation ∷ []) "gpt-image-2" "openai"
    ∷ only (speech_synthesis ∷ []) "tts-1" "openai"
    ∷ only (transcription ∷ []) "whisper-1" "openai"
    ∷ only (transcription ∷ []) "gpt-transcribe" "openai"
    ∷ only (transcription ∷ []) "gpt-4o-transcribe" "openai"
    ∷ only (transcription ∷ []) "gpt-4o-mini-transcribe" "openai"
    ∷ only (transcription ∷ []) "grok-voice-transcribe-2.0" "xai"
    ∷ []
