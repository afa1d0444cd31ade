-- ===== src/Registry/Tables.antt =====
-- registry.go: the built-in lists of models, aliases, default models and retired models.
use rho_llm.Base.{Text, text, List, [], ◌∷◌}

-- availableModels.
abbrev pub built_in_available : List (Text × List Text)
built_in_available =
    (
      text "anthropic",
      text "claude-fable-5-1"
          ∷ text "claude-opus-5-5"
          ∷ text "claude-sonnet-5-5"
          ∷ text "claude-haiku-5-5"
          ∷ text "claude-fable-5"
          ∷ text "claude-opus-5"
          ∷ text "claude-sonnet-5"
          ∷ text "claude-opus-4-8"
          ∷ text "claude-opus-4-7"
          ∷ text "claude-opus-4-6"
          ∷ text "claude-opus-4-5"
          ∷ text "claude-sonnet-4-6"
          ∷ text "claude-sonnet-4-5"
          ∷ text "claude-haiku-4-5"
          ∷ text "claude-haiku-4-5-20251001"
          ∷ [],
    )
    ∷ (
      text "xai",
      text "grok-4.7"
          ∷ text "grok-4.6"
          ∷ text "grok-4.5"
          ∷ text "grok-4.3"
          ∷ text "grok-4.20-0309-reasoning"
          ∷ text "grok-4.20-0309-non-reasoning"
          ∷ text "grok-4.20-multi-agent-0309"
          ∷ text "grok-build-0.1"
          ∷ text "grok-4.20-beta"
          ∷ text "grok-4.20-beta-0309-reasoning"
          ∷ text "grok-4.20-beta-0309-non-reasoning"
          ∷ text "grok-4.20-multi-agent-beta-0309"
          ∷ text "grok-4-1-fast-reasoning"
          ∷ text "grok-4-1-fast-non-reasoning"
          ∷ text "grok-4-fast-reasoning"
          ∷ text "grok-4-fast-non-reasoning"
          ∷ text "grok-4-0709"
          ∷ text "grok-code-fast-1"
          ∷ text "grok-3"
          ∷ text "grok-3-mini"
          ∷ [],
    )
    ∷ (
      text "gemini",
      text "gemini-4-argon"
          ∷ text "gemini-3.8-flash"
          ∷ text "gemini-3.7-flash"
          ∷ text "gemini-3.6-flash"
          ∷ text "gemini-3.5-flash"
          ∷ text "gemini-3.5-flash-lite"
          ∷ text "gemini-3.1-pro-preview"
          ∷ text "gemini-3.1-pro-preview-customtools"
          ∷ text "gemini-3.1-flash-lite"
          ∷ text "gemini-3-flash-preview"
          ∷ text "gemini-2.5-pro"
          ∷ text "gemini-2.5-flash"
          ∷ text "gemini-2.5-flash-lite"
          ∷ [],
    )
    ∷ (
      text "openai",
      text "gpt-6.1-sol"
          ∷ text "gpt-6.1-terra"
          ∷ text "gpt-6-astra"
          ∷ text "gpt-6-sol"
          ∷ text "gpt-6-luna"
          ∷ text "gpt-5.6-sol"
          ∷ text "gpt-5.6-terra"
          ∷ text "gpt-5.6-luna"
          ∷ text "gpt-5.5-pro"
          ∷ text "gpt-5.5"
          ∷ text "gpt-5.4-pro"
          ∷ text "gpt-5.4"
          ∷ text "gpt-5.4-mini"
          ∷ text "gpt-5.4-nano"
          ∷ text "gpt-5.3-codex"
          ∷ text "gpt-5.2-pro"
          ∷ text "gpt-5.2"
          ∷ text "gpt-5.1"
          ∷ text "gpt-5-pro"
          ∷ text "gpt-5"
          ∷ text "gpt-5-mini"
          ∷ text "gpt-5-nano"
          ∷ text "gpt-4.1"
          ∷ text "gpt-4.1-mini"
          ∷ text "o3-pro"
          ∷ text "o3"
          ∷ [],
    )
    ∷ (
      text "meta",
      text "muse-spark-1.2" ∷ text "muse-spark-1.1" ∷ text "muse-spark-1.2-contributor" ∷ [],
    )
    ∷ (
      text "groq",
      text "openai/gpt-oss-120b"
          ∷ text "openai/gpt-oss-20b"
          ∷ text "llama-3.3-70b-versatile"
          ∷ text "llama-3.1-8b-instant"
          ∷ [],
    )
    ∷ (
      text "mistral",
      text "mistral-large-2512"
          ∷ text "mistral-large-latest"
          ∷ text "mistral-medium-latest"
          ∷ text "mistral-small-2603"
          ∷ text "codestral-2508"
          ∷ text "codestral-latest"
          ∷ text "ministral-8b-2512"
          ∷ text "ministral-14b-2512"
          ∷ text "mistral-embed"
          ∷ [],
    )
    ∷ (
      text "deepseek",
      text "deepseek-flash" ∷ text "deepseek-v4-flash" ∷ text "deepseek-v4-pro" ∷ [],
    )
    ∷ (text "cohere", text "command-a-03-2025" ∷ [])
    ∷ (
      text "zai",
      text "glm-5.3" ∷ text "glm-5.3-flash" ∷ text "glm-5.2" ∷ text "glm-4.7" ∷ text "glm-4.6" ∷ [],
    )
    ∷ (text "minimax", text "MiniMax-M3" ∷ text "MiniMax-M3.1-Flash" ∷ text "MiniMax-M2.5" ∷ [])
    ∷ (text "moonshot", text "kimi-k2.7-code" ∷ text "kimi-k2.5" ∷ text "moonshot-v1-128k" ∷ [])
    ∷ (
      text "dashscope",
      text "qwen3.8-max"
          ∷ text "qwen3.8-flash"
          ∷ text "qwen3.6-plus"
          ∷ text "qwen3.6-flash"
          ∷ text "qwen3-max"
          ∷ text "qwen3.5-omni-plus"
          ∷ text "qwen3.5-omni-flash"
          ∷ text "qwen3.5-omni-light"
          ∷ text "text-embedding-v3"
          ∷ text "text-embedding-v2"
          ∷ [],
    )
    ∷ (
      text "dashscope-cn",
      text "qwen3.8-max"
          ∷ text "qwen3.8-flash"
          ∷ text "qwen3.6-plus"
          ∷ text "qwen3.6-flash"
          ∷ text "qwen3-max"
          ∷ text "qwen3.5-omni-plus"
          ∷ text "qwen3.5-omni-flash"
          ∷ text "qwen3.5-omni-light"
          ∷ text "text-embedding-v3"
          ∷ text "text-embedding-v2"
          ∷ [],
    )
    ∷ (text "moonshot-cn", text "kimi-k2.7-code" ∷ text "kimi-k2.5" ∷ text "moonshot-v1-128k" ∷ [])
    ∷ (
      text "ollama",
      text "deepseek-r1:14b"
          ∷ text "mistral-small3.2:24b"
          ∷ text "qwen3-coder:30b"
          ∷ text "qwen3.5:latest"
          ∷ text "qwen3.5:27b"
          ∷ text "qwen3:8b"
          ∷ text "qwen3:4b"
          ∷ text "gemma4:31b"
          ∷ text "gemma4:26b"
          ∷ text "gemma4:e4b"
          ∷ text "gemma3:12b"
          ∷ text "gemma3:4b"
          ∷ text "gemma2:2b"
          ∷ [],
    )
    ∷ []

-- modelAliases.
abbrev pub built_in_aliases : List (Text × Text)
built_in_aliases =
    (text "opus", text "claude-opus-5-5")
    ∷ (text "sonnet", text "claude-sonnet-5-5")
    ∷ (text "fable", text "claude-fable-5")
    ∷ (text "haiku", text "claude-haiku-5-5")
    ∷ (text "claude", text "claude-sonnet-5-5")
    ∷ (text "grok", text "grok-4.7")
    ∷ (text "grok4.7", text "grok-4.7")
    ∷ (text "grok-4-7", text "grok-4.7")
    ∷ (text "grok4.6", text "grok-4.6")
    ∷ (text "grok-4-6", text "grok-4.6")
    ∷ (text "grok4.5", text "grok-4.5")
    ∷ (text "grok-4-5", text "grok-4.5")
    ∷ (text "grok4.3", text "grok-4.3")
    ∷ (text "grok-4-3", text "grok-4.3")
    ∷ (text "grok4.2", text "grok-4.20-0309-reasoning")
    ∷ (text "grok4.20", text "grok-4.20-0309-reasoning")
    ∷ (text "grok4", text "grok-4.7")
    ∷ (text "grok-4", text "grok-4.7")
    ∷ (text "grok4.1", text "grok-4-1-fast-non-reasoning")
    ∷ (text "grok-4-1", text "grok-4-1-fast-non-reasoning")
    ∷ (text "grok-reasoning", text "grok-4-fast-reasoning")
    ∷ (text "grok-4-reasoning", text "grok-4-fast-reasoning")
    ∷ (text "grok-4-1-reasoning", text "grok-4-1-fast-reasoning")
    ∷ (text "grok-code", text "grok-code-fast-1")
    ∷ (text "grok-mini", text "grok-3-mini")
    ∷ (text "grok-build", text "grok-build-0.1")
    ∷ (text "groq", text "openai/gpt-oss-120b")
    ∷ (text "llama", text "llama-3.3-70b-versatile")
    ∷ (text "llama-70b", text "llama-3.3-70b-versatile")
    ∷ (text "llama-8b", text "llama-3.1-8b-instant")
    ∷ (text "llama4", text "meta-llama/llama-4-scout-17b-16e-instruct")
    ∷ (text "llama-4-scout", text "meta-llama/llama-4-scout-17b-16e-instruct")
    ∷ (text "gpt-oss", text "openai/gpt-oss-120b")
    ∷ (text "gpt-oss-20b", text "openai/gpt-oss-20b")
    ∷ (text "mistral-large", text "mistral-large-2512")
    ∷ (text "mistral-medium", text "mistral-medium-latest")
    ∷ (text "mistral-small", text "mistral-small-2603")
    ∷ (text "magistral", text "magistral-medium-2509")
    ∷ (text "codestral", text "codestral-2508")
    ∷ (text "devstral", text "devstral-2512")
    ∷ (text "devstral-small", text "devstral-small-2-2512")
    ∷ (text "ministral", text "ministral-8b-2512")
    ∷ (text "pixtral", text "pixtral-large-2411")
    ∷ (text "pixtral-large", text "pixtral-large-2411")
    ∷ (text "deepseek-cloud", text "deepseek-flash")
    ∷ (text "deepseek-v4", text "deepseek-flash")
    ∷ (text "deepseek-reasoner", text "deepseek-reasoner")
    ∷ (text "cohere", text "command-a-03-2025")
    ∷ (text "command-a", text "command-a-03-2025")
    ∷ (text "glm", text "glm-5.3")
    ∷ (text "glm5.3", text "glm-5.3")
    ∷ (text "glm-5-3", text "glm-5.3")
    ∷ (text "glm5.2", text "glm-5.2")
    ∷ (text "glm-5-2", text "glm-5.2")
    ∷ (text "glm4.7", text "glm-4.7")
    ∷ (text "glm-4-7", text "glm-4.7")
    ∷ (text "minimax", text "MiniMax-M3")
    ∷ (text "minimax-m3", text "MiniMax-M3")
    ∷ (text "minimax-m2.5", text "MiniMax-M2.5")
    ∷ (text "kimi", text "kimi-k2.7-code")
    ∷ (text "kimi-k2.5", text "kimi-k2.5")
    ∷ (text "kimi-k2.7", text "kimi-k2.7-code")
    ∷ (text "k2.7", text "kimi-k2.7-code")
    ∷ (text "qwen-cloud", text "qwen3.6-plus")
    ∷ (text "qwen-omni", text "qwen3.5-omni-plus")
    ∷ (text "deepseek", text "deepseek-r1:14b")
    ∷ (text "mistral-local", text "mistral-small3.2:24b")
    ∷ (text "qwen-local", text "qwen3:8b")
    ∷ (text "qwen-code", text "qwen3-coder:30b")
    ∷ (text "gemma", text "gemma4:e4b")
    ∷ (text "gemma4", text "gemma4:e4b")
    ∷ (text "gemma3", text "gemma3:12b")
    ∷ (text "gpt", text "gpt-6.1-sol")
    ∷ (text "gpt6", text "gpt-6-sol")
    ∷ (text "gpt-6", text "gpt-6-sol")
    ∷ (text "gpt6.1", text "gpt-6.1-sol")
    ∷ (text "gpt-6.1", text "gpt-6.1-sol")
    ∷ (text "gpt6-luna", text "gpt-6-luna")
    ∷ (text "gpt6-astra", text "gpt-6-astra")
    ∷ (text "gpt5.6", text "gpt-5.6-sol")
    ∷ (text "gpt-5.6", text "gpt-5.6-sol")
    ∷ (text "gpt5.6-sol", text "gpt-5.6-sol")
    ∷ (text "gpt5.6-terra", text "gpt-5.6-terra")
    ∷ (text "gpt5.6-luna", text "gpt-5.6-luna")
    ∷ (text "gpt5.5", text "gpt-5.5")
    ∷ (text "gpt5.5-pro", text "gpt-5.5-pro")
    ∷ (text "gpt5.4", text "gpt-5.4")
    ∷ (text "gpt5.3", text "gpt-5.3-chat-latest")
    ∷ (text "gpt5", text "gpt-5.6-sol")
    ∷ (text "gpt5.2", text "gpt-5.2")
    ∷ (text "gpt5.1", text "gpt-5.1")
    ∷ (text "gpt5-mini", text "gpt-5-mini")
    ∷ (text "gpt5-nano", text "gpt-5-nano")
    ∷ (text "gpt4.1", text "gpt-4.1")
    ∷ (text "gpt5.4-mini", text "gpt-5.4-mini")
    ∷ (text "gpt5.4-nano", text "gpt-5.4-nano")
    ∷ (text "gpt-instant", text "gpt-5.3-chat-latest")
    ∷ (text "muse", text "muse-spark-1.2")
    ∷ (text "muse-spark", text "muse-spark-1.2")
    ∷ (text "muse-spark-1", text "muse-spark-1.2")
    ∷ (text "gemini", text "gemini-3.5-flash-lite")
    ∷ (text "gemini3.6", text "gemini-3.6-flash")
    ∷ (text "gemini3.5", text "gemini-3.5-flash")
    ∷ (text "gemini3.5-lite", text "gemini-3.5-flash-lite")
    ∷ (text "gemini-pro", text "gemini-3.1-pro-preview")
    ∷ (text "gemini3.1", text "gemini-3.1-pro-preview")
    ∷ (text "gemini3.1-lite", text "gemini-3.1-flash-lite")
    ∷ (text "gemini3", text "gemini-3.1-pro-preview")
    ∷ (text "gemini-3", text "gemini-3.1-pro-preview")
    ∷ (text "flash", text "gemini-3.8-flash")
    ∷ (text "flash-lite", text "gemini-3.5-flash-lite")
    ∷ []

-- defaultModels.
abbrev pub default_models : List (Text × Text)
default_models =
    (text "anthropic", text "claude-sonnet-5-5")
    ∷ (text "claude", text "claude-sonnet-5-5")
    ∷ (text "xai", text "grok-4.7")
    ∷ (text "grok", text "grok-4.7")
    ∷ (text "gemini", text "gemini-3.5-flash-lite")
    ∷ (text "google", text "gemini-3.5-flash-lite")
    ∷ (text "openai", text "gpt-6.1-sol")
    ∷ (text "gpt", text "gpt-6.1-sol")
    ∷ (text "meta", text "muse-spark-1.2")
    ∷ (text "groq", text "openai/gpt-oss-120b")
    ∷ (text "mistral", text "mistral-small-2603")
    ∷ (text "deepseek", text "deepseek-flash")
    ∷ (text "cohere", text "command-a-03-2025")
    ∷ (text "zai", text "glm-5.3")
    ∷ (text "z-ai", text "glm-5.3")
    ∷ (text "glm", text "glm-5.3")
    ∷ (text "minimax", text "MiniMax-M3")
    ∷ (text "moonshot", text "kimi-k2.7-code")
    ∷ (text "kimi", text "kimi-k2.7-code")
    ∷ (text "moonshot-cn", text "kimi-k2.7-code")
    ∷ (text "kimi-cn", text "kimi-k2.7-code")
    ∷ (text "dashscope", text "qwen3.6-plus")
    ∷ (text "qwen", text "qwen3.6-plus")
    ∷ (text "dashscope-cn", text "qwen3.6-plus")
    ∷ (text "qwen-cn", text "qwen3.6-plus")
    ∷ (text "ollama", text "qwen3:8b")
    ∷ []

-- retiredModels.
abbrev pub retired_models : List (Text × Text)
retired_models =
    (text "claude-3-haiku-20240307", text "claude-haiku-4-5")
    ∷ (text "claude-opus-4-0", text "claude-opus-4-5")
    ∷ (text "claude-opus-4-1", text "claude-opus-4-5")
    ∷ (text "claude-opus-4-1-20250805", text "claude-opus-4-5")
    ∷ (text "claude-opus-4-20250514", text "claude-opus-4-5")
    ∷ (text "claude-sonnet-4-0", text "claude-sonnet-4-6")
    ∷ (text "claude-sonnet-4-20250514", text "claude-sonnet-4-6")
    ∷ (text "gpt-5.3-chat-latest", text "gpt-5.6-sol")
    ∷ (text "gpt-5.2-chat-latest", text "gpt-5.6-sol")
    ∷ (text "gpt-5.1-chat-latest", text "gpt-5.6-sol")
    ∷ (text "gpt-5-chat-latest", text "gpt-5.6-sol")
    ∷ (text "gpt-5-codex", text "gpt-5.6-sol")
    ∷ (text "gpt-4.1-nano", text "gpt-5.6-luna")
    ∷ (text "o4-mini", text "gpt-5.6-terra")
    ∷ (text "o3-mini", text "gpt-5.6-sol")
    ∷ (text "gpt-image-1", text "gpt-image-2")
    ∷ (text "gemini-2.0-flash", text "gemini-3.6-flash")
    ∷ (text "gemini-3-pro-preview", text "gemini-3.1-pro-preview")
    ∷ (text "mistral-small-2506", text "mistral-small-2603")
    ∷ (text "magistral-small-2509", text "mistral-small-2603")
    ∷ (text "magistral-medium-2509", text "mistral-medium-latest")
    ∷ (text "devstral-2512", text "mistral-medium-latest")
    ∷ (text "devstral-small-2-2512", text "mistral-medium-latest")
    ∷ (text "pixtral-large-2411", text "mistral-medium-latest")
    ∷ (text "pixtral-12b-2409", text "ministral-14b-2512")
    ∷ (text "deepseek-chat", text "deepseek-flash")
    ∷ (text "deepseek-reasoner", text "deepseek-flash")
    ∷ (text "deepseek-r1-distill-llama-70b", text "openai/gpt-oss-120b")
    ∷ (text "deepseek-r1-distill-qwen-32b", text "openai/gpt-oss-120b")
    ∷ (text "meta-llama/llama-4-scout-17b-16e-instruct", text "openai/gpt-oss-120b")
    ∷ (
      text "accounts/fireworks/models/fireworks/kimi-k2p7-code",
      text "accounts/fireworks/models/kimi-k3",
    )
    ∷ (
      text "accounts/fireworks/models/fireworks/kimi-k2p6",
      text "accounts/fireworks/models/kimi-k3",
    )
    ∷ (text "accounts/fireworks/models/fireworks/glm-5p2", text "accounts/fireworks/models/glm-5p3")
    ∷ (
      text "accounts/fireworks/models/fireworks/minimax-m3",
      text "accounts/fireworks/models/minimax-m3",
    )
    ∷ (
      text "accounts/fireworks/models/fireworks/deepseek-v4-pro",
      text "accounts/fireworks/models/deepseek-v4p1-flash",
    )
    ∷ (
      text "accounts/fireworks/models/fireworks/deepseek-v4-flash",
      text "accounts/fireworks/models/deepseek-v4p1-flash",
    )
    ∷ (
      text "accounts/fireworks/models/fireworks/qwen3p6-plus",
      text "accounts/fireworks/models/qwen3p8-max",
    )
    ∷ (text "deepseek-ai/DeepSeek-V3", text "deepseek-ai/DeepSeek-V4.1-Flash")
    ∷ (text "meta-llama/Llama-3.3-70B-Instruct-Turbo", text "deepseek-ai/DeepSeek-V4.1-Flash")
    ∷ (text "meta/llama-3.1-8b-instruct", text "nvidia/llama-3.1-nemotron-70b-instruct")
    ∷ []
