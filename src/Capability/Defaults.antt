-- ===== src/Capability/Defaults.antt =====
-- capability_metadata.go: canonicalProvider, supportsSamplingTemperature and defaultChatCapabilities.
use rho_llm.Base.{
  ℕ, Text, text, text_eq, to_lower, Bool, true, false, ◌&&◌, ◌||◌, not, List, [], ◌∷◌, ◌==◌, leb,
  if◌then◌else◌, member,
}
use rho_llm.Capability.{
  chat, stream, tools, structured_output, vision, document_input, batch, transcription, reasoning,
  temperature, CapabilitySet, no_capabilities, capabilities, with_capability, union, ModelInfo,
}

-- unicode.IsSpace on the first rune of a string, in UTF-8: the bytes of the rune, or none.
abbrev pub is_ascii_space : ℕ → Bool
is_ascii_space c = c == b' ' || (leb 9 c && leb c 13)

abbrev pub is_space_2 : ℕ → ℕ → Bool
is_space_2 a b = a == 194 && (b == 133 || b == 160)

abbrev pub is_space_3 : ℕ → ℕ → ℕ → Bool
is_space_3 a b c =
    (a == 225 && (b == 154 && c == 128))
    || ((a == 226
          && ((b == 128 && ((leb 128 c && leb c 138) || (c == 168 || (c == 169 || c == 175))))
              || (b == 129 && c == 159)))
        || (a == 227 && (b == 128 && c == 128)))

-- strings.TrimLeft of white space.
unfoldable pub trim_start : Text → Text
trim_start [] = []
trim_start (a ∷ []) = if is_ascii_space a then [] else a ∷ []
trim_start (a ∷ b ∷ []) =
    let one = trim_start (b ∷ []) in
    if is_ascii_space a then one else if is_space_2 a b then [] else a ∷ b ∷ []
trim_start (a ∷ b ∷ c ∷ s) =
    let one = trim_start (b ∷ c ∷ s) in
    let two = trim_start (c ∷ s) in
    let three = trim_start s in
    if is_ascii_space a
    then one
    else if is_space_2 a b
    then two
    else if is_space_3 a b c
    then three
    else a ∷ b ∷ c ∷ s

abbrev pub is_blank : Text → Bool
is_blank [] = true
is_blank (c ∷ s) = false

-- Without the white space at the end.
unfoldable pub trim_end : Text → Text
trim_end [] = []
trim_end (a ∷ s) = let rest = trim_end s in if is_blank (trim_start (a ∷ s)) then [] else a ∷ rest

-- strings.TrimSpace.
unfoldable pub trim_space : Text → Text
trim_space s = trim_end (trim_start s)

unfoldable pub canonical_name : Text → Text
canonical_name p =
    if text_eq p (text "claude")
    then text "anthropic"
    else if text_eq p (text "google")
    then text "gemini"
    else if text_eq p (text "grok")
    then text "xai"
    else if member p (text "qwen" ∷ text "dashscope-cn" ∷ text "qwen-cn" ∷ [])
    then text "dashscope"
    else if member p (text "z-ai" ∷ text "glm" ∷ [])
    then text "zai"
    else if member p (text "kimi" ∷ text "moonshot-cn" ∷ text "kimi-cn" ∷ [])
    then text "moonshot"
    else if text_eq p (text "openai_responses")
    then text "openai"
    else p

-- canonicalProvider.
unfoldable pub canonical_provider : Text → Text
canonical_provider provider = canonical_name (to_lower (trim_space provider))

-- sameProviderFamily.
unfoldable pub same_provider_family : Text → Text → Bool
same_provider_family left right = text_eq (canonical_provider left) (canonical_provider right)

abbrev pub anthropic_without_sampling_controls : List Text
anthropic_without_sampling_controls =
    text "claude-fable-5-1"
    ∷ text "claude-fable-5"
    ∷ text "claude-opus-5-5"
    ∷ text "claude-opus-5"
    ∷ text "claude-opus-4-8"
    ∷ text "claude-opus-4-7"
    ∷ text "claude-sonnet-5-5"
    ∷ text "claude-sonnet-5"
    ∷ text "claude-haiku-5-5"
    ∷ []

abbrev pub gemini_without_sampling_controls : List Text
gemini_without_sampling_controls =
    text "gemini-4-argon"
    ∷ text "gemini-3.5-flash-lite"
    ∷ text "gemini-3.6-flash"
    ∷ text "gemini-3.7-flash"
    ∷ text "gemini-3.8-flash"
    ∷ []

-- What the provider's family adds.
unfoldable pub family_capabilities : Text → CapabilitySet
family_capabilities provider =
    if text_eq provider (text "anthropic")
    then capabilities (structured_output ∷ vision ∷ document_input ∷ batch ∷ [])
    else if text_eq provider (text "gemini")
    then capabilities (structured_output ∷ vision ∷ document_input ∷ batch ∷ transcription ∷ [])
    else if text_eq provider (text "openai")
    then capabilities (structured_output ∷ vision ∷ document_input ∷ batch ∷ [])
    else if member provider (
        text "xai"
        ∷ text "meta"
        ∷ text "groq"
        ∷ text "mistral"
        ∷ text "openrouter"
        ∷ text "together"
        ∷ text "fireworks"
        ∷ text "deepinfra"
        ∷ text "nvidia"
        ∷ text "cerebras"
        ∷ text "deepseek"
        ∷ text "cohere"
        ∷ text "dashscope"
        ∷ text "zai"
        ∷ text "minimax"
        ∷ text "moonshot"
        ∷ text "perplexity"
        ∷ [])
    then capabilities (structured_output ∷ vision ∷ document_input ∷ [])
    else no_capabilities

module _ {Rest : Type 0} where
  -- supportsSamplingTemperature.
  unfoldable pub supports_sampling_temperature : ModelInfo Rest → Bool
  supports_sampling_temperature info =
      let provider = canonical_provider info.provider in
      if member info.id anthropic_without_sampling_controls
      then false
      else if (text_eq provider (text "openai") || text_eq provider (text "xai"))
          && (info.thinking || info.responses_api)
      then false
      else not (member info.id gemini_without_sampling_controls)

  -- defaultChatCapabilities.
  unfoldable pub default_chat_capabilities : ModelInfo Rest → CapabilitySet
  default_chat_capabilities info =
      let base = capabilities (chat ∷ stream ∷ []) in
      let tooled = if not info.no_tool_support then with_capability tools base else base in
      let reasoned =
        if info.supports_thinking || info.responses_api
        then with_capability reasoning tooled
        else tooled in
      let warm =
        if supports_sampling_temperature info
        then with_capability temperature reasoned
        else reasoned in
      union warm (family_capabilities (canonical_provider info.provider))
