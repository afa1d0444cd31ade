-- ===== src/Capability.antt =====
-- capability_metadata.go: capability sets and the defaults of a model that declares none. A set is a
-- uint64 whose named bits are `has`; `other_bits` is whether any other bit is set.
pub mod Defaults
use rho_llm.Base.{
  ℕ, Text, text, text_eq, to_lower, Bool, true, false, ◌&&◌, ◌||◌, not, List, [], ◌∷◌, ◌==◌, leb,
  if◌then◌else◌, member,
}

pub data Capability : Type 0 where
  chat stream tools structured_output vision document_input embeddings batch : Capability
  image_generation speech_synthesis transcription reasoning temperature : Capability

-- The position of a capability's bit.
abbrev pub bit : Capability → ℕ
bit chat = 0
bit stream = 1
bit tools = 2
bit structured_output = 3
bit vision = 4
bit document_input = 5
bit embeddings = 6
bit batch = 7
bit image_generation = 8
bit speech_synthesis = 9
bit transcription = 10
bit reasoning = 11
bit temperature = 12

abbrev pub capability_eq : Capability → Capability → Bool
capability_eq a b = bit a == bit b

pub record CapabilitySet : Type 0 where
  pub has : Capability → Bool
  pub other_bits : Bool

abbrev pub no_capabilities : CapabilitySet
no_capabilities = record { has = λ c. false; other_bits = false }

abbrev pub with_capability : Capability → CapabilitySet → CapabilitySet
with_capability c set = record set { has = λ d. capability_eq c d || set.has d }

-- Capabilities.
abbrev pub capabilities : List Capability → CapabilitySet
capabilities [] = no_capabilities
capabilities (c ∷ cs) = with_capability c (capabilities cs)

abbrev pub union : CapabilitySet → CapabilitySet → CapabilitySet
union a b = record { has = λ c. a.has c || b.has c; other_bits = a.other_bits || b.other_bits }

-- CapabilitySet.Supports.
unfoldable pub supports : CapabilitySet → List Capability → Bool
supports set [] = true
supports set (c ∷ cs) = if not (set.has c) then false else supports set cs

abbrev pub every_capability : List Capability
every_capability =
    chat ∷ stream ∷ tools ∷ structured_output ∷ vision ∷ document_input ∷ embeddings ∷ batch
    ∷ image_generation ∷ speech_synthesis ∷ transcription ∷ reasoning ∷ temperature ∷ []

unfoldable pub has_any : CapabilitySet → List Capability → Bool
has_any set [] = false
has_any set (c ∷ cs) = set.has c || has_any set cs

-- Whether the set is 0.
unfoldable pub is_zero_set : CapabilitySet → Bool
is_zero_set set = not (set.other_bits || has_any set every_capability)

-- ModelInfo, with its limits, prices and label as `rest`.
pub record ModelInfo (Rest : Type 0) : Type 0 where
  pub id : Text
  pub provider : Text
  pub supports_thinking : Bool
  pub thinking : Bool
  pub responses_api : Bool
  pub no_tool_support : Bool
  pub capabilities : CapabilitySet
  pub rest : Rest
