-- ===== src/Registry.antt =====
-- registry.go: the registry's maps, as lists of keys with their values, and its operations. A map is
-- changed under registryMu, so that the operations happen one after the other. A missing list of
-- availableModels is an empty one.
pub mod Models
pub mod Tables
pub mod Maps
pub mod Invariant
pub mod Changes
pub mod Cost
use rho_llm.Base.{
  ℕ, Text, text, text_eq, Bool, true, false, ◌&&◌, ◌||◌, not, Option, none, some, List, [], ◌∷◌,
  ◌++◌, map, member, if◌then◌else◌, is_empty,
}
use rho_llm.Errors.{GoError, plain}
use rho_llm.Capability.{ModelInfo, CapabilitySet, is_zero_set}
use rho_llm.Capability.Defaults.{trim_space, default_chat_capabilities}
use rho_llm.Registry.Models.{built_in_models}
use rho_llm.Registry.Tables.{built_in_available, built_in_aliases, default_models, retired_models}

module _ {A : Type 0} where
  unfoldable pub lookup : Text → List (Text × A) → Option A
  lookup k [] = none
  lookup k ((j, v) ∷ rows) = let rest = lookup k rows in if text_eq j k then some v else rest

  unfoldable pub put : Text → A → List (Text × A) → List (Text × A)
  put k v [] = (k, v) ∷ []
  put k v ((j, w) ∷ rows) =
      let rest = put k v rows in if text_eq j k then (k, v) ∷ rows else (j, w) ∷ rest

  abbrev pub or_else : Option A → A → A
  or_else none d = d
  or_else (some v) d = v

  abbrev pub is_some : Option A → Bool
  is_some none = false
  is_some (some v) = true

-- slices.DeleteFunc of one ID.
unfoldable pub delete_id : Text → List Text → List Text
delete_id id [] = []
delete_id id (s ∷ ss) = let rest = delete_id id ss in if text_eq s id then rest else s ∷ rest

abbrev pub or_nil : Option (List Text) → List Text
or_nil none = []
or_nil (some ids) = ids

-- availableModels[provider].
unfoldable pub listed : Text → List (Text × List Text) → List Text
listed provider available = or_nil (lookup provider available)

-- modelRegistry, availableModels and modelAliases.
pub record Registry (Rest : Type 0) : Type 0 where
  pub models : List (Text × ModelInfo Rest)
  pub available : List (Text × List Text)
  pub aliases : List (Text × Text)

module _ {Rest : Type 0} where
  -- The capabilities of a model that declares none.
  abbrev pub with_defaults : ModelInfo Rest → ModelInfo Rest
  with_defaults info =
      if is_zero_set info.capabilities
      then record info { capabilities = default_chat_capabilities info }
      else info

  -- The list of the model's previous provider, without it if the provider changes.
  abbrev pub leave :
      Option (ModelInfo Rest) → ModelInfo Rest → List (Text × List Text) → List (Text × List Text)
  leave none info available = available
  leave (some prev) info available =
      if text_eq prev.provider info.provider
      then available
      else put prev.provider (delete_id info.id (listed prev.provider available)) available

  -- The list of the model's provider, with it.
  unfoldable pub enter : ModelInfo Rest → List (Text × List Text) → List (Text × List Text)
  enter info available =
      if member info.id (listed info.provider available)
      then available
      else put info.provider (listed info.provider available ++ (info.id ∷ [])) available

  unfoldable pub registered : ModelInfo Rest → Registry Rest → Registry Rest
  registered info r = record r {
    models = put info.id info r.models;
    available = enter info (leave (lookup info.id r.models) info r.available);
  }

  unfoldable pub model_error : ModelInfo Rest → Option GoError
  model_error info =
      if is_empty (trim_space info.id)
      then some (plain (text "llm: RegisterModel: ID is required (non-blank)"))
      else if is_empty (trim_space info.provider)
      then some (plain (text "llm: RegisterModel: Provider is required (non-blank)"))
      else if info.capabilities.other_bits
      then some (plain (text "llm: RegisterModel: capabilities contain unknown bits"))
      else none

  abbrev pub unless_error : Option GoError → Registry Rest → Registry Rest → Registry Rest
  unless_error none new old = new
  unless_error (some e) new old = old

  -- RegisterModel.
  unfoldable pub register_model : ModelInfo Rest → Registry Rest → Option GoError × Registry Rest
  register_model info r =
      (model_error info, unless_error (model_error info) (registered (with_defaults info) r) r)

  abbrev pub has_model : Text → Registry Rest → Bool
  has_model id r = is_some (lookup id r.models)

  unfoldable pub alias_error : Text → Text → Registry Rest → Option GoError
  alias_error alias id r =
      if is_empty alias || is_empty id
      then some (plain (text "llm: RegisterModelAlias: alias and model ID are required"))
      else if not (has_model id r)
      then some (plain (text "llm: RegisterModelAlias: unknown model (register it first)"))
      else if has_model alias r
      then some (plain (text "llm: RegisterModelAlias: alias is already a registered model ID"))
      else none

  -- RegisterModelAlias. The errors do not quote the alias and the ID.
  unfoldable pub register_model_alias : Text → Text → Registry Rest → Option GoError × Registry Rest
  register_model_alias alias id r = (
    alias_error alias id r,
    unless_error (alias_error alias id r) (record r { aliases = put alias id r.aliases }) r,
  )

  -- GetModelInfo.
  unfoldable pub get_model_info : Text → Registry Rest → Option (ModelInfo Rest)
  get_model_info model r = lookup model r.models

  -- GetAvailableModels.
  unfoldable pub get_available_models : Text → Registry Rest → List Text
  get_available_models provider r = listed provider r.available

  -- ResolveModelAlias.
  unfoldable pub resolve_model_alias : Text → Registry Rest → Text
  resolve_model_alias model r = or_else (lookup model r.aliases) model

  abbrev pub provider_or_none : Option (ModelInfo Rest) → Text
  provider_or_none none = []
  provider_or_none (some info) = info.provider

  -- ProviderForModel.
  unfoldable pub provider_for_model : Text → Registry Rest → Text
  provider_for_model model r = provider_or_none (lookup model r.models)

  -- pricingFor.
  unfoldable pub pricing_for : Text → Registry Rest → Option (ModelInfo Rest)
  pricing_for model r = lookup (or_else (lookup model r.aliases) model) r.models

  -- RetiredModelReplacement.
  unfoldable pub retired_model_replacement : Text → Registry Rest → Option Text
  retired_model_replacement model r = lookup (resolve_model_alias model r) retired_models

-- GetDefaultModel.
unfoldable pub get_default_model : Text → Text
get_default_model provider = or_else (lookup provider default_models) (text "claude-sonnet-5")

-- init.
abbrev pub built_in : Registry Unit
built_in = record {
  models = map (λ row. (row.0, with_defaults row.1)) built_in_models;
  available = built_in_available;
  aliases = built_in_aliases;
}
