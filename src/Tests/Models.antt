-- ===== src/Tests/Models.antt =====
-- registry.go: the built-in registry with a model and an alias of the application's own.
use rho_llm.Base.{◌≡◌, refl, text, text_eq, true, false, none, [], ◌∷◌}
use rho_llm.Capability.{ModelInfo, no_capabilities}
use rho_llm.Capability.Defaults.{trim_space, trim_start, trim_end}
use rho_llm.Registry.{
  built_in, register_model, model_error, register_model_alias, alias_error, lookup,
}
use rho_llm.Registry.Invariant.{Sound}
use rho_llm.Registry.Invariant.Runs.{register, alias_to, calls, calls-built_in-Sound}
use rho_llm.Registry.Changes.{
  Registered, register_model-Registered, Aliased, register_model_alias-Aliased,
}

-- A model of Moonshot, moved to a provider of the application's own.
abbrev moved_model : ModelInfo Unit
moved_model = record {
  id = text "kimi-k2.7-code";
  provider = text "local";
  supports_thinking = false;
  thinking = true;
  responses_api = false;
  no_tool_support = false;
  capabilities = no_capabilities;
  rest = tt;
}

calls-built_in-Sound_example :
    Sound
      (calls (register moved_model ∷ alias_to (text "k3") (text "kimi-k2.7-code") ∷ []) built_in)
calls-built_in-Sound_example =
    calls-built_in-Sound (register moved_model ∷ alias_to (text "k3") (text "kimi-k2.7-code") ∷ [])

moved_model-accepted : (register_model moved_model built_in).0 ≡ none
unfolding register_model model_error trim_space trim_start trim_end
moved_model-accepted = refl

register_model-Registered_example :
    Registered moved_model built_in (register_model moved_model built_in).1
register_model-Registered_example =
    register_model-Registered moved_model built_in moved_model-accepted

alias-accepted : (register_model_alias (text "k3") (text "kimi-k2.7-code") built_in).0 ≡ none
unfolding register_model_alias alias_error lookup text_eq
alias-accepted = refl

register_model_alias-Aliased_example :
    Aliased
      (text "k3")
      (text "kimi-k2.7-code")
      built_in
      (register_model_alias (text "k3") (text "kimi-k2.7-code") built_in).1
register_model_alias-Aliased_example =
    register_model_alias-Aliased (text "k3") (text "kimi-k2.7-code") built_in alias-accepted
