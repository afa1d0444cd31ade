-- ===== src/Registry/Invariant/Runs.antt =====
-- registry.go: the maps after any number of changes.
use rho_llm.Base.{
  ◌≡◌, refl, ◌∙◌, Text, text_eq, Bool, true, ◌&&◌, ◌||◌, Option, none, some, List, [], ◌∷◌, map,
  arith, member, Unique, Bool-cases, inl, inr,
}
use rho_llm.Errors.{GoError}
use rho_llm.Capability.{ModelInfo}
use rho_llm.Registry.{
  lookup, put, is_some, or_nil, listed, Registry, built_in, has_model, leave, registered,
  with_defaults, model_error, unless_error, register_model, alias_error, register_model_alias,
}
use rho_llm.Registry.Models.{built_in_models}
use rho_llm.Registry.Tables.{built_in_available, built_in_aliases, default_models, retired_models}
use rho_llm.Registry.Maps.{
  every, lookup-every, lookup-put, all_unique, all_unique-Unique, all_ids, member-all_ids,
}
use rho_llm.Registry.Invariant.{
  Sound, known, has_model-registered, member-leave, Unique-leave, member-enter, Unique-enter,
}

-- A change of the registry.
pub data RegistryCall (Rest : Type 0) : Type 0 where
  register : ModelInfo Rest → RegistryCall Rest
  alias_to : Text → Text → RegistryCall Rest

module _ {Rest : Type 0} where
  registered-Sound :
      (info : ModelInfo Rest) (r : Registry Rest) → Sound r → Sound (registered info r)
  unfolding known registered
  registered-Sound info r h =
      let left = leave (lookup info.id r.models) info r.available in
      record {
        discovered = λ p id m. ground (
          arith,
          has_model-registered info r id,
          member-enter info left p id m,
          member-leave (lookup info.id r.models) info r.available p id,
          h.discovered p id,
        );
        unique = λ p.
            Unique-enter info left p
              (λ q. Unique-leave (lookup info.id r.models) info r.available q h.unique);
        aliased = λ a id e. ground (arith, has_model-registered info r id, h.aliased a id e);
        replaced = λ a id e. ground (arith, has_model-registered info r id, h.replaced a id e);
        defaulted = λ a id e. ground (arith, has_model-registered info r id, h.defaulted a id e);
      }

  aliased-Sound :
      (alias id : Text) (r : Registry Rest)
      → has_model id r ≡ true
      → Sound r
      → Sound (record r { aliases = put alias id r.aliases })
  unfolding known
  aliased-Sound alias id r k h = record {
    discovered = h.discovered;
    unique = h.unique;
    aliased = λ a m e. ground (arith, lookup-put a alias id r.aliases, e, k, h.aliased a m);
    replaced = h.replaced;
    defaulted = h.defaulted;
  }

  unless_error-Sound :
      (e : Option GoError) (new old : Registry Rest)
      → (e ≡ none → Sound new)
      → Sound old
      → Sound (unless_error e new old)
  unless_error-Sound none new old h k = h refl
  unless_error-Sound (some e) new old h k = k

  -- RegisterModel or RegisterModelAlias.
  unfoldable pub call : RegistryCall Rest → Registry Rest → Registry Rest
  call (register info) r = (register_model info r).1
  call (alias_to alias id) r = (register_model_alias alias id r).1

  unfoldable pub calls : List (RegistryCall Rest) → Registry Rest → Registry Rest
  calls [] r = r
  calls (c ∷ cs) r = calls cs (call c r)

  call-Sound : (c : RegistryCall Rest) (r : Registry Rest) → Sound r → Sound (call c r)
  unfolding call register_model register_model_alias alias_error
  call-Sound (register info) r h =
      unless_error-Sound (model_error info) _ r (λ e. registered-Sound (with_defaults info) r h) h
  call-Sound (alias_to alias id) r h =
      unless_error-Sound (alias_error alias id r) _ r
        (λ e. aliased-Sound alias id r (ground arith) h) h

  calls-Sound : (cs : List (RegistryCall Rest)) (r : Registry Rest) → Sound r → Sound (calls cs r)
  unfolding calls
  calls-Sound [] r h = h
  calls-Sound (c ∷ cs) r h = calls-Sound cs (call c r) (call-Sound c r h)

in_models : Text → Bool
in_models id = is_some (lookup id built_in_models)

in_models_or_retired : Text → Bool
in_models_or_retired id = in_models id || is_some (lookup id retired_models)

-- init keeps the IDs.
has_model-initialised :
    (id : Text) (rows : List (Text × ModelInfo Unit))
    → is_some (lookup id (map (λ row. (row.0, with_defaults row.1)) rows))
      ≡ is_some (lookup id rows)
unfolding lookup
has_model-initialised id [] = refl
has_model-initialised id ((k, info) ∷ rows) = elim (Bool-cases (text_eq k id)) [
  | inl e ↦ rw e refl
  | inr e ↦ rw e (has_model-initialised id rows)
]

has_model-built_in : (id : Text) → in_models id ≡ true → has_model id built_in ≡ true
unfolding in_models
has_model-built_in id h = has_model-initialised id built_in_models ∙ h

lists_lem : every (λ ids. all_unique ids && all_ids in_models ids) built_in_available ≡ true
unfolding every all_unique all_ids in_models lookup member text_eq
lists_lem = refl

aliases_lem : every in_models_or_retired built_in_aliases ≡ true
unfolding every in_models_or_retired in_models lookup text_eq
aliases_lem = refl

retired_lem : every in_models retired_models ≡ true
unfolding every in_models lookup text_eq
retired_lem = refl

defaults_lem : every in_models default_models ≡ true
unfolding every in_models lookup text_eq
defaults_lem = refl

in_lists :
    (provider id : Text)
    → member id (listed provider built_in_available) ≡ true
    → in_models id ≡ true
unfolding listed member
in_lists provider id m = go (lookup provider built_in_available) refl m
  where
    go :
        (o : Option (List Text))
        → lookup provider built_in_available ≡ o
        → member id (or_nil o) ≡ true
        → in_models id ≡ true
    go none e n = cc
    go (some ids) e n =
        let ok =
          lookup-every (λ ids. all_unique ids && all_ids in_models ids) provider ids
            built_in_available lists_lem e in
        member-all_ids in_models id ids (ground arith) n

built_in-Unique : (provider : Text) → Unique (listed provider built_in_available)
unfolding listed
built_in-Unique provider = go (lookup provider built_in_available) refl
  where
    go : (o : Option (List Text)) → lookup provider built_in_available ≡ o → Unique (or_nil o)
    go none e = tt
    go (some ids) e =
        let ok =
          lookup-every (λ ids. all_unique ids && all_ids in_models ids) provider ids
            built_in_available lists_lem e in
        all_unique-Unique ids (ground arith)

built_in-Sound : Sound built_in
unfolding known in_models_or_retired
built_in-Sound = record {
  discovered = λ p id m. has_model-built_in id (in_lists p id m);
  unique = built_in-Unique;
  aliased = λ a id e.
      let ok = lookup-every in_models_or_retired a id built_in_aliases aliases_lem e in
      elim (Bool-cases (in_models id)) [
        | inl p ↦ ground (arith, has_model-built_in id p)
        | inr p ↦ ground (arith, ok, p)
      ];
  replaced =
      λ a id e. has_model-built_in id (lookup-every in_models a id retired_models retired_lem e);
  defaulted =
      λ a id e. has_model-built_in id (lookup-every in_models a id default_models defaults_lem e);
}

-- The registry as it is built in, after any calls of RegisterModel and RegisterModelAlias: every
-- model that discovery lists is registered and is listed once for its provider, every alias stands
-- for a model that is registered or retired, and the replacement of every retired model and the
-- default model of every provider are registered.
pub calls-built_in-Sound : (cs : List (RegistryCall Unit)) → Sound (calls cs built_in)
calls-built_in-Sound cs = calls-Sound cs built_in built_in-Sound
