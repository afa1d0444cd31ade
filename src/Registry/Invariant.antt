-- ===== src/Registry/Invariant.antt =====
-- registry.go: what holds of the maps, from the built-in ones on.
pub mod Runs
use rho_llm.Base.{
  ◌≡◌, refl, sym, ◌∙◌, Text, text_eq, text_eq_iff, text_eq_refl, Bool, true, false, ◌&&◌, ◌||◌, not,
  Option, none, some, List, [], ◌∷◌, ◌++◌, map, arith, member, member-append, Unique, if◌then◌else◌,
  Bool-cases, inl, inr, is_empty, subst,
}
use rho_llm.Errors.{GoError}
use rho_llm.Capability.{ModelInfo}
use rho_llm.Registry.{
  lookup, put, is_some, or_nil, listed, Registry, built_in, has_model, delete_id, leave, enter,
  registered, with_defaults, model_error, unless_error, register_model, alias_error,
  register_model_alias,
}
use rho_llm.Registry.Tables.{built_in_available, built_in_aliases, default_models, retired_models}
use rho_llm.Registry.Maps.{
  every, lookup-every, lookup-put, listed-put, member-delete_id, Unique-delete_id, Unique-append,
  all_unique, all_unique-Unique, all_ids, member-all_ids,
}

Unique-if : (b : Bool) (xs ys : List Text) → Unique xs → Unique ys → Unique (if b then xs else ys)
Unique-if true xs ys u v = u
Unique-if false xs ys u v = v

module _ {Rest : Type 0} where
  -- The ID of a model that is registered, or that has been retired.
  unfoldable pub known : Text → Registry Rest → Bool
  known id r = has_model id r || is_some (lookup id retired_models)

  -- Every listed ID is registered, and none is listed twice for a provider. An alias stands for a
  -- known ID, a retired model is replaced by a registered one, and so is every default model.
  pub record Sound (r : Registry Rest) : Type 0 where
    pub discovered :
        (provider id : Text)
        → member id (listed provider r.available) ≡ true
        → has_model id r ≡ true
    pub unique : (provider : Text) → Unique (listed provider r.available)
    pub aliased : (alias id : Text) → lookup alias r.aliases ≡ some id → known id r ≡ true
    pub replaced : (old id : Text) → lookup old retired_models ≡ some id → has_model id r ≡ true
    pub defaulted : (p id : Text) → lookup p default_models ≡ some id → has_model id r ≡ true

  -- Models only become more, and the lists stay sound.
  pub has_model-registered :
      (info : ModelInfo Rest) (r : Registry Rest) (id : Text)
      → has_model id (registered info r) ≡ (text_eq info.id id || has_model id r)
  unfolding registered
  has_model-registered info r id = ground (arith, lookup-put id info.id info r.models)

  pub member-leave :
      (prev : Option (ModelInfo Rest)) (info : ModelInfo Rest) (rows : List (Text × List Text))
      (p id : Text)
      → member id (listed p (leave prev info rows)) ≡ true
      → member id (listed p rows) ≡ true
  member-leave none info rows p id h = h
  member-leave (some prev) info rows p id h = ground (
    arith,
    listed-put p prev.provider (delete_id info.id (listed prev.provider rows)) rows,
    member-delete_id id info.id (listed prev.provider rows),
    text_eq_iff prev.provider p,
  )

  pub Unique-leave :
      (prev : Option (ModelInfo Rest)) (info : ModelInfo Rest) (rows : List (Text × List Text))
      (p : Text)
      → ((p : Text) → Unique (listed p rows))
      → Unique (listed p (leave prev info rows))
  Unique-leave none info rows p h = h p
  Unique-leave (some prev) info rows p h = elim (Bool-cases (text_eq prev.provider info.provider)) [
    | inl e ↦ rw e (h p)
    | inr e ↦
        rw (e, listed-put p prev.provider (delete_id info.id (listed prev.provider rows)) rows)
          (Unique-if (text_eq prev.provider p) _ _
            (Unique-delete_id info.id (listed prev.provider rows) (h prev.provider)) (h p))
  ]

  pub member-enter :
      (info : ModelInfo Rest) (rows : List (Text × List Text)) (p id : Text)
      → member id (listed p (enter info rows)) ≡ true
      → (text_eq info.id id || member id (listed p rows)) ≡ true
  unfolding enter member
  member-enter info rows p id h = ground (
    arith,
    listed-put p info.provider (listed info.provider rows ++ (info.id ∷ [])) rows,
    member-append id (listed info.provider rows) (info.id ∷ []),
    text_eq_iff info.provider p,
    text_eq_iff info.id id,
    text_eq_iff id info.id,
  )

  pub Unique-enter :
      (info : ModelInfo Rest) (rows : List (Text × List Text)) (p : Text)
      → ((p : Text) → Unique (listed p rows))
      → Unique (listed p (enter info rows))
  unfolding enter
  Unique-enter info rows p h = elim (Bool-cases (member info.id (listed info.provider rows))) [
    | inl e ↦ rw e (h p)
    | inr e ↦
        rw (e, listed-put p info.provider (listed info.provider rows ++ (info.id ∷ [])) rows)
          (Unique-if (text_eq info.provider p) _ _
            (Unique-append info.id (listed info.provider rows) (h info.provider) e) (h p))
  ]
