-- ===== src/Registry/Changes.antt =====
-- registry.go: what a change of the registry does to what it answers.
use rho_llm.Base.{
  ◌≡◌, refl, sym, ◌∙◌, Text, text_eq, text_eq_iff, text_eq_refl, true, false, ◌&&◌, Option, none,
  some, List, [], ◌∷◌, ◌++◌, arith, member, member-append, subst,
}
use rho_llm.Capability.{ModelInfo}
use rho_llm.Registry.{
  lookup, listed, Registry, has_model, delete_id, leave, enter, registered, with_defaults,
  register_model, alias_error, register_model_alias, get_model_info, get_available_models,
  resolve_model_alias,
}
use rho_llm.Registry.Maps.{lookup-put, listed-put, member-delete_id}

module _ {Rest : Type 0} where
  -- Where a model stands after an accepted RegisterModel, and that nothing else moves.
  pub record Registered (info : ModelInfo Rest) (r s : Registry Rest) : Type 0 where
    pub found : get_model_info info.id s ≡ some (with_defaults info)
    pub discovered : member info.id (get_available_models info.provider s) ≡ true
    pub moved :
        (prev : ModelInfo Rest)
        → get_model_info info.id r ≡ some prev
        → text_eq prev.provider info.provider ≡ false
        → member info.id (get_available_models prev.provider s) ≡ false
    pub others :
        (id : Text) → text_eq info.id id ≡ false → get_model_info id s ≡ get_model_info id r
    pub other_lists :
        (p id : Text)
        → text_eq info.id id ≡ false
        → member id (get_available_models p s) ≡ member id (get_available_models p r)

  with_defaults-id : (info : ModelInfo Rest) → (with_defaults info).id ≡ info.id
  with_defaults-id info = ground arith

  with_defaults-provider : (info : ModelInfo Rest) → (with_defaults info).provider ≡ info.provider
  with_defaults-provider info = ground arith

  member-enter_self :
      (info : ModelInfo Rest) (rows : List (Text × List Text))
      → member info.id (listed info.provider (enter info rows)) ≡ true
  unfolding enter member
  member-enter_self info rows =
      let ids = listed info.provider rows in
      ground (
        arith,
        listed-put info.provider info.provider (ids ++ (info.id ∷ [])) rows,
        member-append info.id ids (info.id ∷ []),
        text_eq_refl info.id,
        text_eq_refl info.provider,
      )

  member-enter_other :
      (info : ModelInfo Rest) (rows : List (Text × List Text)) (p id : Text)
      → (text_eq info.id id && text_eq info.provider p) ≡ false
      → member id (listed p (enter info rows)) ≡ member id (listed p rows)
  unfolding enter member
  member-enter_other info rows p id h =
      let ids = listed info.provider rows in
      ground (
        arith,
        listed-put p info.provider (ids ++ (info.id ∷ [])) rows,
        member-append id ids (info.id ∷ []),
        text_eq_iff info.id id,
        text_eq_iff id info.id,
        text_eq_iff info.provider p,
      )

  member-leave_other :
      (prev : Option (ModelInfo Rest)) (info : ModelInfo Rest) (rows : List (Text × List Text))
      (p id : Text)
      → text_eq info.id id ≡ false
      → member id (listed p (leave prev info rows)) ≡ member id (listed p rows)
  member-leave_other none info rows p id h = refl
  member-leave_other (some prev) info rows p id h =
      let ids = listed prev.provider rows in
      ground (
        arith,
        listed-put p prev.provider (delete_id info.id ids) rows,
        member-delete_id id info.id ids,
        text_eq_iff prev.provider p,
        text_eq_iff info.id id,
        text_eq_iff id info.id,
      )

  member-leave_self :
      (prev info : ModelInfo Rest) (rows : List (Text × List Text))
      → text_eq prev.provider info.provider ≡ false
      → member info.id (listed prev.provider (leave (some prev) info rows)) ≡ false
  member-leave_self prev info rows h =
      let ids = listed prev.provider rows in
      ground (
        arith,
        listed-put prev.provider prev.provider (delete_id info.id ids) rows,
        member-delete_id info.id info.id ids,
        text_eq_refl prev.provider,
        text_eq_refl info.id,
      )

  member-moved :
      (prev info : ModelInfo Rest) (rows : List (Text × List Text))
      (before : Option (ModelInfo Rest))
      → before ≡ some prev
      → text_eq prev.provider info.provider ≡ false
      → member info.id (listed prev.provider (enter info (leave before info rows))) ≡ false
  member-moved prev info rows none e n = cc
  member-moved prev info rows (some was) e n =
      subst (λ o. member info.id (listed prev.provider (enter info (leave o info rows))) ≡ false)
        (sym e)
        (member-enter_other info (leave (some prev) info rows) prev.provider info.id (
            ground (
              arith,
              text_eq_iff prev.provider info.provider,
              text_eq_iff info.provider prev.provider,
            ))
          ∙ member-leave_self prev info rows n)

  registered-Registered :
      (info : ModelInfo Rest) (r : Registry Rest)
      → Registered info r (registered (with_defaults info) r)
  unfolding registered get_model_info get_available_models
  registered-Registered info r =
      let full = with_defaults info in
      let before = lookup full.id r.models in
      let left = leave before full r.available in
      let name = with_defaults-id info in
      let host = with_defaults-provider info in
      record {
        found =
            ground (arith, lookup-put info.id full.id full r.models, name, text_eq_refl info.id);
        discovered =
            subst (λ p. member info.id (listed p (enter full left)) ≡ true) host
              (subst (λ i. member i (listed full.provider (enter full left)) ≡ true) name
                (member-enter_self full left));
        moved = λ prev e n.
            let was = subst (λ i. lookup i r.models ≡ some prev) (sym name) e in
            let away = subst (λ p. text_eq prev.provider p ≡ false) (sym host) n in
            subst (λ i. member i (listed prev.provider (enter full left)) ≡ false) name
              (member-moved prev full r.available before was away);
        others = λ id n. ground (arith, lookup-put id full.id full r.models, name);
        other_lists = λ p id n.
            member-enter_other full left p id (ground (arith, name))
            ∙ member-leave_other before full r.available p id (rw name n);
      }

  -- A RegisterModel that is accepted: the model is found with its capabilities filled in, discovery
  -- lists it for its provider and no longer for the one it had, and no other model is touched.
  pub register_model-Registered :
      (info : ModelInfo Rest) (r : Registry Rest)
      → (register_model info r).0 ≡ none
      → Registered info r (register_model info r).1
  unfolding register_model
  register_model-Registered info r e = rw e (registered-Registered info r)

  -- What an accepted RegisterModelAlias changes.
  pub record Aliased (alias id : Text) (r s : Registry Rest) : Type 0 where
    pub resolves : resolve_model_alias alias s ≡ id
    pub registered : has_model (resolve_model_alias alias s) s ≡ true
    pub kept :
        (model : Text)
        → has_model model r ≡ true
        → resolve_model_alias model s ≡ resolve_model_alias model r

  -- A RegisterModelAlias that is accepted: the alias resolves to the model, which is registered, and
  -- every registered model resolves to what it did before.
  pub register_model_alias-Aliased :
      (alias id : Text) (r : Registry Rest)
      → (register_model_alias alias id r).0 ≡ none
      → Aliased alias id r (register_model_alias alias id r).1
  unfolding register_model_alias resolve_model_alias alias_error
  register_model_alias-Aliased alias id r e =
      let known : has_model id r ≡ true = ground arith in
      let fresh : has_model alias r ≡ false = ground arith in
      rw e (record {
        resolves = ground (arith, lookup-put alias alias id r.aliases, text_eq_refl alias);
        registered = ground (arith, lookup-put alias alias id r.aliases, text_eq_refl alias, known);
        kept =
            λ m h. ground (arith, lookup-put m alias id r.aliases, text_eq_iff alias m, fresh, h);
      })
