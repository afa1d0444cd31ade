-- ===== src/Normalize/Forward.antt =====
-- normalize.go: the parts that the forward pass keeps, and the IDs in use.
use rho_llm.Base.{
  ◌≡◌, refl, inl, inr, Text, is_empty, member, Bool, true, ◌&&◌, Option, none, some, List, [], ◌∷◌,
  ◌++◌, arith, Bool-cases, if◌then◌else◌, text_eq_refl,
}
use rho_llm.Normalize.Fresh.{fresh_id-free, is_empty-fresh_id}
use rho_llm.Normalize.{
  ResultContent, Part, tool_use, tool_result, thinking, provider_part, text_part, other_part,
  ToolIds, lookup_id, fresh_id, Turn, keep_thinking, normalize_part, normalize_parts, keep_turn,
  forward, parts_of, is_incomplete_turn, foreign_provider,
}
use rho_llm.Session.{is_assistant}
use rho_llm.Normalize.Pairing.{paired, ids_after, paired-append, ids_after-append}

-- Every remapped ID is in use.
unfoldable pub Consistent : ToolIds → Type 0
Consistent ids = (k t : Text) → lookup_id k ids.remap ≡ some t → member t ids.used ≡ true

Consistent-add :
    (ids : ToolIds) (id n : Text)
    → Consistent ids
    → Consistent (record { used = n ∷ ids.used; remap = (id, n) ∷ ids.remap })
unfolding Consistent member
Consistent-add ids id n c k t h = ground (arith, c k t, text_eq_refl n)

module _ {Body : Type 0} where
  -- The parts follow the IDs before them, and the IDs after them are the ones kept.
  record Follows (ids : ToolIds) (out : List (Part Body) × ToolIds) : Type 0 where
    parts_paired : paired ids.used out.0 ≡ true
    ids_kept : ids_after ids.used out.0 ≡ out.1.used
    consistent : Consistent out.1

  module _ (resolve_alias : Text → Text) (provider model : Text) where
    Follows-tool_use :
        (m : Turn Body) (ids : ToolIds) (id sig : Text) (body : Body)
        → Consistent ids
        → Follows ids (normalize_part resolve_alias provider model m ids (tool_use id sig body))
    unfolding normalize_part paired ids_after
    Follows-tool_use m ids id sig body c = elim (Bool-cases (is_empty id)) [
      | inl e ↦ rw e (record { parts_paired = rw e refl; ids_kept = rw e refl; consistent = c })
      | inr e ↦ rw e (record {
        parts_paired = ground (arith, fresh_id-free id ids.used);
        ids_kept = ground (arith, is_empty-fresh_id id ids.used e);
        consistent = Consistent-add ids id (fresh_id id ids.used) c;
      })
    ]

    Follows-tool_result :
        (m : Turn Body) (ids : ToolIds) (id : Text) (content : ResultContent Body)
        → Consistent ids
        → Follows ids (normalize_part resolve_alias provider model m ids (tool_result id content))
    unfolding normalize_part paired ids_after Consistent
    Follows-tool_result m ids id content c = go (lookup_id id ids.remap) (c id)
      where
        go :
            (o : Option Text)
            → ((t : Text) → o ≡ some t → member t ids.used ≡ true)
            → Follows ids (elim o as (λ _. List (Part Body) × ToolIds) [
              | none ↦ ([], ids)
              | some target ↦ (tool_result target content ∷ [], ids)
            ])
        go none h = record { parts_paired = refl; ids_kept = refl; consistent = c }
        go (some t) h = record {
          parts_paired = rw (h t refl) refl;
          ids_kept = refl;
          consistent = c;
        }

    -- Parts that are no call and no result.
    Follows-others :
        (ids : ToolIds) (kept : List (Part Body))
        → ((seen : List Text) → paired seen kept ≡ true)
        → ((seen : List Text) → ids_after seen kept ≡ seen)
        → Consistent ids
        → Follows ids (kept, ids)
    Follows-others ids kept p q c = record {
      parts_paired = p ids.used;
      ids_kept = q ids.used;
      consistent = c;
    }

    Follows-thinking :
        (m : Turn Body) (ids : ToolIds) (t sig : Text) (redacted : Bool)
        → Consistent ids
        → Follows ids (normalize_part resolve_alias provider model m ids (thinking t sig redacted))
    unfolding normalize_part keep_thinking paired ids_after
    Follows-thinking m ids t sig redacted c =
        Follows-others ids (keep_thinking resolve_alias provider model m t sig redacted)
          (λ seen. ground arith) (λ seen. ground arith) c

    Follows-part :
        (m : Turn Body) (ids : ToolIds) (p : Part Body)
        → Consistent ids
        → Follows ids (normalize_part resolve_alias provider model m ids p)
    unfolding normalize_part paired ids_after
    Follows-part m ids (tool_use id sig body) c = Follows-tool_use m ids id sig body c
    Follows-part m ids (tool_result id content) c = Follows-tool_result m ids id content c
    Follows-part m ids (thinking t sig redacted) c = Follows-thinking m ids t sig redacted c
    Follows-part m ids (provider_part body) c =
        Follows-others ids
          (if foreign_provider m.provider provider then [] else provider_part body ∷ [])
          (λ seen. ground arith) (λ seen. ground arith) c
    Follows-part m ids (text_part t citations) c =
        Follows-others ids _ (λ seen. refl) (λ seen. refl) c
    Follows-part m ids (other_part body) c = Follows-others ids _ (λ seen. refl) (λ seen. refl) c

    Follows-parts :
        (m : Turn Body) (ids : ToolIds) (ps : List (Part Body))
        → Consistent ids
        → Follows ids (normalize_parts resolve_alias provider model m ids ps)
    unfolding normalize_parts paired ids_after
    Follows-parts m ids [] c = record { parts_paired = refl; ids_kept = refl; consistent = c }
    Follows-parts m ids (p ∷ ps) c =
        let out = normalize_part resolve_alias provider model m ids p in
        let f : Follows ids out = Follows-part m ids p c in
        let rest = normalize_parts resolve_alias provider model m out.1 ps in
        let g : Follows out.1 rest = Follows-parts m out.1 ps f.consistent in
        record {
          parts_paired = ground (
            arith,
            paired-append ids.used out.0 rest.0,
            f.parts_paired,
            f.ids_kept,
            g.parts_paired,
          );
          ids_kept = cc (ids_after-append ids.used out.0 rest.0, f.ids_kept, g.ids_kept);
          consistent = g.consistent;
        }

    parts_of-keep_turn :
        (m : Turn Body) (ps : List (Part Body)) (rest : List (Turn Body))
        → parts_of (keep_turn resolve_alias provider model m ps rest) ≡ ps ++ parts_of rest
    parts_of-keep_turn m [] rest = refl
    parts_of-keep_turn m (p ∷ ps) rest = refl

    pub paired-forward :
        (ids : ToolIds) (ms : List (Turn Body))
        → Consistent ids
        → paired ids.used (parts_of (forward resolve_alias provider model ids ms)) ≡ true
    unfolding forward paired
    paired-forward ids [] c = refl
    paired-forward ids (m ∷ ms) c =
        elim (Bool-cases (is_assistant m.role && is_incomplete_turn m.stop_reason)) [
          | inl e ↦ rw e (paired-forward ids ms c)
          | inr e ↦
              let out = normalize_parts resolve_alias provider model m ids m.content in
              let f : Follows ids out = Follows-parts m ids m.content c in
              let rest = forward resolve_alias provider model out.1 ms in
              rw e (
                ground (
                  arith,
                  parts_of-keep_turn m out.0 rest,
                  paired-append ids.used out.0 (parts_of rest),
                  f.parts_paired,
                  f.ids_kept,
                  paired-forward out.1 ms f.consistent,
                ))
        ]

pub Consistent-none : Consistent (record { used = []; remap = [] })
unfolding Consistent
Consistent-none k t h = ground arith
