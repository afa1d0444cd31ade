-- ===== src/Normalize/Pairing.antt =====
-- normalize.go: the order of tool calls and results in a normalized transcript.
use rho_llm.Base.{
  append_assoc, ◌≡◌, refl, Text, is_empty, member, Bool, true, ◌&&◌, ◌||◌, not, List, [], ◌∷◌, ◌++◌,
  arith, if◌then◌else◌,
}
use rho_llm.Normalize.{
  Turn, parts_of, result_ids, Part, tool_use, tool_result, thinking, provider_part, text_part,
  other_part,
}

abbrev pub add_id : Text → List Text → List Text
add_id id seen = if is_empty id then seen else id ∷ seen

module _ {Body : Type 0} where
  -- What a provider asks of a transcript's parts, after calls with the IDs `seen`: no call has the
  -- ID of an earlier call, and each result has the ID of an earlier call.
  unfoldable pub paired : List Text → List (Part Body) → Bool
  paired seen [] = true
  paired seen (tool_use id sig body ∷ ps) =
      (is_empty id || not (member id seen)) && paired (add_id id seen) ps
  paired seen (tool_result id content ∷ ps) = member id seen && paired seen ps
  paired seen (thinking t sig redacted ∷ ps) = paired seen ps
  paired seen (provider_part body ∷ ps) = paired seen ps
  paired seen (text_part t citations ∷ ps) = paired seen ps
  paired seen (other_part body ∷ ps) = paired seen ps

  -- The IDs of the calls, after those in `seen`.
  unfoldable pub ids_after : List Text → List (Part Body) → List Text
  ids_after seen [] = seen
  ids_after seen (tool_use id sig body ∷ ps) = ids_after (add_id id seen) ps
  ids_after seen (tool_result id content ∷ ps) = ids_after seen ps
  ids_after seen (thinking t sig redacted ∷ ps) = ids_after seen ps
  ids_after seen (provider_part body ∷ ps) = ids_after seen ps
  ids_after seen (text_part t citations ∷ ps) = ids_after seen ps
  ids_after seen (other_part body ∷ ps) = ids_after seen ps

  pub paired-append :
      (seen : List Text) (xs ys : List (Part Body))
      → paired seen (xs ++ ys) ≡ (paired seen xs && paired (ids_after seen xs) ys)
  unfolding paired ids_after
  paired-append seen [] ys = refl
  paired-append seen (tool_use id sig body ∷ xs) ys =
      ground (arith, paired-append (add_id id seen) xs ys)
  paired-append seen (tool_result id content ∷ xs) ys = ground (arith, paired-append seen xs ys)
  paired-append seen (thinking t sig redacted ∷ xs) ys = paired-append seen xs ys
  paired-append seen (provider_part body ∷ xs) ys = paired-append seen xs ys
  paired-append seen (text_part t citations ∷ xs) ys = paired-append seen xs ys
  paired-append seen (other_part body ∷ xs) ys = paired-append seen xs ys

  pub ids_after-append :
      (seen : List Text) (xs ys : List (Part Body))
      → ids_after seen (xs ++ ys) ≡ ids_after (ids_after seen xs) ys
  unfolding ids_after
  ids_after-append seen [] ys = refl
  ids_after-append seen (tool_use id sig body ∷ xs) ys = ids_after-append (add_id id seen) xs ys
  ids_after-append seen (tool_result id content ∷ xs) ys = ids_after-append seen xs ys
  ids_after-append seen (thinking t sig redacted ∷ xs) ys = ids_after-append seen xs ys
  ids_after-append seen (provider_part body ∷ xs) ys = ids_after-append seen xs ys
  ids_after-append seen (text_part t citations ∷ xs) ys = ids_after-append seen xs ys
  ids_after-append seen (other_part body ∷ xs) ys = ids_after-append seen xs ys

  pub parts_of-append :
      (xs ys : List (Turn Body)) → parts_of (xs ++ ys) ≡ parts_of xs ++ parts_of ys
  parts_of-append [] ys = refl
  parts_of-append (m ∷ xs) ys =
      cc (parts_of-append xs ys, append_assoc m.content (parts_of xs) (parts_of ys))

  pub result_ids-append :
      (xs ys : List (Part Body)) → result_ids (xs ++ ys) ≡ result_ids xs ++ result_ids ys
  result_ids-append [] ys = refl
  result_ids-append (tool_result id content ∷ xs) ys = ground (arith, result_ids-append xs ys)
  result_ids-append (tool_use id sig body ∷ xs) ys = result_ids-append xs ys
  result_ids-append (thinking t sig redacted ∷ xs) ys = result_ids-append xs ys
  result_ids-append (provider_part body ∷ xs) ys = result_ids-append xs ys
  result_ids-append (text_part t citations ∷ xs) ys = result_ids-append xs ys
  result_ids-append (other_part body ∷ xs) ys = result_ids-append xs ys
