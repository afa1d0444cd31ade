-- ===== src/Normalize/Answered.antt =====
-- normalize.go: the repair of unanswered tool calls.
use rho_llm.Base.{
  ◌≡◌, refl, inl, inr, Text, is_empty, member, member-cons_self, member-cons, member-append, Bool,
  true, ◌&&◌, ◌||◌, not, List, [], ◌∷◌, ◌++◌, arith, Bool-cases,
}
use rho_llm.Normalize.Pairing.{
  paired, parts_of-append, result_ids-append, ids_after, add_id, paired-append,
}
use rho_llm.Normalize.Forward.{paired-forward, Consistent-none}
use rho_llm.Normalize.{
  Part, tool_use, tool_result, thinking, provider_part, text_part, other_part, ToolIds, Turn,
  forward, result_ids, parts_of, repair_parts, repair, inserted, normalize,
}
use rho_llm.Session.{is_assistant}

module _ {Body : Type 0} where
  -- Each call among the parts has its ID in the list.
  unfoldable pub calls_in : List Text → List (Part Body) → Bool
  calls_in ids [] = true
  calls_in ids (tool_use id sig body ∷ ps) = (is_empty id || member id ids) && calls_in ids ps
  calls_in ids (tool_result id content ∷ ps) = calls_in ids ps
  calls_in ids (thinking t sig redacted ∷ ps) = calls_in ids ps
  calls_in ids (provider_part body ∷ ps) = calls_in ids ps
  calls_in ids (text_part t citations ∷ ps) = calls_in ids ps
  calls_in ids (other_part body ∷ ps) = calls_in ids ps

  -- Each call of an assistant's turn has its ID in the list.
  unfoldable pub all_answered : List Text → List (Turn Body) → Bool
  all_answered ids [] = true
  all_answered ids (m ∷ ms) =
      (not (is_assistant m.role) || calls_in ids m.content) && all_answered ids ms

  member-ids_after :
      (t : Text) (seen : List Text) (ps : List (Part Body))
      → member t seen ≡ true
      → member t (ids_after seen ps) ≡ true
  unfolding ids_after
  member-ids_after t seen [] h = h
  member-ids_after t seen (tool_use id sig body ∷ ps) h =
      member-ids_after t (add_id id seen) ps (ground (arith, member-cons t id seen))
  member-ids_after t seen (tool_result id content ∷ ps) h = member-ids_after t seen ps h
  member-ids_after t seen (thinking x sig redacted ∷ ps) h = member-ids_after t seen ps h
  member-ids_after t seen (provider_part body ∷ ps) h = member-ids_after t seen ps h
  member-ids_after t seen (text_part x citations ∷ ps) h = member-ids_after t seen ps h
  member-ids_after t seen (other_part body ∷ ps) h = member-ids_after t seen ps h

  calls_in-ids_after :
      (seen : List Text) (ps : List (Part Body)) → calls_in (ids_after seen ps) ps ≡ true
  unfolding ids_after calls_in
  calls_in-ids_after seen [] = refl
  calls_in-ids_after seen (tool_use id sig body ∷ ps) = ground (
    arith,
    calls_in-ids_after (add_id id seen) ps,
    member-ids_after id (add_id id seen) ps,
    member-cons_self id seen,
  )
  calls_in-ids_after seen (tool_result id content ∷ ps) = calls_in-ids_after seen ps
  calls_in-ids_after seen (thinking t sig redacted ∷ ps) = calls_in-ids_after seen ps
  calls_in-ids_after seen (provider_part body ∷ ps) = calls_in-ids_after seen ps
  calls_in-ids_after seen (text_part t citations ∷ ps) = calls_in-ids_after seen ps
  calls_in-ids_after seen (other_part body ∷ ps) = calls_in-ids_after seen ps

  -- The inserted results answer calls that are there, and are no calls.
  record Inserted (seen : List Text) (turns : List (Turn Body)) : Type 0 where
    inserted_paired : paired seen (parts_of turns) ≡ true
    no_calls : ids_after seen (parts_of turns) ≡ seen

  Inserted-repair_parts :
      (seen answered : List Text) (ps : List (Part Body))
      → calls_in seen ps ≡ true
      → Inserted seen (repair_parts answered ps).0
  unfolding repair_parts paired ids_after calls_in
  Inserted-repair_parts seen answered [] h = record { inserted_paired = refl; no_calls = refl }
  Inserted-repair_parts seen answered (tool_use id sig body ∷ ps) h =
      elim (Bool-cases (is_empty id || member id answered)) [
        | inl e ↦ rw e (Inserted-repair_parts seen answered ps (ground arith))
        | inr e ↦
            let ih = Inserted-repair_parts seen (id ∷ answered) ps (ground arith) in
            rw e (record {
              inserted_paired = ground (arith, ih.inserted_paired);
              no_calls = ih.no_calls;
            })
      ]
  Inserted-repair_parts seen answered (tool_result id content ∷ ps) h =
      Inserted-repair_parts seen answered ps h
  Inserted-repair_parts seen answered (thinking t sig redacted ∷ ps) h =
      Inserted-repair_parts seen answered ps h
  Inserted-repair_parts seen answered (provider_part body ∷ ps) h =
      Inserted-repair_parts seen answered ps h
  Inserted-repair_parts seen answered (text_part t citations ∷ ps) h =
      Inserted-repair_parts seen answered ps h
  Inserted-repair_parts seen answered (other_part body ∷ ps) h =
      Inserted-repair_parts seen answered ps h

  -- The insertion answers the calls that `covers` looks for, and marks no others as answered than
  -- those whose results it inserts.
  record Answers (answered : List Text) (covers : List Text → Bool)
      (out : List (Turn Body) × List Text) : Type 0 where
    grown : (t : Text) → member t answered ≡ true → member t out.1 ≡ true
    covered : covers out.1 ≡ true
    recorded :
        (t : Text)
        → member t out.1 ≡ true
        → (member t answered || member t (result_ids (parts_of out.0))) ≡ true
    by_user : (ids : List Text) → all_answered ids out.0 ≡ true

  Answers-repair_parts :
      (answered : List Text) (ps : List (Part Body))
      → Answers answered (λ ids. calls_in ids ps) (repair_parts answered ps)
  unfolding repair_parts calls_in all_answered member
  Answers-repair_parts answered [] = record {
    grown = λ t h. h;
    covered = refl;
    recorded = λ t h. ground arith;
    by_user = λ ids. refl;
  }
  Answers-repair_parts answered (tool_use id sig body ∷ ps) =
      elim (Bool-cases (is_empty id || member id answered)) [
        | inl e ↦
            let ih = Answers-repair_parts answered ps in
            rw e (record {
              grown = ih.grown;
              covered = ground (arith, ih.covered, ih.grown id);
              recorded = ih.recorded;
              by_user = ih.by_user;
            })
        | inr e ↦
            let ih = Answers-repair_parts (id ∷ answered) ps in
            rw e (record {
              grown = λ t h. ih.grown t (member-cons t id answered h);
              covered = ground (arith, ih.covered, ih.grown id (member-cons_self id answered));
              recorded = λ t h. ground (arith, ih.recorded t h);
              by_user = ih.by_user;
            })
      ]
  Answers-repair_parts answered (tool_result id content ∷ ps) = Answers-repair_parts answered ps
  Answers-repair_parts answered (thinking t sig redacted ∷ ps) = Answers-repair_parts answered ps
  Answers-repair_parts answered (provider_part body ∷ ps) = Answers-repair_parts answered ps
  Answers-repair_parts answered (text_part t citations ∷ ps) = Answers-repair_parts answered ps
  Answers-repair_parts answered (other_part body ∷ ps) = Answers-repair_parts answered ps

  Answers-inserted :
      (answered : List Text) (m : Turn Body)
      → Answers answered
          (λ ids. not (is_assistant m.role) || calls_in ids m.content)
          (inserted answered m)
  unfolding inserted all_answered
  Answers-inserted answered m = elim (Bool-cases (is_assistant m.role)) [
    | inl e ↦ rw e (Answers-repair_parts answered m.content)
    | inr e ↦ rw e (record {
      grown = λ t h. h;
      covered = refl;
      recorded = λ t h. ground arith;
      by_user = λ ids. refl;
    })
  ]

  Inserted-inserted :
      (seen answered : List Text) (m : Turn Body)
      → Inserted (ids_after seen m.content) (inserted answered m).0
  unfolding inserted paired ids_after
  Inserted-inserted seen answered m = elim (Bool-cases (is_assistant m.role)) [
    | inl e ↦ rw e (
        Inserted-repair_parts (ids_after seen m.content) answered m.content
          (calls_in-ids_after seen m.content))
    | inr e ↦ rw e (record { inserted_paired = refl; no_calls = refl })
  ]

  paired-repair :
      (seen answered : List Text) (ms : List (Turn Body))
      → paired seen (parts_of ms) ≡ true
      → paired seen (parts_of (repair answered ms)) ≡ true
  unfolding repair
  paired-repair seen answered [] h = h
  paired-repair seen answered (m ∷ ms) h =
      let now = ids_after seen m.content in
      let put = inserted answered m in
      let ins : Inserted now put.0 = Inserted-inserted seen answered m in
      let rest = parts_of (repair put.1 ms) in
      let split : (paired seen m.content && paired now (parts_of ms)) ≡ true =
        ground (arith, paired-append seen m.content (parts_of ms)) in
      ground (
        arith,
        split,
        parts_of-append put.0 (repair put.1 ms),
        paired-append seen m.content (parts_of put.0 ++ rest),
        paired-append now (parts_of put.0) rest,
        ins.inserted_paired,
        ins.no_calls,
        paired-repair now put.1 ms (ground arith),
      )

  results-repair :
      (answered : List Text) (ms : List (Turn Body)) (t : Text)
      → member t (result_ids (parts_of ms)) ≡ true
      → member t (result_ids (parts_of (repair answered ms))) ≡ true
  unfolding repair
  results-repair answered [] t h = h
  results-repair answered (m ∷ ms) t h =
      let put = inserted answered m in
      let rest = parts_of (repair put.1 ms) in
      ground (
        arith,
        result_ids-append m.content (parts_of ms),
        member-append t (result_ids m.content) (result_ids (parts_of ms)),
        results-repair put.1 ms t,
        parts_of-append put.0 (repair put.1 ms),
        result_ids-append m.content (parts_of put.0 ++ rest),
        member-append t (result_ids m.content) (result_ids (parts_of put.0 ++ rest)),
        result_ids-append (parts_of put.0) rest,
        member-append t (result_ids (parts_of put.0)) (result_ids rest),
      )

  all_answered-append :
      (ids : List Text) (xs ys : List (Turn Body))
      → all_answered ids (xs ++ ys) ≡ (all_answered ids xs && all_answered ids ys)
  unfolding all_answered
  all_answered-append ids [] ys = refl
  all_answered-append ids (m ∷ xs) ys = ground (arith, all_answered-append ids xs ys)

  calls_in_mono :
      (xs ys : List Text) (ps : List (Part Body))
      → ((t : Text) → member t xs ≡ true → member t ys ≡ true)
      → calls_in xs ps ≡ true
      → calls_in ys ps ≡ true
  unfolding calls_in
  calls_in_mono xs ys [] h c = refl
  calls_in_mono xs ys (tool_use id sig body ∷ ps) h c =
      ground (arith, h id, calls_in_mono xs ys ps h)
  calls_in_mono xs ys (tool_result id content ∷ ps) h c = calls_in_mono xs ys ps h c
  calls_in_mono xs ys (thinking t sig redacted ∷ ps) h c = calls_in_mono xs ys ps h c
  calls_in_mono xs ys (provider_part body ∷ ps) h c = calls_in_mono xs ys ps h c
  calls_in_mono xs ys (text_part t citations ∷ ps) h c = calls_in_mono xs ys ps h c
  calls_in_mono xs ys (other_part body ∷ ps) h c = calls_in_mono xs ys ps h c

  -- With all that is answered before, and all results of the repaired turns, in `ids`.
  all_answered-repair :
      (ids answered : List Text) (ms : List (Turn Body))
      → ((t : Text) → member t answered ≡ true → member t ids ≡ true)
      → ((t : Text)
          → member t (result_ids (parts_of (repair answered ms))) ≡ true
          → member t ids ≡ true)
      → all_answered ids (repair answered ms) ≡ true
  unfolding repair all_answered
  all_answered-repair ids answered [] h r = refl
  all_answered-repair ids answered (m ∷ ms) h r =
      let put = inserted answered m in
      let ins = Answers-inserted answered m in
      let rest = repair put.1 ms in
      let results : (t : Text)
          → (member t (result_ids (parts_of put.0)) || member t (result_ids (parts_of rest))) ≡ true
          → member t ids ≡ true =
        λ t e. r t (
          ground (
            arith,
            parts_of-append put.0 rest,
            result_ids-append m.content (parts_of put.0 ++ parts_of rest),
            member-append t (result_ids m.content) (result_ids (parts_of put.0 ++ parts_of rest)),
            result_ids-append (parts_of put.0) (parts_of rest),
            member-append t (result_ids (parts_of put.0)) (result_ids (parts_of rest)),
          )) in
      let marked : (t : Text) → member t put.1 ≡ true → member t ids ≡ true =
        λ t e. ground (arith, ins.recorded t e, h t, results t) in
      ground (
        arith,
        ins.covered,
        calls_in_mono put.1 ids m.content marked,
        all_answered-append ids put.0 rest,
        ins.by_user ids,
        all_answered-repair ids put.1 ms marked (λ t e. results t (ground arith)),
      )

module _ (resolve_alias : Text → Text) {Body : Type 0} where
  -- Whatever the transcript, in the normalized one no tool call has the ID of an earlier call, and
  -- each tool result has the ID of a call before it.
  pub paired-normalize :
      (msgs : List (Turn Body)) (provider model : Text)
      → paired [] (parts_of (normalize resolve_alias msgs provider model)) ≡ true
  unfolding normalize
  paired-normalize msgs provider model =
      let none_used : ToolIds = record { used = []; remap = [] } in
      let out = forward resolve_alias provider model none_used msgs in
      paired-repair [] (result_ids (parts_of out)) out
        (paired-forward resolve_alias provider model none_used msgs Consistent-none)

  -- Whatever the transcript, each tool call with an ID in an assistant's turn of the normalized
  -- transcript has a tool result in it.
  pub all_answered-normalize :
      (msgs : List (Turn Body)) (provider model : Text)
      → let out = normalize resolve_alias msgs provider model in
        all_answered (result_ids (parts_of out)) out ≡ true
  unfolding normalize
  all_answered-normalize msgs provider model =
      let out = forward resolve_alias provider model (record { used = []; remap = [] }) msgs in
      let answered = result_ids (parts_of out) in
      all_answered-repair (result_ids (parts_of (repair answered out))) answered out
        (results-repair answered out) (λ t e. e)
