-- ===== src/Normalize.antt =====
-- normalize.go: NormalizeForProvider and NormalizeForModel, which prepare a transcript for replay.
-- What a part carries besides the fields that the code reads (a tool's name and input, an image, a
-- provider's block) is a parameter, and so is ResolveModelAlias, a lookup in the model registry.
pub mod Fresh
pub mod Pairing
pub mod Forward
pub mod Answered
use rho_llm.Base.{
  ℕ, zero, suc, ◌+◌, ◌-◌, Text, text, text_eq, is_empty, has_prefix, decimal, member, Bool, true,
  false, ◌&&◌, ◌||◌, not, Option, none, some, List, [], ◌∷◌, ◌++◌, ◌==◌, leb, if◌then◌else◌, length,
  drop,
}
use rho_llm.Session.{Message, role_user, is_assistant}

-- The content of a tool result: the caller's, or the one that stands in for a missing result.
pub data ResultContent (Body : Type 0) : Type 0 where
  given : Body → ResultContent Body
  no_result : ResultContent Body

-- ContentPart by its Type. A tool use has its ID and thought signature, a thinking block its text,
-- signature and whether it is redacted, a text its citations.
pub data Part (Body : Type 0) : Type 0 where
  tool_use : Text → Text → Body → Part Body
  tool_result : Text → ResultContent Body → Part Body
  thinking : Text → Text → Bool → Part Body
  provider_part : Body → Part Body
  text_part : Text → List Body → Part Body
  other_part : Body → Part Body

-- usedIDs, the tool-use IDs emitted so far, and remap, the current ID for each original one.
pub record ToolIds : Type 0 where
  pub used : List Text
  pub remap : List (Text × Text)

abbrev pub lookup_id : Text → List (Text × Text) → Option Text
lookup_id k [] = none
lookup_id k ((j, v) ∷ m) = if text_eq j k then some v else lookup_id k m

-- "<base>#<n>".
unfoldable pub candidate : Text → ℕ → Text
candidate base n = base ++ (text "#" ++ decimal n)

-- The loop of uniqueToolID from `n` on. It is given a round for each ID in use, and then returns
-- the next candidate without asking.
unfoldable pub search_id : ℕ → Text → List Text → ℕ → Text
search_id zero base used n = candidate base n
search_id (suc rounds) base used n =
    let rest = search_id rounds base used (n + 1) in
    if member (candidate base n) used then rest else candidate base n

unfoldable pub unique_tool_id : Text → List Text → Text
unique_tool_id base used = search_id (length used) base used 1

unfoldable pub fresh_id : Text → List Text → Text
fresh_id id used = if member id used then unique_tool_id id used else id

abbrev is_digit : ℕ → Bool
is_digit c = leb b'0' c && leb c b'9'

-- Groups of digits between dashes: at least `need` digits in this one, of which `seen` are read, and
-- at least one in each group after it.
unfoldable pub digit_groups : ℕ → ℕ → Text → Bool
digit_groups need seen [] = leb need seen
digit_groups need seen (c ∷ cs) =
    let rest =
      digit_groups (if is_digit c then need else 1) (if is_digit c then suc seen else 0) cs in
    if is_digit c || (c == b'-' && leb need seen) then rest else false

unfoldable pub version_suffix : Text → Bool
version_suffix [] = false
version_suffix (c ∷ cs) = c == b'-' && digit_groups 3 0 cs

unfoldable pub is_version_suffix_of : Text → Text → Bool
is_version_suffix_of long short = has_prefix long short && version_suffix (drop (length short) long)

-- isIncompleteTurn, foreignProvider.
abbrev is_incomplete_turn : Text → Bool
is_incomplete_turn stop = text_eq stop (text "error") || text_eq stop (text "aborted")

abbrev foreign_provider : Text → Text → Bool
foreign_provider from to = not (is_empty from) && not (text_eq from to)

abbrev pub Turn : Type 0 → Type 0
Turn Body = Message (List (Part Body))

module _ (resolve_alias : Text → Text) where
  unfoldable pub same_model : Text → Text → Bool
  same_model a b =
      let a' = resolve_alias a in
      let b' = resolve_alias b in
      text_eq a' b' || (is_version_suffix_of a' b' || is_version_suffix_of b' a')

  module _ {Body : Type 0} (provider model : Text) where
    -- The cases that keep, change or drop a part and leave the IDs alone.
    unfoldable pub keep_thinking : Turn Body → Text → Text → Bool → List (Part Body)
    keep_thinking m t sig redacted =
        if not (is_empty model) && (not (is_empty m.model) && not (same_model m.model model))
        then []
        else if (not (is_empty m.provider) && text_eq m.provider provider)
            && (redacted || not (is_empty sig))
        then thinking t sig redacted ∷ []
        else if not (is_empty t) && not redacted
        then text_part t [] ∷ []
        else []

    -- The switch over the type of a part.
    unfoldable pub normalize_part : Turn Body → ToolIds → Part Body → List (Part Body) × ToolIds
    normalize_part m ids (tool_use id sig body) =
        let n = fresh_id id ids.used in
        if is_empty id then (tool_use id sig body ∷ [], ids) else (
          tool_use n (if text_eq m.provider provider then sig else []) body ∷ [],
          record { used = n ∷ ids.used; remap = (id, n) ∷ ids.remap },
        )
    normalize_part m ids (tool_result id content) = elim (lookup_id id ids.remap) [
      | none ↦ ([], ids)
      | some target ↦ (tool_result target content ∷ [], ids)
    ]
    normalize_part m ids (thinking t sig redacted) = (keep_thinking m t sig redacted, ids)
    normalize_part m ids (provider_part body) =
        (if foreign_provider m.provider provider then [] else provider_part body ∷ [], ids)
    normalize_part m ids (text_part t citations) =
        (text_part t (if foreign_provider m.provider provider then [] else citations) ∷ [], ids)
    normalize_part m ids (other_part body) = (other_part body ∷ [], ids)

    unfoldable pub normalize_parts :
        Turn Body → ToolIds → List (Part Body) → List (Part Body) × ToolIds
    normalize_parts m ids [] = ([], ids)
    normalize_parts m ids (p ∷ ps) =
        let (kept, now) = normalize_part m ids p in
        let (rest, after) = normalize_parts m now ps in (kept ++ rest, after)

    abbrev pub keep_turn : Turn Body → List (Part Body) → List (Turn Body) → List (Turn Body)
    keep_turn m [] rest = rest
    keep_turn m (p ∷ ps) rest = record m { content = p ∷ ps } ∷ rest

    -- The forward pass.
    unfoldable pub forward : ToolIds → List (Turn Body) → List (Turn Body)
    forward ids [] = []
    forward ids (m ∷ ms) =
        let (parts, after) = normalize_parts m ids m.content in
        let skipped = forward ids ms in
        let kept = keep_turn m parts (forward after ms) in
        if is_assistant m.role && is_incomplete_turn m.stop_reason then skipped else kept

module _ {Body : Type 0} where
  -- The IDs of the tool results in a list of parts, and in a transcript.
  abbrev pub result_ids : List (Part Body) → List Text
  result_ids [] = []
  result_ids (tool_result id content ∷ ps) =
      if is_empty id then result_ids ps else id ∷ result_ids ps
  result_ids (tool_use id sig body ∷ ps) = result_ids ps
  result_ids (thinking t sig redacted ∷ ps) = result_ids ps
  result_ids (provider_part body ∷ ps) = result_ids ps
  result_ids (text_part t citations ∷ ps) = result_ids ps
  result_ids (other_part body ∷ ps) = result_ids ps

  abbrev pub parts_of : List (Turn Body) → List (Part Body)
  parts_of [] = []
  parts_of (m ∷ ms) = m.content ++ parts_of ms

  -- NewToolResultMessage(id, "No result provided.", true).
  abbrev pub synthetic_result : Text → Turn Body
  synthetic_result id = record {
    role = role_user;
    provider = [];
    model = [];
    stop_reason = [];
    container_id = [];
    content = tool_result id no_result ∷ [];
  }

  -- The results to insert after an assistant turn, and the answered IDs afterwards.
  unfoldable pub repair_parts : List Text → List (Part Body) → List (Turn Body) × List Text
  repair_parts answered [] = ([], answered)
  repair_parts answered (tool_use id sig body ∷ ps) =
      let (rest, after) =
        repair_parts (if is_empty id || member id answered then answered else id ∷ answered) ps in
      if is_empty id || member id answered
      then (rest, after)
      else (synthetic_result id ∷ rest, after)
  repair_parts answered (tool_result id content ∷ ps) = repair_parts answered ps
  repair_parts answered (thinking t sig redacted ∷ ps) = repair_parts answered ps
  repair_parts answered (provider_part body ∷ ps) = repair_parts answered ps
  repair_parts answered (text_part t citations ∷ ps) = repair_parts answered ps
  repair_parts answered (other_part body ∷ ps) = repair_parts answered ps

  unfoldable pub inserted : List Text → Turn Body → List (Turn Body) × List Text
  inserted answered m =
      if is_assistant m.role then repair_parts answered m.content else ([], answered)

  unfoldable pub repair : List Text → List (Turn Body) → List (Turn Body)
  repair answered [] = []
  repair answered (m ∷ ms) = m ∷ ((inserted answered m).0 ++ repair (inserted answered m).1 ms)

module _ (resolve_alias : Text → Text) {Body : Type 0} where
  -- normalize, with an empty model for NormalizeForProvider. The early return for an empty
  -- transcript is the same as the general case.
  unfoldable pub normalize : List (Turn Body) → Text → Text → List (Turn Body)
  normalize msgs provider model =
      let out = forward resolve_alias provider model (record { used = []; remap = [] }) msgs in
      repair (result_ids (parts_of out)) out
