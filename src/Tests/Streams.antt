-- ===== src/Tests/Streams.antt =====
-- streamevents.go and streamfold.go: runs at concrete inputs.
use rho_llm.Base.{◌≡◌, refl, Text, text, true, false, none, some, List, [], ◌∷◌}
use rho_llm.Errors.{plain}
use rho_llm.Stream.{
  Item, EventType, content, thinking, done, empty_event, Consumer, text_part, thinking_part,
}
use rho_llm.Stream.Bracketing.{delivery, read_all, outside, without_markers, delivery_bracketed}
use rho_llm.Stream.Fold.{collect_stream, collect_from, add, add_typed, response, collect_stream_lem}

abbrev says : Text → Item
says t = (record (empty_event content) { text = t }, none)

abbrev thinks : Text → Item
thinks t = (record (empty_event thinking) { thinking = t }, none)

abbrev turn : List Item
turn = thinks (text "hm") ∷ says (text "hel") ∷ says (text "lo") ∷ (empty_event done, none) ∷ []

-- The same turn, cut off by an error in the middle of the text.
abbrev broken : List Item
broken =
    thinks (text "hm")
    ∷ says (text "hel")
    ∷ (empty_event EventType.error, some (plain (text "cut")))
    ∷ []

delivery_bracketed_example :
    (read_all (some outside) (delivery broken) ≡ some outside)
    × (without_markers (delivery broken) ≡ broken)
delivery_bracketed_example = delivery_bracketed broken (refl, (refl, (refl, tt)))

-- A consumer that breaks after two items.
abbrev two_only : Consumer
two_only (a ∷ b ∷ rest) = false
two_only _ = true

-- A turn whose terminal event has its parts assembled.
abbrev assembled : List Item
assembled =
    says (text "hel")
    ∷ (
      record (empty_event done) {
        parts = thinking_part (text "hm") (text "sig") false ∷ text_part (text "hello") ∷ [];
      },
      none,
    )
    ∷ []

assembled_run : (collect_stream assembled).0.content ≡ text "hello"
unfolding collect_stream response collect_from add add_typed
assembled_run = refl

collect_stream_lem_example :
    let (r, err) = collect_stream turn in
    (r.content ≡ text "hello") × (r.thinking ≡ text "hm") × (r.tool_calls ≡ []) × (err ≡ none)
collect_stream_lem_example = collect_stream_lem turn
