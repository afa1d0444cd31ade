-- ===== src/Anthropic.antt =====
-- provider/anthropic/streamblocks.go and parseStream of provider/anthropic/anthropic.go. An event is
-- what json.Unmarshal makes of a data line, by its type and its delta's type. A block's JSON as it
-- was sent (ProviderBlock) is not followed, nor what a tool's JSON input decodes to; of the usage, the
-- input and output tokens are.
pub mod Parse
pub mod Ending
pub mod Tools
pub mod Inputs
use rho_llm.Base.{
  ℕ, zero, suc, ◌+◌, Text, text, text_eq, Bool, true, false, ◌&&◌, ◌||◌, not, Option, none, some,
  List, [], ◌∷◌, ◌++◌, length, leb, ltb, if◌then◌else◌, ℤ, pos, negsuc, leb_ℤ, ltb_ℤ,
}

abbrev pub int_eq : ℤ → ℤ → Bool
int_eq a b = leb_ℤ a b && leb_ℤ b a

-- anthropicBlock, less its JSON. `whole` is what blockPart makes of a block that arrives complete,
-- and `is_result` whether that is the result of a server tool.
pub record WireBlock (Whole : Type 0) : Type 0 where
  pub type_name : Text
  pub id : Text
  pub name : Text
  pub text_of : Text
  pub thinking_of : Text
  pub signature_of : Text
  pub whole : Whole
  pub is_result : Bool

-- ContentPart, as this code makes it. The input of a tool is its JSON as text.
pub data Part (Whole Citation : Type 0) : Type 0 where
  text_part : Text → List Citation → Part Whole Citation
  thinking_part : Text → Text → Part Whole Citation
  tool_part : Text → Text → Text → Part Whole Citation
  server_part : Text → Text → Text → Part Whole Citation
  whole_part : Whole → Part Whole Citation

pub record StreamBlock (Whole Citation : Type 0) : Type 0 where
  pub type_name : Text
  pub id : Text
  pub name : Text
  pub text_of : Text
  pub thinking_of : Text
  pub signature_of : Text
  pub citations : List Citation
  pub input : Text
  pub server_open : Bool
  pub part : Option (Part Whole Citation)

-- streamBlocks: the blocks by index, in the order of their first appearance.
abbrev pub Blocks : Type 0 → Type 0 → Type 0
Blocks Whole Citation = List (ℤ × StreamBlock Whole Citation)

-- The types whose content is streamed; any other block is complete at once.
abbrev pub is_streamed : Text → Bool
is_streamed kind =
    text_eq kind (text "text")
    || (text_eq kind (text "thinking")
        || (text_eq kind (text "tool_use") || text_eq kind (text "server_tool_use")))

module _ {Whole Citation : Type 0} where
  abbrev pub blank : Text → StreamBlock Whole Citation
  blank kind = record {
    type_name = kind;
    id = [];
    name = [];
    text_of = [];
    thinking_of = [];
    signature_of = [];
    citations = [];
    input = [];
    server_open = false;
    part = none;
  }

  -- Change the block at an index; a missing one is made of `fresh` first.
  unfoldable pub update_block :
      (StreamBlock Whole Citation → StreamBlock Whole Citation)
      → StreamBlock Whole Citation
      → ℤ
      → Blocks Whole Citation
      → Blocks Whole Citation
  update_block f fresh i [] = (i, f fresh) ∷ []
  update_block f fresh i ((j, b) ∷ bs) =
      let rest = update_block f fresh i bs in if int_eq j i then (j, f b) ∷ bs else (j, b) ∷ rest

  unfoldable pub block_at : ℤ → Blocks Whole Citation → Option (StreamBlock Whole Citation)
  block_at i [] = none
  block_at i ((j, b) ∷ bs) = if int_eq j i then some b else block_at i bs

  -- The block that start puts at an index.
  unfoldable pub started_block : WireBlock Whole → StreamBlock Whole Citation
  started_block w = record {
    type_name = w.type_name;
    id = w.id;
    name = w.name;
    text_of = if text_eq w.type_name (text "text") then w.text_of else [];
    thinking_of = if text_eq w.type_name (text "thinking") then w.thinking_of else [];
    signature_of = if text_eq w.type_name (text "thinking") then w.signature_of else [];
    citations = [];
    input = [];
    server_open = text_eq w.type_name (text "server_tool_use");
    part = if is_streamed w.type_name then none else some (whole_part w.whole);
  }

  unfoldable pub start : ℤ → WireBlock Whole → Blocks Whole Citation → Blocks Whole Citation
  start i w bs = update_block (λ b. started_block w) (blank []) i bs

  abbrev pub append_text : ℤ → Text → Blocks Whole Citation → Blocks Whole Citation
  append_text i t bs =
      update_block (λ b. record b { text_of = b.text_of ++ t }) (blank (text "text")) i bs

  abbrev pub append_citation : ℤ → Citation → Blocks Whole Citation → Blocks Whole Citation
  append_citation i c bs =
      update_block (λ b. record b { citations = b.citations ++ (c ∷ []) }) (blank (text "text")) i
        bs

  abbrev pub append_thinking : ℤ → Text → Blocks Whole Citation → Blocks Whole Citation
  append_thinking i t bs =
      update_block (λ b. record b { thinking_of = b.thinking_of ++ t }) (blank (text "thinking")) i
        bs

  abbrev pub append_signature : ℤ → Text → Blocks Whole Citation → Blocks Whole Citation
  append_signature i t bs =
      update_block (λ b. record b { signature_of = b.signature_of ++ t }) (blank (text "thinking"))
        i bs

  abbrev pub is_open : Option (StreamBlock Whole Citation) → Bool
  is_open none = false
  is_open (some b) = b.server_open

  abbrev pub input_length : Option (StreamBlock Whole Citation) → ℕ
  input_length none = 0
  input_length (some b) = length b.input

  abbrev pub append_input : ℤ → Text → Blocks Whole Citation → Blocks Whole Citation
  append_input i t bs = update_block (λ b. record b { input = b.input ++ t }) (blank []) i bs

  -- openServerToolUse: the index, or none for -1.
  unfoldable pub open_server_tool_use : Blocks Whole Citation → Option ℤ
  open_server_tool_use [] = none
  open_server_tool_use ((i, b) ∷ bs) =
      let rest = open_server_tool_use bs in if b.server_open then some i else rest

  abbrev pub finish_block : StreamBlock Whole Citation → StreamBlock Whole Citation
  finish_block b =
      if b.server_open
      then record b { server_open = false; part = some (server_part b.id b.name b.input) }
      else b

  abbrev pub set_tool_use : ℤ → Text → Text → Text → Blocks Whole Citation → Blocks Whole Citation
  set_tool_use i id name input bs =
      if ltb_ℤ i (pos 0)
      then bs
      else update_block (λ b. record b { part = some (tool_part id name input) })
          (blank (text "tool_use")) i bs

  -- One block of `parts`, and all.
  unfoldable pub block_parts : StreamBlock Whole Citation → List (Part Whole Citation)
  block_parts b = elim b.part [
    | some p ↦ p ∷ []
    | none ↦
        if text_eq b.type_name (text "text")
        then text_part b.text_of b.citations ∷ []
        else if text_eq b.type_name (text "thinking")
        then thinking_part b.thinking_of b.signature_of ∷ []
        else []
  ]

  unfoldable pub parts : Blocks Whole Citation → List (Part Whole Citation)
  parts [] = []
  parts ((i, b) ∷ bs) = block_parts (finish_block b) ++ parts bs
