-- ===== src/Store/Conversation/Blocks.antt =====
-- The records of assistant messages and of tool results, read back by json.c.
use bash_agent.Base.{
  All, Bytes, List, Option, [], ap, append_assoc, arith, codes, map, refl, some, true, ◌++◌, ◌∙◌,
  ◌∷◌, ◌≡◌,
}
use bash_agent.Json.Printed.{IsElement, option_string-IsElement, printed-IsValue}
use bash_agent.Json.Printed.Arrays.{AllElements, array_text, array_text-IsPrinted, more_items}
use bash_agent.Json.Printed.Objects.{
  AllMembers, IsKey, IsMember, object_text, object_text-IsPrinted,
}
use bash_agent.Json.Value.{Kind, array, object, string}
use bash_agent.Store.Conversation.{
  ToolUse, assistant_record, or_empty, result_block, result_blocks, results_record, tool_use_block,
  tool_use_blocks,
}
use bash_agent.Store.Conversation.Records.{record_text, string-IsMember}
use bash_agent.Util.Escape.{escape_byte, escaped, json_string}

tool_use_blocks-more_items :
    (ts : List ToolUse) → tool_use_blocks ts ++ codes "]" ≡ more_items (map tool_use_block ts)
unfolding tool_use_blocks
tool_use_blocks-more_items [] = refl
tool_use_blocks-more_items (t ∷ ts) = ap (◌∷◌ b',') (
    append_assoc (tool_use_block t) (tool_use_blocks ts) (codes "]")
    ∙ ap (λ x. tool_use_block t ++ x) (tool_use_blocks-more_items ts))

-- the blocks that store_conv_add_assistant always writes
abbrev pub thinking_block : Option Bytes → Bytes
thinking_block s =
    object_text (codes "type") (json_string (some (codes "thinking")))
      ((codes "thinking", json_string (or_empty s)) ∷ [])

abbrev pub text_block : Option Bytes → Bytes
text_block s =
    object_text (codes "type") (json_string (some (codes "text")))
      ((codes "text", json_string (or_empty s)) ∷ [])

pub assistant_record-text :
    (thinking reply : Option Bytes) (tools : List ToolUse)
    → assistant_record thinking reply tools
      ≡ record_text
          (codes "assistant")
          (array_text (thinking_block thinking) (text_block reply ∷ map tool_use_block tools))
unfolding assistant_record json_string escaped escape_byte
assistant_record-text thinking reply tools = simp (append_assoc, ← tool_use_blocks-more_items)

abbrev tool_block : ToolUse → Bytes
tool_block t = object_text (codes "type") (json_string (some (codes "tool_use"))) (
    (codes "id", json_string t.id)
    ∷ (codes "name", json_string t.name)
    ∷ (codes "input", t.input)
    ∷ [])

tool_use_block-text : (t : ToolUse) → tool_use_block t ≡ tool_block t
unfolding tool_use_block json_string escaped escape_byte
tool_use_block-text t = simp append_assoc

abbrev pub answer_block : Option Bytes × Option Bytes → Bytes
answer_block (id, body) =
    object_text (codes "type") (json_string (some (codes "tool_result")))
      ((codes "tool_use_id", json_string id) ∷ (codes "content", json_string body) ∷ [])

result_block-text : (id body : Option Bytes) → result_block id body ≡ answer_block (id, body)
unfolding result_block json_string escaped escape_byte
result_block-text id body = simp append_assoc

-- the blocks behind the first
result_blocks-more_items :
    (rs : List (Option Bytes × Option Bytes))
    → result_blocks true rs ++ codes "]" ≡ more_items (map answer_block rs)
unfolding result_blocks
result_blocks-more_items [] = refl
result_blocks-more_items ((id, body) ∷ rs) = ap (◌∷◌ b',') (
    append_assoc (result_block id body) (result_blocks true rs) (codes "]")
    ∙ ap (λ x. result_block id body ++ x) (result_blocks-more_items rs)
    ∙ ap (λ x. x ++ more_items (map answer_block rs)) (result_block-text id body))

pub results_record-text :
    (r : Option Bytes × Option Bytes) (rs : List (Option Bytes × Option Bytes))
    → results_record (r ∷ rs)
      ≡ record_text (codes "user") (array_text (answer_block r) (map answer_block rs))
unfolding results_record json_string escaped escape_byte
results_record-text (id, body) rs = simp (append_assoc, ← result_blocks-more_items)

-- A block: a type that is printed as it is, and members behind it.
pub block-IsElement :
    (type : Bytes) (ms : List (Bytes × Bytes))
    → AllMembers ms
    → IsElement object (object_text (codes "type") (json_string (some type)) ms)
block-IsElement type ms h = record {
  no_space = refl;
  not_empty = omega arith;
  printed = printed-IsValue object (object_text (codes "type") (json_string (some type)) ms) (
      object_text-IsPrinted (codes "type") (json_string (some type)) ms
        (string, string-IsMember (codes "type") type (ground arith)) h);
}

option-IsMember :
    (k : Bytes) (s : Option Bytes) → IsKey k → (kind : Kind) × IsMember kind k (json_string s)
option-IsMember k s h =
    let (kind, e) = option_string-IsElement s in (kind, record { plain_key = h; element = e })

-- Input that the model sent is one JSON value.
abbrev pub HasJsonInput : ToolUse → Type 0
HasJsonInput t = (k : Kind) × IsElement k t.input

tool_block-IsElement : (t : ToolUse) → HasJsonInput t → IsElement object (tool_block t)
tool_block-IsElement t (k, e) =
    block-IsElement (codes "tool_use")
      ((codes "id", json_string t.id)
        ∷ (codes "name", json_string t.name)
        ∷ (codes "input", t.input)
        ∷ [])
      (
        option-IsMember (codes "id") t.id (ground arith),
        (
          option-IsMember (codes "name") t.name (ground arith),
          ((k, record { plain_key = ground arith; element = e }), tt),
        ),
      )

pub tool_blocks-AllElements :
    (ts : List ToolUse) → All HasJsonInput ts → AllElements (map tool_use_block ts)
tool_blocks-AllElements [] h = tt
tool_blocks-AllElements (t ∷ ts) (e, h) =
    ((object, rw (tool_use_block-text t) (tool_block-IsElement t e)), tool_blocks-AllElements ts h)

pub answer_block-IsElement : (r : Option Bytes × Option Bytes) → IsElement object (answer_block r)
answer_block-IsElement (id, body) =
    block-IsElement (codes "tool_result")
      ((codes "tool_use_id", json_string id) ∷ (codes "content", json_string body) ∷ [])
      (
        option-IsMember (codes "tool_use_id") id (ground arith),
        (option-IsMember (codes "content") body (ground arith), tt),
      )

pub answer_blocks-AllElements :
    (rs : List (Option Bytes × Option Bytes)) → AllElements (map answer_block rs)
answer_blocks-AllElements [] = tt
answer_blocks-AllElements (r ∷ rs) =
    ((object, answer_block-IsElement r), answer_blocks-AllElements rs)

pub one_member : (k : Bytes) (s : Option Bytes) → IsKey k → AllMembers ((k, json_string s) ∷ [])
one_member k s h = (option-IsMember k s h, tt)

pub array-IsElement :
    (v : Bytes) (vs : List Bytes)
    → IsElement object (b'{' ∷ v)
    → AllElements vs
    → IsElement array (array_text (b'{' ∷ v) vs)
array-IsElement v vs e h = record {
  no_space = refl;
  not_empty = omega arith;
  printed =
      printed-IsValue array (array_text (b'{' ∷ v) vs)
        (array_text-IsPrinted (b'{' ∷ v) vs (object, e) refl h);
}
