-- ===== src/Store/Conversation/Count.antt =====
-- What each kind of record says when it is read back, and what it adds to the turn count.
use bash_agent.Base.{
  All, All-append, Bool, Bytes, IsText, List, Option, [], ap, arith, codes, false, if◌then◌else◌,
  map, none, refl, some, str_eq, true, ℕ, ◌&&◌, ◌++◌, ◌+◌, ◌==◌, ◌∙◌, ◌∷◌, ◌≡◌,
}
use bash_agent.Json.Parse.{json_parse_root}
use bash_agent.Json.Printed.{IsElement}
use bash_agent.Json.Query.{json_get, json_get_string, result}
use bash_agent.Json.Value.{Kind, Val, array, is_string, object, ok}
use bash_agent.Store.Conversation.{
  ToolUse, assistant_record, count_turns, file_lines, is_user_turn, jsonl_append, or_empty,
  result_block, result_blocks, results_record, tool_use_block, user_record, user_turn_count,
}
use bash_agent.Store.Conversation.Blocks.{
  HasJsonInput, answer_block, answer_block-IsElement, answer_blocks-AllElements, array-IsElement,
  assistant_record-text, block-IsElement, one_member, results_record-text, text_block,
  tool_blocks-AllElements,
}
use bash_agent.Store.Conversation.Lines.{IsComplete, IsOneLine, jsonl_append_lem}
use bash_agent.Store.Conversation.Records.{
  get_content, get_role, is_user_turn-record, json_parse_root-record, record_text, record_val,
  user-IsText, user_record_lem,
}
use bash_agent.Util.Escape.{escape_byte, escaped, hex_digit, json_string, quote}

-- how a record with contents of kind `k` is read back, and whether it counts as a user turn
abbrev pub ReadsAs : Bytes → Bytes → Kind → Bool → Type 0
ReadsAs line role k counts =
    (v : Val) × (json_parse_root (some line) ≡ ok v [])
    × (json_get_string v (codes "role") ≡ some role)
    × ((result (json_get v (codes "content"))).kind ≡ k)
    × (is_user_turn line ≡ counts)

record-ReadsAs :
    {k : Kind} (role content : Bytes) (e : IsElement k content)
    → IsText role
    → ReadsAs (record_text role content) role k (str_eq role (codes "user") && is_string k)
record-ReadsAs role content e h = (
  record_val role content e,
  json_parse_root-record role content e,
  get_role role content e h,
  ap (λ l. (result l).kind) (get_content role content e),
  is_user_turn-record role content e h,
)

-- The record of an assistant message, whatever its thinking and text, with tool inputs that are
-- JSON: json_parse_root accepts it, its role is assistant, its content an array, and it is no
-- user turn.
pub assistant_record_lem :
    (thinking reply : Option Bytes) (tools : List ToolUse)
    → All HasJsonInput tools
    → ReadsAs (assistant_record thinking reply tools) (codes "assistant") array false
assistant_record_lem thinking reply tools h =
    let reply_ok =
      block-IsElement (codes "text") ((codes "text", json_string (or_empty reply)) ∷ [])
        (one_member (codes "text") (or_empty reply) (ground arith)) in
    let thinking_ok =
      block-IsElement (codes "thinking") ((codes "thinking", json_string (or_empty thinking)) ∷ [])
        (one_member (codes "thinking") (or_empty thinking) (ground arith)) in
    rw (assistant_record-text thinking reply tools) (
      record-ReadsAs (codes "assistant") _
        (array-IsElement _ (text_block reply ∷ map tool_use_block tools) thinking_ok
          ((object, reply_ok), tool_blocks-AllElements tools h))
        (omega arith))

-- The record of tool results, of which there is at least one, is accepted too; its role is user,
-- but its content is an array, and so it is no user turn.
pub results_record_lem :
    (r : Option Bytes × Option Bytes) (rs : List (Option Bytes × Option Bytes))
    → ReadsAs (results_record (r ∷ rs)) (codes "user") array false
results_record_lem r rs = rw (results_record-text r rs) (
    record-ReadsAs (codes "user") _
      (array-IsElement _ (map answer_block rs) (answer_block-IsElement r)
        (answer_blocks-AllElements rs))
      user-IsText)

escape_byte-IsOneLine : (c : ℕ) → IsOneLine (escape_byte c)
unfolding escape_byte hex_digit
escape_byte-IsOneLine c = ground arith

IsOneLine-append : (a b : Bytes) → IsOneLine a → IsOneLine b → IsOneLine (a ++ b)
IsOneLine-append = All-append (λ c. (c == b'\n') ≡ false)

-- A quoted text holds no line feed, whatever the text holds.
pub escaped-IsOneLine : (s : Bytes) → IsOneLine (escaped s)
unfolding escaped
escaped-IsOneLine [] = tt
escaped-IsOneLine (c ∷ s) =
    IsOneLine-append (escape_byte c) (escaped s) (escape_byte-IsOneLine c) (escaped-IsOneLine s)

pub json_string-IsOneLine : (s : Option Bytes) → IsOneLine (json_string s)
unfolding json_string
json_string-IsOneLine none = ground arith
json_string-IsOneLine (some s) =
    (refl, IsOneLine-append (escaped s) (quote ∷ []) (escaped-IsOneLine s) (refl, tt))

pub user_record-IsOneLine : (s : Option Bytes) → IsOneLine (user_record s)
unfolding user_record
user_record-IsOneLine s =
    IsOneLine-append (codes "{\"role\":\"user\",\"content\":") (json_string s ++ codes "}")
      (ground arith)
      (IsOneLine-append (json_string s) (codes "}") (json_string-IsOneLine s) (refl, tt))

result_block-IsOneLine : (id body : Option Bytes) → IsOneLine (result_block id body)
unfolding result_block
result_block-IsOneLine id body =
    IsOneLine-append (codes "{\"type\":\"tool_result\",\"tool_use_id\":")
      (json_string id ++ (codes ",\"content\":" ++ (json_string body ++ codes "}"))) (ground arith)
      (IsOneLine-append (json_string id) (codes ",\"content\":" ++ (json_string body ++ codes "}"))
        (json_string-IsOneLine id)
        (IsOneLine-append (codes ",\"content\":") (json_string body ++ codes "}") (ground arith) (
          IsOneLine-append (json_string body) (codes "}") (json_string-IsOneLine body) (refl, tt))))

result_blocks-IsOneLine :
    (later : Bool) (rs : List (Option Bytes × Option Bytes)) → IsOneLine (result_blocks later rs)
unfolding result_blocks
result_blocks-IsOneLine later [] = tt
result_blocks-IsOneLine true ((id, body) ∷ rs) = (
  refl,
  IsOneLine-append (result_block id body) (result_blocks true rs) (result_block-IsOneLine id body)
      (result_blocks-IsOneLine true rs),
)
result_blocks-IsOneLine false ((id, body) ∷ rs) =
    IsOneLine-append (result_block id body) (result_blocks true rs) (result_block-IsOneLine id body)
      (result_blocks-IsOneLine true rs)

pub results_record-IsOneLine :
    (rs : List (Option Bytes × Option Bytes)) → IsOneLine (results_record rs)
unfolding results_record
results_record-IsOneLine rs =
    IsOneLine-append (codes "{\"role\":\"user\",\"content\":[")
      (result_blocks false rs ++ codes "]}") (ground arith)
      (IsOneLine-append (result_blocks false rs) (codes "]}") (result_blocks-IsOneLine false rs)
        (ground arith))

count_turns-append : (a b : List Bytes) → count_turns (a ++ b) ≡ count_turns a + count_turns b
unfolding count_turns
count_turns-append [] b = omega arith
count_turns-append (l ∷ a) b = omega (arith, count_turns-append a b)

count_turns-one : (l : Bytes) → count_turns (l ∷ []) ≡ (if is_user_turn l then 1 else 0)
unfolding count_turns
count_turns-one l = omega arith

pub user_turn_count-jsonl_append :
    {file : Bytes} (l : Bytes)
    → IsComplete file
    → IsOneLine l
    → user_turn_count (some (jsonl_append file l))
      ≡ user_turn_count (some file) + (if is_user_turn l then 1 else 0)
unfolding user_turn_count
user_turn_count-jsonl_append {file} l c h =
    ap count_turns (jsonl_append_lem l c h).0
    ∙ count_turns-append (file_lines file) (l ∷ [])
    ∙ ap (λ n. count_turns (file_lines file) + n) (count_turns-one l)

-- Appending the record of a user message to a conversation of whole lines raises
-- store_conv_user_turn_count by one; appending the record of tool results leaves it as it is.
pub user_turn_count_lem :
    {file : Bytes} (message : Bytes) (r : Option Bytes × Option Bytes)
    (rs : List (Option Bytes × Option Bytes))
    → IsComplete file
    → IsText message
    → (user_turn_count (some (jsonl_append file (user_record (some message))))
        ≡ user_turn_count (some file) + 1)
      × (user_turn_count (some (jsonl_append file (results_record (r ∷ rs))))
          ≡ user_turn_count (some file))
user_turn_count_lem {file} message r rs c h =
    let (v, _, _, _, counts) = user_record_lem message h in
    let (w, _, _, _, skips) = results_record_lem r rs in
    (
      user_turn_count-jsonl_append (user_record (some message)) c
            (user_record-IsOneLine (some message))
          ∙ rw counts,
      user_turn_count-jsonl_append (results_record (r ∷ rs)) c (results_record-IsOneLine (r ∷ rs))
          ∙ rw skips (omega arith),
    )
