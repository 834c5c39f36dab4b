-- ===== src/Agent/Turns/Recorded.antt =====
-- agent_loop: what a round adds to the conversation.
use bash_agent.Agent.Events.{Log}
use bash_agent.Agent.Turns.{LoopState, RanTool, answer_record, run_tool_calls, tool_use_of}
use bash_agent.Base.{
  All, All-append, Bytes, List, Option, [], ap, arith, codes, false, length, map, refl, some, ◌++◌,
  ◌<◌, ◌==◌, ◌∙◌, ◌∷◌, ◌≡◌, ◌⊎◌,
}
use bash_agent.Store.Conversation.{
  ToolUse, assistant_record, file_lines, or_empty, results_record, tool_use_block, tool_use_blocks,
}
use bash_agent.Store.Conversation.Count.{json_string-IsOneLine}
use bash_agent.Store.Conversation.Lines.{IsComplete, IsOneLine}
use bash_agent.Transport.Events.{Accumulator, ToolCall}
use bash_agent.Util.Escape.{json_string}
use bash_agent.Util.FileSystem.{World}

append-IsOneLine : (a b : Bytes) → IsOneLine a → IsOneLine b → IsOneLine (a ++ b)
append-IsOneLine = All-append (λ c. (c == b'\n') ≡ false)

tool_use_block-IsOneLine : (t : ToolUse) → IsOneLine t.input → IsOneLine (tool_use_block t)
unfolding tool_use_block
tool_use_block-IsOneLine t h =
    append-IsOneLine (codes "{\"type\":\"tool_use\",\"id\":") _ (ground arith) (
      append-IsOneLine (json_string t.id) _ (json_string-IsOneLine t.id) (
        append-IsOneLine (codes ",\"name\":") _ (ground arith) (
          append-IsOneLine (json_string t.name) _ (json_string-IsOneLine t.name) (
            append-IsOneLine (codes ",\"input\":") _ (ground arith)
              (append-IsOneLine t.input (codes "}") h (refl, tt))))))

tool_use_blocks-IsOneLine :
    (ts : List ToolUse) → All (λ t. IsOneLine t.input) ts → IsOneLine (tool_use_blocks ts)
unfolding tool_use_blocks
tool_use_blocks-IsOneLine [] h = tt
tool_use_blocks-IsOneLine (t ∷ ts) (h, hs) =
    append-IsOneLine (codes ",") (tool_use_block t ++ tool_use_blocks ts) (refl, tt)
      (append-IsOneLine (tool_use_block t) (tool_use_blocks ts) (tool_use_block-IsOneLine t h)
        (tool_use_blocks-IsOneLine ts hs))

assistant_record-IsOneLine :
    (thinking reply : Option Bytes) (ts : List ToolUse)
    → All (λ t. IsOneLine t.input) ts
    → IsOneLine (assistant_record thinking reply ts)
unfolding assistant_record
assistant_record-IsOneLine thinking reply ts h =
    let reply_end = codes "}" ++ (tool_use_blocks ts ++ codes "]}") in
    let reply_part =
      codes ",{\"type\":\"text\",\"text\":" ++ (json_string (or_empty reply) ++ reply_end) in
    let thinking_end = codes "}" ++ reply_part in
    let thinking_part =
      codes "{\"type\":\"thinking\",\"thinking\":"
      ++ (json_string (or_empty thinking) ++ thinking_end) in
    append-IsOneLine (codes "{\"role\":\"assistant\",\"content\":[") thinking_part (ground arith) (
      append-IsOneLine (codes "{\"type\":\"thinking\",\"thinking\":")
        (json_string (or_empty thinking) ++ thinking_end) (ground arith)
        (append-IsOneLine (json_string (or_empty thinking)) thinking_end
          (json_string-IsOneLine (or_empty thinking))
          (append-IsOneLine (codes "}") reply_part (refl, tt)
            (append-IsOneLine (codes ",{\"type\":\"text\",\"text\":")
              (json_string (or_empty reply) ++ reply_end) (ground arith)
              (append-IsOneLine (json_string (or_empty reply)) reply_end
                (json_string-IsOneLine (or_empty reply))
                (append-IsOneLine (codes "}") (tool_use_blocks ts ++ codes "]}") (refl, tt)
                  (append-IsOneLine (tool_use_blocks ts) (codes "]}")
                    (tool_use_blocks-IsOneLine ts h) (ground arith))))))))

inputs-IsOneLine :
    (ts : List ToolCall)
    → All (λ t. IsOneLine t.input_json) ts
    → All (λ t. IsOneLine t.input) (map tool_use_of ts)
inputs-IsOneLine [] h = tt
inputs-IsOneLine (t ∷ ts) (h, hs) = (h, inputs-IsOneLine ts hs)

pub answer_record-IsOneLine :
    (acc : Accumulator)
    → All (λ t. IsOneLine t.input_json) acc.tools
    → IsOneLine (answer_record acc)
unfolding answer_record
answer_record-IsOneLine acc h =
    assistant_record-IsOneLine (some acc.thinking) (some acc.content) (map tool_use_of acc.tools)
      (inputs-IsOneLine acc.tools h)

-- tools that leave the conversation as it is
abbrev pub KeepConversation : (World → Option Bytes → Log → ToolCall → RanTool) → Type 0
KeepConversation run =
    (w : World) (c : Option Bytes) (log : Log) (t : ToolCall) → (run w c log t).conversation ≡ c

-- each call has its answer
pub run_tool_calls_lem :
    (run : World → Option Bytes → Log → ToolCall → RanTool) (ts : List ToolCall) (st : LoopState)
    → KeepConversation run
    → let (after, results) = run_tool_calls run st ts in
      (map (λ r. r.0) results ≡ map (λ t. t.id) ts)
      × (after.state.conversation ≡ st.state.conversation)
unfolding run_tool_calls
run_tool_calls_lem run [] st keeps = (refl, refl)
run_tool_calls_lem run (t ∷ ts) st keeps =
    let (ids, same) = run_tool_calls_lem run ts _ keeps in
    (ap (λ l. t.id ∷ l) ids, same ∙ keeps st.state.world st.state.conversation st.state.log t)

-- the stop reasons with which the model asks for the results of its calls
pub data AsksFor : Option Bytes → Type 0 where
  tool_use_reason : AsksFor (some (codes "tool_use"))
  tool_calls_reason : AsksFor (some (codes "tool_calls"))

-- the model made calls, and asks for their results
abbrev pub WantsResults : Accumulator → Type 0
WantsResults acc = AsksFor acc.stop_reason × (0 < length acc.tools)

-- what a conversation is after a round
pub record Adds (file : Bytes) (lines : List Bytes) (after : Option Bytes) : Type 0 where
  pub content : Bytes
  pub is_content : after ≡ some content
  pub added : file_lines content ≡ file_lines file ++ lines
  pub complete : IsComplete content

-- the conversation after a round: the record of the answer, which the record of the results
-- follows where the model asks for them, and only there
abbrev pub AddsRound :
    Bytes → Accumulator → List (Option Bytes × Option Bytes) → Option Bytes → Type 0
AddsRound file acc results after =
    (WantsResults acc × Adds file (answer_record acc ∷ results_record results ∷ []) after)
    ⊎ ((¬ WantsResults acc) × Adds file (answer_record acc ∷ []) after)
